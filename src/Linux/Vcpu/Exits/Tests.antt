-- ===== src/Linux/Vcpu/Exits/Tests.antt =====
-- The exits of linux/vcpu.rs on a concrete machine.
use uhyve.Linux.Vcpu.Exits.Sample.{env, machine, word}
use uhyve.Linux.Vcpu.Exits.Card.{Keeps, SparesPciData, card_exits-IsValid}
use uhyve.Linux.Vcpu.Exits.Pci.{pci_config_roundtrip}
use uhyve.Linux.Vcpu.Translate.{host_address}
use uhyve.Linux.Vcpu.Port.{pci_config_address, pci_config_data, queue_sel, status}
use uhyve.Prelude.{List, [], arith, length, refl, some, ℕ, ◌%◌, ◌++◌, ◌+◌, ◌<◌, ◌∷◌, ◌≡◌, ◌≤◌}
use uhyve.Memory.{Slice, load, load_bytes}
use uhyve.Vm.Hypercalls
use uhyve.Vm.Hypercalls.{Libc, close, exit, lseek, open_file, read, unlink, write}
use uhyve.Linux.Virtio.Device.{new}
use uhyve.Linux.Vcpu.Port
use uhyve.Linux.Vcpu.Machine.{Machine, io_out, io_in, resumes, hlt, VcpuExit, interrupted}
use uhyve.Linux.Vcpu.Exits.{handle_exit, continue, run, data_addr, returns}
use uhyve.Linux.Vcpu.Exits.Stop.{NoneOf, output_ports, console, run-console}

-- The guest writes two texts of four bytes, the second after the first, and exits with the code at 0x20.
run-console_example :
    run env (console (word 72 ∷ word 73 ∷ []) ++ io_out Port.exit (word 0x20) ∷ hlt ∷ []) machine
    ≡ returns
        (some (load 4 machine.memory (host_address env.vm_start (load 4 (word 0x20).bytes 0))))
        (record machine { world = 72 ∷ 0 ∷ 0 ∷ 0 ∷ 73 ∷ 0 ∷ 0 ∷ 0 ∷ [] })
unfolding load_bytes
run-console_example = run-console env (word 72 ∷ word 73 ∷ []) (word 0x20) (hlt ∷ []) machine refl

exit_code : Hypercalls.exit machine.memory (data_addr env (word 0x20)) ≡ 7
unfolding Hypercalls.exit load host_address
exit_code = refl

unknown_port : NoneOf 0x99 output_ports
unknown_port = ground arith

-- The guest acknowledges the card, selects a queue, reads the status back and is interrupted.
abbrev acknowledges : List VcpuExit
acknowledges =
    io_out Port.status (word 1)
    ∷ io_out Port.queue_sel (word 0)
    ∷ io_in Port.status (word 0)
    ∷ interrupted
    ∷ []

acknowledges-Spares : SparesPciData acknowledges
acknowledges-Spares = ground arith

card_exits-IsValid_example : Keeps (continue env acknowledges machine)
card_exits-IsValid_example = card_exits-IsValid env acknowledges machine refl acknowledges-Spares

size_of_new : 4 + 4 ≤ length new.registers
unfolding new
size_of_new = omega arith

pci_config_roundtrip_example :
    (s1 : Machine (List ℕ)) × (s2 : Machine (List ℕ)) × (out : Slice) × (handle_exit env machine
        (io_out Port.pci_config_address (word 4))
      ≡ resumes s1 (word 4))
    × (handle_exit env s1 (io_out Port.pci_config_data (word 9)) ≡ resumes s2 (word 9))
    × (handle_exit env s2 (io_in Port.pci_config_data (word 0)) ≡ resumes s2 out)
    × ((i : ℕ) → i < 4 → out.bytes i ≡ (word 9).bytes i % 256)
unfolding load
pci_config_roundtrip_example =
    pci_config_roundtrip env machine (word 4) (word 9) (word 0) refl size_of_new refl
