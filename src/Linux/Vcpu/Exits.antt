-- ===== src/Linux/Vcpu/Exits.antt =====
-- src/linux/vcpu.rs, `continue` and `run`: what the hypervisor does when the guest leaves the
-- processor. KVM is the sequence of exits that it reports.
use uhyve.Macos.Vcpu.{Vcpu}
use uhyve.Linux.Vcpu.Port.{
  config_off_msix_off, config_off_msix_off_max, guest_features, link_status_msix_off,
  pci_config_address, pci_config_data, queue_notify, queue_sel, queue_pfn, status,
}
use uhyve.Prelude.{
  List, Option, [], bit_and, if◌then◌else◌, leb, none, some, ℕ, ◌&&◌, ◌++◌, ◌-◌, ◌==◌, ◌∷◌,
}
pub mod Pci
pub mod Card
pub mod Stop
pub mod Sample
mod Tests
use uhyve.Memory.{Memory, load, store, Slice, load_bytes}
use uhyve.Linux.Vcpu.Translate.{host_address}
use uhyve.Vm.Hypercalls
use uhyve.Linux.Vcpu.Port
use uhyve.Vm.Hypercalls.{
  Libc, Written, done, failed, running, close, exit, lseek, open_file, read, unlink, write,
}
use uhyve.Vm.Arguments.{cmdsize, cmdval}
use uhyve.Linux.Virtio.Device.{
  Host, VirtioNetPciDevice, handle_read, handle_write, read_status, read_mac_byte, read_link_status,
  iobase, host_features,
}
use uhyve.Linux.Virtio.Negotiate.{
  write_status, write_selected_queue, write_pfn, write_requested_features, read_requested_features,
  read_host_features,
}
use uhyve.Linux.Virtio.Transmit.{Sending, handle_notify_output}
use uhyve.Linux.Vcpu.Machine.{
  Machine, Outcome, Surroundings, VcpuExit, debug, debugs, error, exits, fails, handle_io_in, hangs,
  hlt, internal_error, interrupted, io_in, io_out, kick, other, panics, pci_write, resumes,
  shutdown, stops, with_card,
}

-- The outcome of `run`: a result, an error, a panic, or nothing yet.
pub data RunOutcome (W : Type 0) : Type 0 where
  returns : Option ℕ → Machine W → RunOutcome W
  run_fails : Machine W → RunOutcome W
  run_panics : RunOutcome W
  run_hangs : RunOutcome W

module _ {W : Type 0} (env : Surroundings W) where
  -- `host_address(*(addr as *const u32) as usize)`
  abbrev pub data_addr : Slice → ℕ
  data_addr addr = host_address env.vm_start (load 4 addr.bytes 0)

  abbrev pub with_memory : Machine W → Slice → Memory × W → Outcome W
  with_memory s src (m, w) = resumes (record s { memory = m; world = w }) src

  unfoldable pub uart : Machine W → Slice → Outcome W
  uart s addr = elim (env.print (load_bytes addr.len addr.bytes 0) s.world) [
    | none ↦ fails s
    | some w ↦ resumes (record s { world = w }) addr
  ]

  unfoldable pub netwrite : Machine W → Slice → Outcome W
  netwrite s addr = elim env.tx [
    | none ↦ resumes s addr
    | some send ↦ elim (send s.world) [
      | none ↦ panics
      | some w ↦ resumes (record s { world = w }) addr
    ]
  ]

  unfoldable pub write_call : Machine W → Slice → Outcome W
  write_call s addr =
      elim (Hypercalls.write env.libc env.vm_start env.fuel s.memory (data_addr addr) s.world) [
        | done w ↦ resumes (record s { world = w }) addr
        | failed w ↦ fails (record s { world = w })
        | running w ↦ hangs
      ]

  unfoldable pub cmdsize_call : Machine W → Slice → Outcome W
  cmdsize_call s addr = elim (cmdsize env.path env.arguments env.vars s.memory (data_addr addr)) [
    | none ↦ panics
    | some m ↦ resumes (record s { memory = m }) addr
  ]

  unfoldable pub notify : Machine W → Slice → Outcome W
  notify s addr = elim (handle_notify_output env.vm_start s.card s.memory addr) [
    | none ↦ panics
    | some sending ↦
        resumes
          (record s {
            card = sending.device;
            memory = sending.memory;
            sent = s.sent ++ sending.packets;
          })
          addr
  ]

  -- The hypercalls that only change memory and the host.
  unfoldable pub hypercall : Machine W → ℕ → Slice → Outcome W
  hypercall s port addr =
      let at = data_addr addr in
      if port == Port.open_file
      then with_memory s addr (Hypercalls.open_file env.libc env.vm_start s.memory at s.world)
      else if port == Port.read
      then with_memory s addr (Hypercalls.read env.libc env.vm_start s.memory at s.world)
      else if port == Port.unlink
      then with_memory s addr (Hypercalls.unlink env.libc env.vm_start s.memory at s.world)
      else if port == Port.lseek
      then with_memory s addr (Hypercalls.lseek env.libc env.vm_start s.memory at s.world)
      else if port == Port.close
      then with_memory s addr (Hypercalls.close env.libc env.vm_start s.memory at s.world)
      else panics

  unfoldable pub handle_io_out : Machine W → ℕ → Slice → Outcome W
  unfolding uart netwrite write_call cmdsize_call notify hypercall pci_write
  handle_io_out s port addr =
      if port == Port.uart
      then uart s addr
      else if port == Port.cmdsize
      then cmdsize_call s addr
      else if port == Port.cmdval
      then resumes
          (record s {
            memory = cmdval env.vm_start env.path env.arguments env.vars s.memory (data_addr addr);
          })
          addr
      else if port == Port.netwrite
      then netwrite s addr
      else if port == Port.exit
      then stops (exits (Hypercalls.exit s.memory (data_addr addr))) s
      else if port == Port.write
      then write_call s addr
      else if port == Port.pci_config_data
      then pci_write s addr
      else if port == Port.pci_config_address
      then resumes (record s { pci_addr = some (load 4 addr.bytes 0) }) addr
      else if port == Port.status
      then with_card s addr (write_status env.host s.card addr)
      else if port == Port.guest_features
      then resumes (record s { card = write_requested_features s.card addr }) addr
      else if port == Port.queue_notify
      then notify s addr
      else if port == Port.queue_sel
      then resumes (record s { card = write_selected_queue s.card addr }) addr
      else if port == Port.queue_pfn
      then resumes (record s { card = write_pfn env.vm_start s.card addr }) addr
      else hypercall s port addr

  unfoldable pub handle_exit : Machine W → VcpuExit → Outcome W
  unfolding handle_io_in handle_io_out
  handle_exit s hlt = resumes s (record { bytes = λ _. 0; len = 0 })
  handle_exit s shutdown = stops (exits 0) s
  handle_exit s (io_in port addr) = handle_io_in s port addr
  handle_exit s (io_out port addr) = handle_io_out s port addr
  handle_exit s debug = stops debugs s
  handle_exit s internal_error = panics
  handle_exit s other = panics
  handle_exit s interrupted = stops kick s
  handle_exit s error = fails s

  -- `loop { match self.vcpu.run() { ... } }`, over the exits that KVM reports.
  unfoldable pub continue : List VcpuExit → Machine W → Outcome W
  unfolding handle_exit
  continue [] s = hangs
  continue (e ∷ es) s = elim (handle_exit s e) [
    | resumes s' dest ↦ continue es s'
    | stops reason s' ↦ stops reason s'
    | fails s' ↦ fails s'
    | panics ↦ panics
    | hangs ↦ hangs
  ]

  -- An exit for debugging is unreachable in `run`: a panic.
  unfoldable pub run : List VcpuExit → Machine W → RunOutcome W
  unfolding continue
  run es s = elim (continue es s) [
    | stops (exits code) s' ↦ returns (some code) s'
    | stops kick s' ↦ returns none s'
    | stops debugs s' ↦ run_panics
    | resumes s' dest ↦ run_hangs
    | fails s' ↦ run_fails s'
    | panics ↦ run_panics
    | hangs ↦ run_hangs
  ]
