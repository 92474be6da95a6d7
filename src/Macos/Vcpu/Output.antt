-- ===== src/Macos/Vcpu/Output.antt =====
-- The ports that the guest writes to, in `continue` of src/macos/vcpu.rs.
use uhyve.Macos.Vcpu.Machine.{Packages, CpuState, CpuOutcome, proceeds, stops_with, aborts, waits}
use uhyve.Macos.Vcpu.Machine.{CpuOutcome, CpuState, Packages, stops_with}
use uhyve.Linux.Vcpu.Translate.{host_address}
use uhyve.Memory.{Memory}
use uhyve.Prelude.{[], bit_and, if◌then◌else◌, none, some, ℕ, ◌==◌, ◌∷◌}
use uhyve.Vm.Hypercalls
use uhyve.Linux.Vcpu.Port
use uhyve.Vm.Hypercalls.{
  Libc, done, failed, running, close, exit, lseek, open_file, read, unlink, write,
}
use uhyve.Vm.Arguments.{cmdsize, cmdval}
use uhyve.Macos.Vcpu.{rax, read_register, Vcpu, read_low}
use uhyve.Macos.Vcpu.Msr.{skip}
use uhyve.Linux.Vcpu.Machine.{exits}

abbrev pub shutdown_port : ℕ
shutdown_port = 0xf4

module _ {V W : Type 0} (x : Vcpu V) (env : Packages W) where
  -- `write_register(RIP, rip + len)` at the end of an output
  abbrev pub passes : (at len : ℕ) → CpuState V W → CpuOutcome V W
  passes at len s = proceeds (record s { cpu = skip x at len s.cpu })

  abbrev pub passes_with : (at len : ℕ) → CpuState V W → Memory × W → CpuOutcome V W
  passes_with at len s (m, w) = passes at len (record s { memory = m; world = w })

  -- `host_address` of the low half of RAX
  abbrev pub data_addr : CpuState V W → ℕ
  data_addr s = host_address s.cpu.vm_start (read_low x rax s.cpu)

  unfoldable pub put_uart : (at len : ℕ) → CpuState V W → CpuOutcome V W
  put_uart at len s = elim (env.print (bit_and (read_register x rax s.cpu) 0xff ∷ []) s.world) [
    | none ↦ aborts
    | some w ↦ passes at len (record s { world = w })
  ]

  unfoldable pub put_cmdsize : (at len : ℕ) → CpuState V W → CpuOutcome V W
  put_cmdsize at len s = elim (cmdsize env.path env.arguments env.vars s.memory (data_addr s)) [
    | none ↦ aborts
    | some m ↦ passes at len (record s { memory = m })
  ]

  -- `self.write(...).unwrap()`: an error is a panic.
  unfoldable pub write_out : (at len : ℕ) → CpuState V W → CpuOutcome V W
  write_out at len s =
      elim (Hypercalls.write env.libc s.cpu.vm_start env.fuel s.memory (data_addr s) s.world) [
        | done w ↦ passes at len (record s { world = w })
        | failed w ↦ aborts
        | running w ↦ waits
      ]

  -- The calls on files; any other port is passed over.
  unfoldable pub file_call : (port at len : ℕ) → CpuState V W → CpuOutcome V W
  file_call port at len s =
      let vm = s.cpu.vm_start in
      let args = data_addr s in
      if port == Port.open_file
      then passes_with at len s (Hypercalls.open_file env.libc vm s.memory args s.world)
      else if port == Port.read
      then passes_with at len s (Hypercalls.read env.libc vm s.memory args s.world)
      else if port == Port.unlink
      then passes_with at len s (Hypercalls.unlink env.libc vm s.memory args s.world)
      else if port == Port.lseek
      then passes_with at len s (Hypercalls.lseek env.libc vm s.memory args s.world)
      else if port == Port.close
      then passes_with at len s (Hypercalls.close env.libc vm s.memory args s.world)
      else passes at len s

  unfoldable pub output : (port at len : ℕ) → CpuState V W → CpuOutcome V W
  unfolding put_uart put_cmdsize write_out file_call
  output port at len s =
      if port == shutdown_port
      then stops_with (exits 0) s
      else if port == Port.uart
      then put_uart at len s
      else if port == Port.cmdsize
      then put_cmdsize at len s
      else if port == Port.cmdval
      then passes at len (record s {
        memory = cmdval s.cpu.vm_start env.path env.arguments env.vars s.memory (data_addr s);
      })
      else if port == Port.exit
      then stops_with (exits (Hypercalls.exit s.memory (data_addr s))) s
      else if port == Port.write
      then write_out at len s
      else file_call port at len s
