-- ===== src/Macos/Vcpu/Exits/Behind.antt =====
-- The instructions that the hypervisor does for the guest, and the outputs, leave it behind them.
use uhyve.Linux.Vcpu.Machine.{VcpuStopReason}
use uhyve.Macos.Vcpu.Mmio.{emulate_ioapic}
use uhyve.Memory.{Memory}
use uhyve.Macos.Vcpu.Fields.{ro_vmexit_instr_len}
use uhyve.Prelude.{
  Bool, Option, add64, false, if◌then◌else◌, none, some, true, ◌>>=◌, ◌≡◌, Option-cases, [],
  bit_and, inl, inr, ℕ, ◌∷◌, refl, ◌⊎◌,
}
use uhyve.Macos.Vcpu.Output.{output, put_uart, put_cmdsize, write_out, data_addr}
use uhyve.Macos.Vcpu.{rip, rax, read_register, read_vmcs, UhyveCpu, Vcpu, IsStore}
use uhyve.Macos.Vcpu.Cpuid.{emulate_cpuid}
use uhyve.Macos.Vcpu.Msr.{skip, emulate_rdmsr, emulate_wrmsr, emulate_xsetbv}
use uhyve.Macos.Vcpu.Machine.{
  Packages, CpuState, CpuOutcome, proceeds, stops_with, errs, aborts, waits,
}
use uhyve.Vm.Hypercalls
use uhyve.Vm.Arguments.{cmdsize}
use uhyve.Macos.Vcpu.Output.{data_addr}
use uhyve.Vm.Hypercalls.{Written, done, failed, running, write}

-- What holds of a value, if there is one.
pub data IfSome {A : Type 0} (P : A → Type 0) : Option A → Type 0 where
  no_value : IfSome P none
  value : {a : A} → P a → IfSome P (some a)

pub IfSome-if :
    {A : Type 0} (P : A → Type 0) (b : Bool) (o o' : Option A)
    → IfSome P o
    → IfSome P o'
    → IfSome P (if b then o else o')
IfSome-if P true o o' h h' = h
IfSome-if P false o o' h h' = h'

pub IfSome-bind :
    {A B : Type 0} (P : B → Type 0) (o : Option A) (f : A → Option B)
    → ((a : A) → IfSome P (f a))
    → IfSome P (o >>= f)
IfSome-bind P none f h = no_value
IfSome-bind P (some a) f h = h a

-- What holds of the state with which the hypervisor enters the guest again, if it does.
pub data Goes {V W : Type 0} (P : CpuState V W → Type 0) : CpuOutcome V W → Type 0 where
  onward : {s : CpuState V W} → P s → Goes P (proceeds s)
  stopped : {reason : VcpuStopReason} {s : CpuState V W} → Goes P (stops_with reason s)
  failing : {s : CpuState V W} → Goes P (errs s)
  aborting : Goes P aborts
  waiting : Goes P waits

pub Goes-if :
    {V W : Type 0} (P : CpuState V W → Type 0) (b : Bool) (o o' : CpuOutcome V W)
    → Goes P o
    → Goes P o'
    → Goes P (if b then o else o')
Goes-if P true o o' h h' = h
Goes-if P false o o' h h' = h'

module _ {V W : Type 0} (x : Vcpu V) (env : Packages W) (store : IsStore x) where
  -- The guest goes on behind the instruction, of the length that the exit reports.
  abbrev pub IsBehind : (c c' : UhyveCpu V) → Type 0
  IsBehind c c' =
      read_register x rip c' ≡ add64 (read_register x rip c) (read_vmcs x ro_vmexit_instr_len c)

  pub skip-IsBehind :
      (c d : UhyveCpu V)
      → IsBehind c (skip x (read_register x rip c) (read_vmcs x ro_vmexit_instr_len c) d)
  skip-IsBehind c d = store.read_write rip rip _ d.vcpu

  pub emulate_rdmsr-IsBehind :
      (c : UhyveCpu V) → IfSome (IsBehind c) (emulate_rdmsr x (read_register x rip c) c)
  unfolding emulate_rdmsr
  emulate_rdmsr-IsBehind c = search (IfSome-if, value, no_value, skip-IsBehind)

  pub emulate_wrmsr-IsBehind :
      (c : UhyveCpu V) → IfSome (IsBehind c) (emulate_wrmsr x (read_register x rip c) c)
  unfolding emulate_wrmsr
  emulate_wrmsr-IsBehind c = search (IfSome-if, value, no_value, skip-IsBehind)

  pub emulate_xsetbv-IsBehind :
      (c : UhyveCpu V) → IsBehind c (emulate_xsetbv x (read_register x rip c) c)
  unfolding emulate_xsetbv
  emulate_xsetbv-IsBehind c = store.read_write rip rip _ _

  pub emulate_cpuid-IsBehind :
      (c : UhyveCpu V) → IsBehind c (emulate_cpuid x env.cpuid (read_register x rip c) c)
  unfolding emulate_cpuid
  emulate_cpuid-IsBehind c = store.read_write rip rip _ _

  pub emulate_ioapic-IsBehind :
      (m : Memory) (address : ℕ) (c : UhyveCpu V)
      → IfSome (IsBehind c) (emulate_ioapic x env.disassemble m (read_register x rip c) address c)
  unfolding emulate_ioapic
  emulate_ioapic-IsBehind m address c =
      IfSome-bind (IsBehind c) _ _ (λ d. value (skip-IsBehind c d))

  pub put_uart-IsBehind :
      (s : CpuState V W)
      → Goes
          (λ s'. IsBehind s.cpu s'.cpu)
          (put_uart x env (read_register x rip s.cpu) (read_vmcs x ro_vmexit_instr_len s.cpu) s)
  unfolding put_uart
  put_uart-IsBehind s =
      elim (Option-cases (env.print (bit_and (read_register x rax s.cpu) 0xff ∷ []) s.world)) [
        | inl no_result ↦ rw (put_uart, no_result) aborting
        | inr (w, prints) ↦ rw (put_uart, prints) (onward (skip-IsBehind s.cpu s.cpu))
      ]

  pub put_cmdsize-IsBehind :
      (s : CpuState V W)
      → Goes
          (λ s'. IsBehind s.cpu s'.cpu)
          (put_cmdsize x env (read_register x rip s.cpu) (read_vmcs x ro_vmexit_instr_len s.cpu) s)
  unfolding put_cmdsize
  put_cmdsize-IsBehind s =
      let at = data_addr x env s in
      elim (Option-cases (cmdsize env.path env.arguments env.vars s.memory at)) [
        | inl no_result ↦ rw (put_cmdsize, no_result) aborting
        | inr (m, puts) ↦ rw (put_cmdsize, puts) (onward (skip-IsBehind s.cpu s.cpu))
      ]

  written_cases :
      (w : Written W)
      → ((v : W) × (w ≡ done v)) ⊎ (((v : W) × (w ≡ failed v)) ⊎ ((v : W) × (w ≡ running v)))
  written_cases (done v) = inl (v, refl)
  written_cases (failed v) = inr (inl (v, refl))
  written_cases (running v) = inr (inr (v, refl))

  pub write_out-IsBehind :
      (s : CpuState V W)
      → Goes
          (λ s'. IsBehind s.cpu s'.cpu)
          (write_out x env (read_register x rip s.cpu) (read_vmcs x ro_vmexit_instr_len s.cpu) s)
  unfolding write_out
  write_out-IsBehind s =
      let at = data_addr x env s in
      elim (written_cases (Hypercalls.write env.libc s.cpu.vm_start env.fuel s.memory at s.world)) [
        | inl (v, e) ↦ rw (write_out, e) (onward (skip-IsBehind s.cpu s.cpu))
        | inr (inl (v, e)) ↦ rw (write_out, e) aborting
        | inr (inr (v, e)) ↦ rw (write_out, e) waiting
      ]

  -- An output goes on behind its instruction.
  pub output-IsBehind :
      (port : ℕ) (s : CpuState V W)
      → Goes
          (λ s'. IsBehind s.cpu s'.cpu)
          (output x env port (read_register x rip s.cpu) (read_vmcs x ro_vmexit_instr_len s.cpu) s)
  unfolding output
  output-IsBehind port s =
      search
        (
          Goes-if, stopped, onward, skip-IsBehind, put_uart-IsBehind, put_cmdsize-IsBehind,
          write_out-IsBehind,
        )
        depth 14
