-- ===== src/Linux/Vcpu/Exits/Stop.antt =====
-- How the loop of `continue` ends.
use uhyve.Linux.Vcpu.Translate.{host_address}
use uhyve.Linux.Vcpu.Port.{
  guest_features, pci_config_address, pci_config_data, queue_notify, queue_sel, close, cmdsize,
  cmdval, exit, lseek, open_file, queue_pfn, read, status, unlink, write,
}
use uhyve.Prelude.{
  List, [], arith, refl, some, ℕ, ◌++◌, ◌∷◌, ◌≡◌, ◌≢◌, Option, ◌>>=◌, Option-cases, inl, inr, subst,
  ◌∙◌,
}
use uhyve.Memory.{Slice, load, load_bytes}
use uhyve.Vm.Hypercalls
use uhyve.Linux.Vcpu.Port
use uhyve.Linux.Vcpu.Machine.{Machine, VcpuExit, Surroundings, resumes, io_out, panics}
use uhyve.Linux.Vcpu.Exits.{uart, handle_exit, handle_io_out, continue, run, returns, hypercall}

module _ {W : Type 0} (env : Surroundings W) where
  -- The exits take the first state to the second, and the processor is entered again after each.
  pub data Resumes : Machine W → List VcpuExit → Machine W → Type 0 where
    none_left : {s : Machine W} → Resumes s [] s
    after :
        {s t u : Machine W} {e : VcpuExit} {es : List VcpuExit} (dest : Slice)
        → handle_exit env s e ≡ resumes t dest
        → Resumes t es u
        → Resumes s (e ∷ es) u

  pub continue-Resumes :
      {s t : Machine W} {es : List VcpuExit} (rest : List VcpuExit)
      → Resumes s es t
      → continue env (es ++ rest) s ≡ continue env rest t
  unfolding continue
  continue-Resumes rest none_left = refl
  continue-Resumes rest (after dest handled more) =
      rw (continue, handled) (continue-Resumes rest more)

-- The exits of a guest that writes the texts to the console, one after the other.
abbrev pub console : List Slice → List VcpuExit
console [] = []
console (text ∷ texts) = io_out Port.uart text ∷ console texts

-- The host prints the texts in this order.
abbrev pub prints : {W : Type 0} → (List ℕ → W → Option W) → List Slice → W → Option W
prints print [] w = some w
prints print (text ∷ texts) w = print (load_bytes text.len text.bytes 0) w >>= prints print texts

module _ {W : Type 0} (env : Surroundings W) where
  uart_printed :
      (text : Slice) (s : Machine W) {v : W}
      → env.print (load_bytes text.len text.bytes 0) s.world ≡ some v
      → uart env s text ≡ resumes (record s { world = v }) text
  unfolding uart
  uart_printed text s out = rw (uart, out) refl

  to_uart :
      (text : Slice) (s : Machine W) → handle_exit env s (io_out Port.uart text) ≡ uart env s text
  unfolding handle_exit handle_io_out
  to_uart text s = refl

  console-Resumes :
      (texts : List Slice) (s : Machine W) {w : W}
      → prints env.print texts s.world ≡ some w
      → Resumes env s (console texts) (record s { world = w })
  console-Resumes [] s {w = w} printed =
      let same : s.world ≡ w = cc printed in
      subst (λ (v : W). Resumes env s [] (record s { world = v })) same none_left
  console-Resumes (text ∷ texts) s printed =
      elim (Option-cases (env.print (load_bytes text.len text.bytes 0) s.world)) [
        | inl full ↦ cc (rw full at printed)
        | inr (v, out) ↦
            after text (to_uart text s ∙ uart_printed text s out)
              (console-Resumes texts (record s { world = v }) (rw out at printed))
      ]

  -- A guest that writes texts to the console and then calls `exit`: standard output gets the bytes of
  -- each text in order, and, if it takes them, `run` returns the 32 bits at the address that the guest
  -- passed, with memory and card as before, whatever exits would follow.
  pub run-console :
      (texts : List Slice) (addr : Slice) (rest : List VcpuExit) (s : Machine W) {w : W}
      → prints env.print texts s.world ≡ some w
      → run env (console texts ++ io_out Port.exit addr ∷ rest) s
        ≡ returns
            (some (load 4 s.memory (host_address env.vm_start (load 4 addr.bytes 0))))
            (record s { world = w })
  unfolding run continue handle_exit handle_io_out Hypercalls.exit
  run-console texts addr rest s {w} printed =
      rw
        (run, continue-Resumes env (io_out Port.exit addr ∷ rest) (console-Resumes texts s printed))
        refl

abbrev pub NoneOf : ℕ → List ℕ → Type 0
NoneOf p [] = Unit {0}
NoneOf p (q ∷ qs) = (p ≢ q) × NoneOf p qs

-- The ports that the guest can write to.
abbrev pub output_ports : List ℕ
output_ports =
    Port.uart ∷ Port.cmdsize ∷ Port.cmdval ∷ Port.netwrite ∷ Port.exit ∷ Port.open_file ∷ Port.write
    ∷ Port.read ∷ Port.unlink ∷ Port.lseek ∷ Port.close ∷ Port.pci_config_data
    ∷ Port.pci_config_address ∷ Port.status ∷ Port.guest_features ∷ Port.queue_notify
    ∷ Port.queue_sel ∷ Port.queue_pfn ∷ []

-- A write to any other port is a panic of the hypervisor.
handle_io_out-panics :
    {W : Type 0} (env : Surroundings W) (s : Machine W) (port : ℕ) (addr : Slice)
    → NoneOf port output_ports
    → handle_io_out env s port addr ≡ panics
unfolding handle_io_out hypercall
handle_io_out-panics env s port addr others = ground arith
