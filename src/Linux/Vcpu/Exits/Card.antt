-- ===== src/Linux/Vcpu/Exits/Card.antt =====
-- What the exits of `continue` leave of the card's invariant: no port but that of the PCI data, which
-- writes any of the card's registers, can break it.
use uhyve.Linux.Vcpu.Port.{
  config_off_msix_off, config_off_msix_off_max, guest_features, link_status_msix_off,
  pci_config_address, pci_config_data, queue_notify, queue_sel, isr, queue_pfn, status,
}
use uhyve.Linux.Virtio.Device.{handle_read}
use uhyve.Prelude.{
  List, [], ◌∷◌, ℕ, Bool, true, false, none, some, arith, inl, inr, ◌≡◌, ◌≢◌, ◌==◌, if◌then◌else◌,
  Option-cases, Option, bit_and, leb, ◌&&◌,
}
use uhyve.Memory.{Slice, index_slice, load_bytes}
use uhyve.Vm.Hypercalls
use uhyve.Vm.Hypercalls.{done, failed, running, close, exit, lseek, open_file, read, unlink, write}
use uhyve.Vm.Arguments.{cmdsize}
use uhyve.Linux.Virtio.Transmit.{handle_notify_output}
use uhyve.Linux.Virtio.Negotiate.{write_status}
use uhyve.Linux.Virtio.Device.{new}
use uhyve.Linux.Virtio.Valid.{
  new-IsValid, IsValid, change_status-IsValid, write_requested_features-IsValid,
  write_selected_queue-IsValid, write_pfn-IsValid, new-IsValid,
}
use uhyve.Linux.Virtio.Serving.{handle_notify_output-IsValid}
use uhyve.Linux.Vcpu.Port
use uhyve.Linux.Vcpu.Machine.{
  Machine, Outcome, VcpuExit, Surroundings, resumes, stops, fails, panics, hangs, io_out, io_in,
  hlt, shutdown, debug, internal_error, other, interrupted, error, handle_io_in, pci_read, answer,
}
use uhyve.Linux.Vcpu.Exits.{
  handle_exit, handle_io_out, continue, uart, cmdsize_call, netwrite, write_call, notify, hypercall,
  data_addr,
}

-- Wherever an exit leads with a machine, that machine's card has the invariant.
abbrev pub Keeps : {W : Type 0} → Outcome W → Type 0
Keeps (resumes t dest) = IsValid t.card
Keeps (stops reason t) = IsValid t.card
Keeps (fails t) = IsValid t.card
Keeps panics = Unit {0}
Keeps hangs = Unit {0}

-- No exit is a write to the data port of the PCI configuration.
abbrev pub SparesPciData : List VcpuExit → Type 0
SparesPciData [] = Unit {0}
SparesPciData (io_out port addr ∷ es) = (port ≢ Port.pci_config_data) × SparesPciData es
SparesPciData (e ∷ es) = SparesPciData es

if-Keeps :
    {W : Type 0} (c : Bool) (x y : Outcome W) → Keeps x → Keeps y → Keeps (if c then x else y)
if-Keeps true x y hx hy = hx
if-Keeps false x y hx hy = hy

module _ {W : Type 0} (env : Surroundings W) where
  uart-Keeps : (s : Machine W) (addr : Slice) → IsValid s.card → Keeps (uart env s addr)
  unfolding uart
  uart-Keeps s addr v = elim (Option-cases (env.print (load_bytes addr.len addr.bytes 0) s.world)) [
    | inl e ↦ rw (Keeps, e) v
    | inr (w, e) ↦ rw (Keeps, e) v
  ]

  netwrite-Keeps : (s : Machine W) (addr : Slice) → IsValid s.card → Keeps (netwrite env s addr)
  unfolding netwrite
  netwrite-Keeps s addr v = elim (Option-cases env.tx) [
    | inl e ↦ rw (Keeps, e) v
    | inr (send, e) ↦ elim (Option-cases (send s.world)) [
      | inl refused ↦ rw (Keeps, e, refused) tt
      | inr (w, sends) ↦ rw (Keeps, e, sends) v
    ]
  ]

  cmdsize_call-Keeps :
      (s : Machine W) (addr : Slice) → IsValid s.card → Keeps (cmdsize_call env s addr)
  unfolding cmdsize_call
  cmdsize_call-Keeps s addr v =
      elim (Option-cases (cmdsize env.path env.arguments env.vars s.memory (data_addr env addr))) [
        | inl e ↦ rw (Keeps, e) tt
        | inr (m, e) ↦ rw (Keeps, e) v
      ]

  write_call-Keeps : (s : Machine W) (addr : Slice) → IsValid s.card → Keeps (write_call env s addr)
  unfolding write_call
  write_call-Keeps s addr v =
      ground (
        arith,
        Hypercalls.write env.libc env.vm_start env.fuel s.memory (data_addr env addr) s.world,
      )

  notify-Keeps : (s : Machine W) (addr : Slice) → IsValid s.card → Keeps (notify env s addr)
  unfolding notify
  notify-Keeps s addr v =
      elim (Option-cases (handle_notify_output env.vm_start s.card s.memory addr)) [
        | inl e ↦ rw (Keeps, e) tt
        | inr (sending, e) ↦
            rw (Keeps, e) (handle_notify_output-IsValid env.vm_start s.memory addr v e)
      ]

  hypercall-Keeps :
      (s : Machine W) (port : ℕ) (addr : Slice) → IsValid s.card → Keeps (hypercall env s port addr)
  unfolding hypercall
  hypercall-Keeps s port addr v = if-Keeps (port == Port.open_file) _ _ v (
      if-Keeps (port == Port.read) _ _ v (
        if-Keeps (port == Port.unlink) _ _ v
          (if-Keeps (port == Port.lseek) _ _ v (if-Keeps (port == Port.close) _ _ v tt))))

  status-Keeps :
      (s : Machine W) (addr : Slice) → IsValid s.card → Keeps (handle_io_out env s Port.status addr)
  unfolding handle_io_out write_status
  status-Keeps s addr v = elim (Option-cases (index_slice addr 0)) [
    | inl e ↦ rw (Keeps, e) tt
    | inr (b, e) ↦ rw (Keeps, e) (change_status-IsValid env.host b v)
  ]

  handle_io_out-Keeps :
      (s : Machine W) (port : ℕ) (addr : Slice)
      → port ≢ Port.pci_config_data
      → IsValid s.card
      → Keeps (handle_io_out env s port addr)
  unfolding handle_io_out
  handle_io_out-Keeps s port addr spares v =
      let apart : (port == Port.pci_config_data) ≡ false = ground arith in
      if-Keeps (port == Port.uart) _ _ (uart-Keeps s addr v) (
        if-Keeps (port == Port.cmdsize) _ _ (cmdsize_call-Keeps s addr v) (
          if-Keeps (port == Port.cmdval) _ _ v (
            if-Keeps (port == Port.netwrite) _ _ (netwrite-Keeps s addr v) (
              if-Keeps (port == Port.exit) _ _ v (
                if-Keeps (port == Port.write) _ _ (write_call-Keeps s addr v) (
                  rw apart (
                    if-Keeps (port == Port.pci_config_address) _ _ v (
                      if-Keeps (port == Port.status) _ _ (status-Keeps s addr v) (
                        if-Keeps (port == Port.guest_features) _ _
                          (write_requested_features-IsValid addr v)
                          (if-Keeps (port == Port.queue_notify) _ _ (notify-Keeps s addr v) (
                            if-Keeps (port == Port.queue_sel) _ _
                              (write_selected_queue-IsValid addr v)
                              (if-Keeps (port == Port.queue_pfn) _ _
                                (write_pfn-IsValid env.vm_start addr v)
                                (hypercall-Keeps s port addr v)))))))))))))

  answer-Keeps : (s : Machine W) (r : Option Slice) → IsValid s.card → Keeps (answer s r)
  answer-Keeps s none v = tt
  answer-Keeps s (some dest) v = v

  pci_read-Keeps : (s : Machine W) (dest : Slice) → IsValid s.card → Keeps (pci_read s dest)
  unfolding pci_read
  pci_read-Keeps s dest v = elim (Option-cases s.pci_addr) [
    | inl e ↦ rw (Keeps, e) v
    | inr (pci_addr, e) ↦
        rw (Keeps, e)
          (if-Keeps (bit_and pci_addr 0x1f_f800 == 0) _ _
            (answer-Keeps s (handle_read s.card (bit_and pci_addr 0x3ff) dest) v) v)
  ]

  handle_io_in-Keeps :
      (s : Machine W) (port : ℕ) (addr : Slice) → IsValid s.card → Keeps (handle_io_in s port addr)
  unfolding handle_io_in
  handle_io_in-Keeps s port addr v =
      if-Keeps (port == Port.pci_config_data) _ _ (pci_read-Keeps s addr v) (
        if-Keeps (port == Port.pci_config_address) _ _ v (
          if-Keeps (port == Port.status) _ _ (answer-Keeps s _ v) (
            if-Keeps (port == Port.host_features) _ _ (answer-Keeps s _ v) (
              if-Keeps (port == Port.guest_features) _ _ (answer-Keeps s _ v) (
                if-Keeps
                  (leb Port.config_off_msix_off port && leb port Port.config_off_msix_off_max) _ _
                  (answer-Keeps s _ v)
                  (if-Keeps (port == Port.isr) _ _ v
                    (if-Keeps (port == Port.link_status_msix_off) _ _ (answer-Keeps s _ v) v)))))))

  handle_exit-Keeps :
      (s : Machine W) (e : VcpuExit) (es : List VcpuExit)
      → SparesPciData (e ∷ es)
      → IsValid s.card
      → Keeps (handle_exit env s e) × SparesPciData es
  unfolding handle_exit
  handle_exit-Keeps s hlt es spares v = (v, spares)
  handle_exit-Keeps s shutdown es spares v = (v, spares)
  handle_exit-Keeps s (io_in port addr) es spares v = (handle_io_in-Keeps s port addr v, spares)
  handle_exit-Keeps s (io_out port addr) es spares v =
      (handle_io_out-Keeps s port addr spares.0 v, spares.1)
  handle_exit-Keeps s debug es spares v = (v, spares)
  handle_exit-Keeps s internal_error es spares v = (tt, spares)
  handle_exit-Keeps s other es spares v = (tt, spares)
  handle_exit-Keeps s interrupted es spares v = (v, spares)
  handle_exit-Keeps s error es spares v = (v, spares)

  loop-Keeps :
      (es : List VcpuExit) (o : Outcome W)
      → Keeps o
      → ((t : Machine W) → IsValid t.card → Keeps (continue env es t))
      → Keeps (elim o [
        | resumes t dest ↦ continue env es t
        | stops reason t ↦ stops reason t
        | fails t ↦ fails t
        | panics ↦ panics
        | hangs ↦ hangs
      ])
  loop-Keeps es (resumes t dest) v rest = rest t v
  loop-Keeps es (stops reason t) v rest = v
  loop-Keeps es (fails t) v rest = v
  loop-Keeps es panics v rest = tt
  loop-Keeps es hangs v rest = tt

  continue-Keeps :
      (es : List VcpuExit) (s : Machine W)
      → SparesPciData es
      → IsValid s.card
      → Keeps (continue env es s)
  unfolding continue
  continue-Keeps [] s spares v = tt
  continue-Keeps (e ∷ es) s spares v =
      let (now, later) = handle_exit-Keeps s e es spares v in
      loop-Keeps es (handle_exit env s e) now (λ t w. continue-Keeps es t later w)

  -- From a machine with a new card, whatever the guest reads from any port or writes to any port but
  -- that of the PCI data, notifications and hypercalls included, memory being changed by the
  -- hypervisor only: when `continue` stops, by an interruption between any two exits among others, or
  -- returns an error, the card has its invariant.
  pub card_exits-IsValid :
      (es : List VcpuExit) (s : Machine W)
      → s.card ≡ new
      → SparesPciData es
      → Keeps (continue env es s)
  card_exits-IsValid es s starts spares = continue-Keeps es s spares (rw starts new-IsValid)
