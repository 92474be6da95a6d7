-- ===== src/Linux/Virtio/Serving.antt =====
-- A notification keeps the invariant of the card.
use uhyve.Prelude.{
  ℕ, ◌<◌, ◌≡◌, ◌^◌, refl, arith, ◌⊎◌, inl, inr, none, some, List, [], ◌∷◌, bit_or, bit_and,
}
use uhyve.Prelude.Bits.{bit_and_bit}
use uhyve.Memory.{Slice}
use uhyve.Linux.Virtqueue
use uhyve.Linux.Virtqueue.{Virtqueue, queue_limit}
use uhyve.Linux.Virtio.Device.{VirtioNetPciDevice, read_status_reg}
use uhyve.Linux.Virtio.Handshake.{Has64-write_status_reg, status-write_status_reg}
use uhyve.Linux.Virtio.Valid.{IsValid, AllSized, IsPhase}
use uhyve.Linux.Virtio.Transmit.{
  Sending, send_packet, send_packets, send_available_packets, handle_notify_output,
}
use uhyve.Linux.Virtio.Device.{need_reset, tx_queue, read_u16}
use uhyve.Linux.Virtqueue.{get_descriptor, available, index}
use uhyve.Linux.Virtqueue.Avail.{available-slots, index-lt, pending, slots}
use uhyve.Prelude.{
  subst, Bool-cases, ◌==◌, ◌&&◌, sym, ap, ◌∙◌, Option-cases, set, get_elem?, zero, suc,
}
use uhyve.Memory.{Memory}

-- A card that serves notifications, with an interface or after one was lost.
pub record IsServing (d : VirtioNetPciDevice) : Type 0 where
  pub valid : IsValid d
  pub status : (read_status_reg d ≡ 15) ⊎ (read_status_reg d ≡ 0x4f)

-- A lost interface is possible only where the card needs a reset already.
need_reset-IsServing :
    {d : VirtioNetPciDevice} → IsServing d → d.iface ≡ none → IsServing (need_reset d)
need_reset-IsServing {d} v lost =
    let size = v.valid.size in
    let kept = status-write_status_reg d (bit_or (read_status_reg d) 0x40) size in
    let sized = Has64-write_status_reg d (bit_or (read_status_reg d) 0x40) size in
    let old : read_status_reg d ≡ 0x4f = elim v.status [
      | inl e ↦ absurd (v.valid.has_iface e lost)
      | inr e ↦ e
    ] in
    let now : read_status_reg (need_reset d) ≡ 0x4f = kept ∙ ap (λ (k : ℕ). bit_or k 0x40) old in
    record {
      valid = ground (arith, v.valid.no_queues, v.valid.features, v.valid.sized, now, sized);
      status = inr now;
    }

send_packet-IsServing :
    (vm_start : ℕ) (q : Virtqueue) (i : ℕ) (s : Sending) {s' : Sending}
    → send_packet vm_start q i s ≡ some s'
    → IsServing s.device
    → IsServing s'.device
unfolding send_packet
send_packet-IsServing vm_start q i s {s'} sends v = elim (Option-cases s.device.iface) [
  | inl lost ↦
      let next = record s {
        device = need_reset s.device;
        memory = Virtqueue.add_used s.memory q i 1;
      } in
      let runs : send_packet vm_start q i s ≡ some next = rw lost refl in
      let same : next ≡ s' = cc (runs, sends) in
      subst (λ (r : Sending). IsServing r.device) same (need_reset-IsServing v lost)
  | inr (tap, has) ↦
      let same : s.device ≡ s'.device = ground (arith, has, sends) in subst IsServing same v
]

send_packets-IsServing :
    (vm_start : ℕ) (q : Virtqueue) (is : List ℕ) (s : Sending) {s' : Sending}
    → send_packets vm_start q is s ≡ some s'
    → IsServing s.device
    → IsServing s'.device
unfolding send_packets
send_packets-IsServing vm_start q [] s {s' = s'} sends v =
    let same : s ≡ s' = cc sends in subst (λ (r : Sending). IsServing r.device) same v
send_packets-IsServing vm_start q (i ∷ is) s sends v =
    elim (Option-cases (send_packet vm_start q i s)) [
      | inl panics ↦ cc (rw panics at sends)
      | inr (t, first) ↦
          send_packets-IsServing vm_start q is t (rw first at sends)
            (send_packet-IsServing vm_start q i s first v)
    ]

AllSized-get :
    (qs : List Virtqueue) (i : ℕ) {q : Virtqueue}
    → AllSized qs
    → get_elem? qs i ≡ some q
    → (q.queue_size ≡ queue_limit) × (q.last_seen_available < 2 ^ 16)
AllSized-get [] i h e = cc e
AllSized-get (p ∷ qs) zero {q = q} h e =
    let same : p ≡ q = cc e in
    subst (λ (r : Virtqueue). (r.queue_size ≡ queue_limit) × (r.last_seen_available < 2 ^ 16)) same
      h.0
AllSized-get (p ∷ qs) (suc i) h e = AllSized-get qs i h.1 e

AllSized-set :
    (qs : List Virtqueue) (i : ℕ) (q : Virtqueue)
    → AllSized qs
    → q.queue_size ≡ queue_limit
    → q.last_seen_available < 2 ^ 16
    → AllSized (set qs i q)
AllSized-set [] i q h size last = tt
AllSized-set (p ∷ qs) zero q h size last = ((size, last), h.1)
AllSized-set (p ∷ qs) (suc i) q h size last = (h.0, AllSized-set qs i q h.1 size last)

is_ready : (s : ℕ) → IsPhase s → bit_and s 4 ≡ 4 → (s ≡ 15) ⊎ (s ≡ 0x4f)
is_ready s phase bit = ground (arith, bit_and_bit 2 s)

-- The card whose queue has been read up to the driver's index.
IsServing-set :
    {d : VirtioNetPciDevice} (m : Memory) {q : Virtqueue}
    → IsServing d
    → get_elem? d.virt_queues tx_queue ≡ some q
    → IsServing (record d {
      virt_queues =
          set d.virt_queues tx_queue (record q { last_seen_available = index m q.available_ring });
    })
IsServing-set {d} m {q} v e =
    let last = index-lt m q.available_ring in
    let size = (AllSized-get d.virt_queues tx_queue v.valid.sized e).0 in
    let all =
      AllSized-set d.virt_queues tx_queue
        (record q { last_seen_available = index m q.available_ring }) v.valid.sized size last in
    record {
      valid = record {
        size = v.valid.size;
        phase = v.valid.phase;
        has_iface = v.valid.has_iface;
        no_iface = v.valid.no_iface;
        no_queues = λ a b c. absurd (elim v.status [ inl e ↦ b e | inr e ↦ c e ]);
        features = v.valid.features;
        sized = all;
      };
      status = v.status;
    }

send_available_packets-IsServing :
    (vm_start : ℕ) {d : VirtioNetPciDevice} (m : Memory) {s : Sending}
    → IsServing d
    → send_available_packets vm_start d m ≡ some s
    → IsServing s.device
unfolding send_available_packets
send_available_packets-IsServing vm_start {d} m {s} v sends =
    elim (Option-cases (get_elem? d.virt_queues tx_queue)) [
      | inl missing ↦ cc (rw missing at sends)
      | inr (q, has) ↦
          let last = AllSized-get d.virt_queues tx_queue v.valid.sized has in
          let read = record q { last_seen_available = index m q.available_ring } in
          let is = slots (pending m q) q.last_seen_available q.queue_size in
          let start : Sending = record {
            device = record d { virt_queues = set d.virt_queues tx_queue read };
            memory = m;
            packets = [];
          } in
          let runs : send_available_packets vm_start d m ≡ send_packets vm_start read is start =
            rw (has, available-slots m q last.1) refl in
          send_packets-IsServing vm_start read is start (sym runs ∙ sends) (IsServing-set m v has)
    ]

pub handle_notify_output-IsValid :
    (vm_start : ℕ) {d : VirtioNetPciDevice} (m : Memory) (dest : Slice) {s : Sending}
    → IsValid d
    → handle_notify_output vm_start d m dest ≡ some s
    → IsValid s.device
unfolding handle_notify_output send_available_packets
handle_notify_output-IsValid vm_start {d} m dest {s} v serves =
    elim (Option-cases (read_u16 dest 0)) [
      | inl short ↦ cc (rw short at serves)
      | inr (n, reads) ↦ elim (Bool-cases ((n == 1) && (bit_and (read_status_reg d) 4 == 4))) [
        | inl sent ↦
            let bit : bit_and (read_status_reg d) 4 ≡ 4 = ground (arith, sent) in
            let status = is_ready (read_status_reg d) v.phase bit in
            let runs : send_available_packets vm_start d m ≡ some s = rw (reads, sent) at serves in
            let serving : IsServing d = record { valid = v; status = status } in
            (send_available_packets-IsServing vm_start m serving runs).valid
        | inr ignored ↦
            let same : d ≡ s.device = ground (arith, reads, ignored, serves) in subst IsValid same v
      ]
    ]
