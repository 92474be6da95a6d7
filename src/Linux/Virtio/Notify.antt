-- ===== src/Linux/Virtio/Notify.antt =====
-- What a notification of the transmit queue does.
use uhyve.Prelude.{
  get_or, ◌+◌, ℕ, zero, suc, ◌+◌, ◌-◌, ◌*◌, ◌%◌, ◌^◌, ◌≤◌, ◌<◌, ◌≡◌, refl, none, some, List, [],
  ◌∷◌, ◌++◌, length, set, get_elem?-past, add16, ◌∙◌, ap,
}
use uhyve.Memory.{Memory, load, load_bytes, Slice}
use uhyve.Linux.Vcpu.Translate.{host_address}
use uhyve.Linux.Virtqueue.{Virtqueue, index, get_descriptor, add_used, queue_limit}
use uhyve.Linux.Virtqueue.Avail.{slots}
use uhyve.Linux.Virtio.Device.{
  VirtioNetPciDevice, read_status_reg, tx_queue, read_u16, net_header_size,
}
use uhyve.Linux.Virtio.Transmit.{Sending, send_available_packets, handle_notify_output}

abbrev AllBelow : ℕ → List ℕ → Type 0
AllBelow n [] = Unit {0}
AllBelow n (i ∷ is) = (i < n) × AllBelow n is

length-slots : (n last size : ℕ) → length (slots n last size) ≡ n
unfolding slots
length-slots zero last size = refl
length-slots (suc n) last size = ap suc (length-slots n (add16 last 1) size)

-- A queue as `Virtqueue::new` lays it out, every descriptor of which leaves room for the header.
pub record IsServable (m : Memory) (q : Virtqueue) : Type 0 where
  pub size : q.queue_size ≡ queue_limit
  pub layout : q.used_ring ≡ q.descriptor_table + 0x2000
  pub lens : (i : ℕ) → i < queue_limit → net_header_size ≤ (get_descriptor m q i).len

module _ (vm_start : ℕ) (q : Virtqueue) where
  -- The element of the used ring, `j` behind the index.
  abbrev pub element : Memory → (j : ℕ) → ℕ
  element m j = q.used_ring + 4 + 8 * ((index m q.used_ring + j) % queue_limit)

  -- The bytes behind the header's length, from the address that the descriptor leads to.
  abbrev pub packet : Memory → ℕ → List ℕ
  packet m i =
      let desc = get_descriptor m q i in
      load_bytes (desc.len - net_header_size) m (host_address vm_start (load 8 m desc.addr))

  -- Memory, and the packets, when the descriptors are given back one after the other.
  abbrev pub given_back : List ℕ → Memory → Memory
  given_back [] m = m
  given_back (i ∷ is) m = given_back is (add_used m q i 1)

  abbrev pub packets_of : List ℕ → Memory → List (List ℕ)
  packets_of [] m = []
  packets_of (i ∷ is) m = packet m i ∷ packets_of is (add_used m q i 1)

  -- The outcome of sending by the descriptors `is` from the state `s`.
  pub record IsSent (is : List ℕ) (s s' : Sending) : Type 0 where
    pub device : s'.device ≡ s.device
    pub memory : s'.memory ≡ given_back is s.memory
    pub packets : s'.packets ≡ s.packets ++ packets_of is s.memory
    pub used : index s'.memory q.used_ring ≡ (index s.memory q.used_ring + length is) % 2 ^ 16
    -- Element `j` behind the old index holds descriptor `j`, if no later one has overwritten it.
    pub elements :
        (j : ℕ)
        → j < length is
        → length is ≤ j + queue_limit
        → load 4 s'.memory (element s.memory j) ≡ get_or is j 0

  abbrev sent : ℕ → Sending → Sending
  sent i s = record {
    device = s.device;
    memory = add_used s.memory q i 1;
    packets = s.packets ++ packet s.memory i ∷ [];
  }

handle_notify_output-ready :
    (vm_start : ℕ) (d : VirtioNetPciDevice) (m : Memory) (dest : Slice)
    → read_u16 dest 0 ≡ some 1
    → read_status_reg d ≡ 15
    → handle_notify_output vm_start d m dest ≡ send_available_packets vm_start d m
unfolding handle_notify_output
handle_notify_output-ready vm_start d m dest one ready = rw (one, ready)

-- The queue and the state when the entries have been collected.
abbrev pub caught_up : Memory → Virtqueue → Virtqueue
caught_up m q = record q { last_seen_available = index m q.available_ring }

abbrev pub collected : VirtioNetPciDevice → Memory → Virtqueue → Sending
collected d m q = record {
  device = record d { virt_queues = set d.virt_queues tx_queue (caught_up m q) };
  memory = m;
  packets = [];
}

-- A notification of a ready card that has no transmit queue is a panic.
handle_notify_output-panics :
    (vm_start : ℕ) (d : VirtioNetPciDevice) (m : Memory) (dest : Slice)
    → read_u16 dest 0 ≡ some 1
    → read_status_reg d ≡ 15
    → length d.virt_queues ≤ 1
    → handle_notify_output vm_start d m dest ≡ none
unfolding send_available_packets
handle_notify_output-panics vm_start d m dest one ready short =
    handle_notify_output-ready vm_start d m dest one ready
    ∙ rw (get_elem?-past d.virt_queues 1 short)
