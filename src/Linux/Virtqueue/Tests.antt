-- ===== src/Linux/Virtqueue/Tests.antt =====
-- The queue of linux/virtqueue.rs on concrete rings.
use uhyve.Memory.{load, store}
use uhyve.Linux.Virtqueue.Used.{IsAdded, add_used-IsAdded}
use uhyve.Linux.Virtqueue.Avail.{available-slots, pending, slots}
use uhyve.Memory.{Memory, write_byte}
use uhyve.Prelude.{[], arith, refl, ◌∷◌, ◌≡◌}
use uhyve.Linux.Virtqueue.{Virtqueue, available, add_used, drain, index, next}

-- Entries 254 and 255 of the ring and then entry 0 are handed out when the index wraps.
abbrev wrapping : Virtqueue
wrapping = record {
  descriptor_table = 0;
  available_ring = 0x1000;
  used_ring = 0x2000;
  last_seen_available = 0xfffe;
  last_seen_used = 0;
  queue_size = 256;
}

abbrev advanced_by_driver : Memory
advanced_by_driver = store 2 (λ _. 0) 0x1002 1

available_wraps : (available advanced_by_driver wrapping).0 ≡ 254 ∷ 255 ∷ 0 ∷ []
unfolding available drain next index load store write_byte
available_wraps = refl

available-slots_example : available advanced_by_driver wrapping ≡ (
  slots (pending advanced_by_driver wrapping) 0xfffe wrapping.queue_size,
  record wrapping { last_seen_available = index advanced_by_driver wrapping.available_ring },
)
available-slots_example = available-slots advanced_by_driver wrapping (omega arith)

add_used-IsAdded_example : IsAdded (λ _. 0) wrapping 7 64 (add_used (λ _. 0) wrapping 7 64)
add_used-IsAdded_example = add_used-IsAdded (λ _. 0) wrapping 7 64 refl (omega arith) (omega arith)
