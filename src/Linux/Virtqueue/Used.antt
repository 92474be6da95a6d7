-- ===== src/Linux/Virtqueue/Used.antt =====
-- What `add_used` leaves in the used ring.
use uhyve.Prelude.{ℕ, ◌+◌, ◌*◌, ◌%◌, ◌^◌, ◌<◌, ◌≡◌, refl, arith, inl, inr, ◌∙◌}
use uhyve.Memory.{Memory, load, store}
use uhyve.Memory.Laws.{Apart, load-store, load-store-Apart}
use uhyve.Linux.Virtqueue.{Virtqueue, index, ring_elem, add_used, queue_limit}

-- The element at the ring's index holds the descriptor and the length, the index is one further,
-- and the rest is as it was.
pub record IsAdded (m : Memory) (q : Virtqueue) (id len : ℕ) (m' : Memory) : Type 0 where
  pub slot : ℕ
  pub in_ring : slot ≡ q.used_ring + 4 + 8 * (index m q.used_ring % queue_limit)
  pub id_stored : load 4 m' slot ≡ id
  pub len_stored : load 4 m' (slot + 4) ≡ len
  pub advanced : index m' q.used_ring ≡ (index m q.used_ring + 1) % 2 ^ 16
  pub others :
      (k b : ℕ) → Apart slot 8 b k → Apart (q.used_ring + 2) 2 b k → load k m' b ≡ load k m b

module _ (m : Memory) (q : Virtqueue) (id len : ℕ) where
  abbrev at : ℕ
  at = q.used_ring + 4 + 8 * (index m q.used_ring % queue_limit)

  abbrev m1 : Memory
  m1 = store 4 m at id

  abbrev m2 : Memory
  m2 = store 4 m1 (at + 4) len

  abbrev m3 : Memory
  m3 = store 2 m2 (q.used_ring + 2) ((index m q.used_ring + 1) % 2 ^ 16)

  -- Neither part of the element meets the index.
  index-m2 : index m2 q.used_ring ≡ index m q.used_ring
  unfolding index
  index-m2 =
      load-store-Apart 2 4 m1 (at + 4) len (q.used_ring + 2) (inr (omega arith))
      ∙ load-store-Apart 2 4 m at id (q.used_ring + 2) (inr (omega arith))

  add_used-m3 : q.queue_size ≡ queue_limit → add_used m q id len ≡ m3
  unfolding add_used
  add_used-m3 size =
      let slot : ring_elem q.used_ring 8 (index m q.used_ring % q.queue_size) ≡ at =
        rw size (omega arith) in
      rw (slot, index-m2)

  m3-IsAdded : id < 2 ^ 32 → len < 2 ^ 32 → IsAdded m q id len m3
  unfolding index
  m3-IsAdded hid hlen =
      let new = (index m q.used_ring + 1) % 2 ^ 16 in
      let ring = q.used_ring + 2 in
      record {
        slot = at;
        in_ring = refl;
        id_stored =
            load-store-Apart 4 2 m2 ring new at (inl (omega arith))
            ∙ load-store-Apart 4 4 m1 (at + 4) len at (inr (omega arith))
            ∙ load-store 4 m at id (omega arith);
        len_stored =
            load-store-Apart 4 2 m2 ring new (at + 4) (inl (omega arith))
            ∙ load-store 4 m1 (at + 4) len (omega arith);
        advanced = load-store 2 m2 ring new (omega arith);
        others = λ k b out idx.
            load-store-Apart k 2 m2 ring new b idx
            ∙ load-store-Apart k 4 m1 (at + 4) len b (ground arith)
            ∙ load-store-Apart k 4 m at id b (ground arith);
      }

-- `add_used` puts the element at the ring's index, wrapped at the size of the queue, moves the
-- index on by one, wrapped at 16 bits, and changes nothing apart from the two.
pub add_used-IsAdded :
    (m : Memory) (q : Virtqueue) (id len : ℕ)
    → q.queue_size ≡ queue_limit
    → id < 2 ^ 32
    → len < 2 ^ 32
    → IsAdded m q id len (add_used m q id len)
add_used-IsAdded m q id len size hid hlen =
    rw (add_used-m3 m q id len size) (m3-IsAdded m q id len hid hlen)
