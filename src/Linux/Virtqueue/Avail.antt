-- ===== src/Linux/Virtqueue/Avail.antt =====
-- What the iterator over the available ring yields.
use uhyve.Prelude.{ℕ, zero, suc, ◌+◌, ◌-◌, ◌%◌, ◌^◌, ◌<◌, ◌≡◌, refl, arith, List, [], ◌∷◌, add16}
use uhyve.Memory.{Memory}
use uhyve.Memory.Laws.{load-lt}
use uhyve.Linux.Virtqueue.{Virtqueue, index, drain, available}

-- The slots of `n` entries from position `last` on.
unfoldable pub slots : ℕ → ℕ → ℕ → List ℕ
slots zero last size = []
slots (suc n) last size = last % size ∷ slots n (add16 last 1) size

-- How many entries the driver has made available since the position.
abbrev pub pending : Memory → Virtqueue → ℕ
pending m q = (index m q.available_ring + 2 ^ 16 - q.last_seen_available) % 2 ^ 16

pub index-lt : (m : Memory) (ring : ℕ) → index m ring < 2 ^ 16
unfolding index
index-lt m ring = load-lt 2 m (ring + 2)

drain-slots :
    (fuel n : ℕ) (m : Memory) (q : Virtqueue)
    → index m q.available_ring < 2 ^ 16
    → q.last_seen_available < 2 ^ 16
    → n ≡ pending m q
    → n < fuel
    → drain fuel m q ≡ (
      slots n q.last_seen_available q.queue_size,
      record q { last_seen_available = index m q.available_ring },
    )
unfolding drain slots
drain-slots zero n m q hi hl e h = absurd (omega arith)
drain-slots (suc fuel) zero m q hi hl e h = ground arith
drain-slots (suc fuel) (suc n) m q hi hl e h =
    let q' = record q { last_seen_available = add16 q.last_seen_available 1 } in
    ground (arith, drain-slots fuel n m q' hi (omega arith) (omega arith) (omega arith))

-- `for index in avail_iter()` ends, and yields the slot of each entry that the driver has made
-- available since the last time, in order and once; then the queue is at the driver's index.
pub available-slots :
    (m : Memory) (q : Virtqueue)
    → q.last_seen_available < 2 ^ 16
    → available m q ≡ (
      slots (pending m q) q.last_seen_available q.queue_size,
      record q { last_seen_available = index m q.available_ring },
    )
unfolding available
available-slots m q hl =
    drain-slots (2 ^ 16) (pending m q) m q (index-lt m q.available_ring) hl refl (omega arith)
