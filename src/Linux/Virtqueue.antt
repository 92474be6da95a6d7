-- ===== src/Linux/Virtqueue.antt =====
-- src/linux/virtqueue.rs: a split virtqueue in the guest's memory. A pointer is an address of the
-- host, and the memory is passed along.
pub mod Layout
pub mod Avail
pub mod Used
mod Tests
use uhyve.Prelude.{
  ℕ, zero, suc, ◌+◌, ◌-◌, ◌*◌, ◌%◌, ◌==◌, if◌then◌else◌, bit_and, Option, none, some, List, [], ◌∷◌,
  ◌^◌, not64, add64, add16, mul16,
}
use uhyve.Consts.{page_size}
use uhyve.Memory.{Memory, load, store}

abbrev pub queue_limit : ℕ
queue_limit = 256

-- `VringDescriptor`, of 16 bytes: `addr`, `len`, `flags`, `next`.
abbrev pub descriptor_size : ℕ
descriptor_size = 16

pub record VringDescriptor : Type 0 where
  pub addr : ℕ
  pub len : ℕ
  pub flags : ℕ
  pub next : ℕ

-- The element of the used ring, of 8 bytes.
abbrev pub used_element_size : ℕ
used_element_size = 8

-- `Vring<T>` is the pointer `mem` to a ring: flags, index, elements.
unfoldable pub index : Memory → ℕ → ℕ
index m ring = load 2 m (ring + 2)

unfoldable pub advance_index : Memory → ℕ → Memory
unfolding index
advance_index m ring = store 2 m (ring + 2) (add16 (index m ring) 1)

-- The offset is computed at `u16`.
unfoldable pub ring_elem : ℕ → ℕ → ℕ → ℕ
ring_elem ring elem_size i = ring + add16 4 (mul16 i elem_size)

pub record Virtqueue : Type 0 where
  pub descriptor_table : ℕ
  pub available_ring : ℕ
  pub used_ring : ℕ
  pub last_seen_available : ℕ
  pub last_seen_used : ℕ
  pub queue_size : ℕ

unfoldable pub align : ℕ → ℕ → ℕ
align addr boundary = bit_and (add64 addr (boundary - 1)) (not64 (boundary - 1))

abbrev pub get_available_ring_offset : ℕ
get_available_ring_offset = descriptor_size * queue_limit

unfoldable pub get_used_ring_offset : ℕ
unfolding align
get_used_ring_offset = align (get_available_ring_offset + 2 * (queue_limit + 3)) page_size

unfoldable pub new : ℕ → ℕ → Virtqueue
unfolding get_used_ring_offset
new mem queue_size = record {
  descriptor_table = mem;
  available_ring = mem + get_available_ring_offset;
  used_ring = mem + get_used_ring_offset;
  last_seen_available = 0;
  last_seen_used = 0;
  queue_size = queue_size % 2 ^ 16;
}

unfoldable pub get_descriptor : Memory → Virtqueue → ℕ → VringDescriptor
get_descriptor m q i =
    let at = q.descriptor_table + descriptor_size * i in
    record {
      addr = load 8 m at;
      len = load 4 m (at + 8);
      flags = load 2 m (at + 12);
      next = load 2 m (at + 14);
    }

-- `AvailIter::next`: the item, and the queue with the iterator's position.
unfoldable pub next : Memory → Virtqueue → Option ℕ × Virtqueue
unfolding index
next m q = if q.last_seen_available == index m q.available_ring then (none, q) else (
  some (q.last_seen_available % q.queue_size),
  record q { last_seen_available = add16 q.last_seen_available 1 },
)

-- `for index in queue.avail_iter() { indices.push(index) }`. Without fuel the loop is cut off.
unfoldable pub drain : ℕ → Memory → Virtqueue → List ℕ × Virtqueue
unfolding next
drain zero m q = ([], q)
drain (suc fuel) m q =
    let (item, q') = next m q in
    elim item [ none ↦ ([], q') | some i ↦ let (rest, q'') = drain fuel m q' in (i ∷ rest, q'') ]

-- As many rounds as an index of 16 bits can take.
unfoldable pub available : Memory → Virtqueue → List ℕ × Virtqueue
unfolding drain
available m q = drain (2 ^ 16) m q

unfoldable pub add_used : Memory → Virtqueue → ℕ → ℕ → Memory
unfolding index ring_elem advance_index
add_used m q desc_index len =
    let used_elem = ring_elem q.used_ring used_element_size (index m q.used_ring % q.queue_size) in
    let m1 = store 4 m used_elem desc_index in
    let m2 = store 4 m1 (used_elem + 4) len in advance_index m2 q.used_ring
