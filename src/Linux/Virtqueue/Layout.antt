-- ===== src/Linux/Virtqueue/Layout.antt =====
-- `align` and the three parts of a queue.
use native.Mathlib.Nat.{
  one-le-pow, div-lt_iff_lt-mul, mod-eq_of_lt, mod-add-div', mod-lt, mul-mod_left,
}
use uhyve.Prelude.{
  ℕ, ◌+◌, ◌-◌, ◌*◌, ◌/◌, ◌%◌, ◌^◌, ◌≤◌, ◌<◌, ◌≡◌, sym, ap, ◌∙◌, arith, not64, add64,
}
use uhyve.Prelude.Bits.{bit_and_mask, bit_and_shifted, pow-add}
use uhyve.Linux.Virtqueue.{align, new, queue_limit, descriptor_size}

-- The mask `!(2 ^ k - 1)`, as a row of ones.
not64_mask : (j k : ℕ) → j + k ≡ 64 → not64 (2 ^ k - 1) ≡ (2 ^ j - 1) * 2 ^ k
not64_mask j k e =
    let whole : 2 ^ j * 2 ^ k ≡ 2 ^ 64 = sym (pow-add j k) ∙ ap (λ (t : ℕ). 2 ^ t) e in
    let ones : 2 ^ j ≡ 2 ^ j - 1 + 1 = omega (arith, one-le-pow j 2) in
    omega (arith, whole, ap (λ (t : ℕ). t * 2 ^ k) ones, one-le-pow k 2)

-- At a boundary of 2 ^ k, `align` is the least multiple of it that is not below the address,
-- unless the sum wraps.
align_lem :
    (addr j k : ℕ)
    → j + k ≡ 64
    → addr + 2 ^ k ≤ 2 ^ 64
    → (align addr (2 ^ k) % 2 ^ k ≡ 0)
      × (addr ≤ align addr (2 ^ k))
      × (align addr (2 ^ k) < addr + 2 ^ k)
unfolding align
align_lem addr j k e room =
    let whole : 2 ^ j * 2 ^ k ≡ 2 ^ 64 = sym (pow-add j k) ∙ ap (λ (t : ℕ). 2 ^ t) e in
    let x = addr + 2 ^ k - 1 in
    let fits : add64 addr (2 ^ k - 1) ≡ x = omega (arith, one-le-pow k 2) in
    let small : x / 2 ^ k < 2 ^ j =
      (div-lt_iff_lt-mul (one-le-pow k 2 (omega arith))).1 (omega (arith, whole)) in
    let masked : align addr (2 ^ k) ≡ x / 2 ^ k * 2 ^ k =
      rw (fits, not64_mask j k e)
        (bit_and_shifted k x (2 ^ j - 1)
          ∙ ap (λ (t : ℕ). t * 2 ^ k) (bit_and_mask j (x / 2 ^ k) ∙ mod-eq_of_lt small)) in
    let parts = mod-add-div' x (2 ^ k) in
    let rest = mod-lt x (one-le-pow k 2 (omega arith)) in
    (
      rw masked (mul-mod_left (x / 2 ^ k) (2 ^ k)),
      omega (arith, masked, parts, rest),
      omega (arith, masked, parts, one-le-pow k 2),
    )

-- The descriptor table, the available ring with its 256 entries and the used ring with its 256
-- elements lie behind one another in the memory of a queue, and do not overlap.
new_layout :
    (mem : ℕ)
    → let q = new mem queue_limit in
      (q.descriptor_table + descriptor_size * queue_limit ≤ q.available_ring)
      × (q.available_ring + (4 + 2 * queue_limit + 2) ≤ q.used_ring)
      × (q.used_ring ≡ mem + 0x2000)
      × (q.queue_size ≡ queue_limit)
unfolding new
new_layout mem = omega arith
