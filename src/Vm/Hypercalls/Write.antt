-- ===== src/Vm/Hypercalls/Write.antt =====
-- The loop of the `write` call, over a `write` of libc that makes progress.
use mathlib.Core.List.{append-nil, append_assoc}
use native.Mathlib.Decide.{dec_lt}
use uhyve.Prelude.{
  List, false, suc, true, zero, ℕ, ◌++◌, ◌+◌, ◌<◌, ◌≡◌, ◌≤◌, add64, arith, sub64, ◌-◌, ◌^◌, ap, inl,
  inr, ◌∙◌, Bool-cases, ap₂, subst, sym,
}
use uhyve.Memory.{Memory, load_bytes, load}
use uhyve.Linux.Vcpu.Translate.{host_address, virt_to_phys}
use uhyve.Vm.Hypercalls.{Libc, Written, done, failed, is_negative, write_loop, write}

load_bytes-append :
    (a b : ℕ) (m : Memory) (p : ℕ)
    → load_bytes (a + b) m p ≡ load_bytes a m p ++ load_bytes b m (p + a)
unfolding load_bytes
load_bytes-append zero b m p =
    let sum : 0 + b ≡ b = omega arith in let same : p + 0 ≡ p = omega arith in rw (sum, same)
load_bytes-append (suc a) b m p =
    let sum : suc a + b ≡ suc (a + b) = omega arith in
    let next : p + suc a ≡ p + 1 + a = omega arith in
    rw (sum, next) (rw (load_bytes-append a b m (p + 1)))

-- What POSIX says of `write` with a count above zero, of the bytes `out` that a file has got:
-- it fails and appends nothing, or it appends some of the bytes of the buffer, from the first on.
pub record Appends {W : Type 0} (libc : Libc W) (out : ℕ → W → List ℕ) : Type 0 where
  pub fails :
      (fd buf count : ℕ) (m : Memory) (w : W)
      → is_negative (libc.write fd buf count m w).0 ≡ true
      → out fd (libc.write fd buf count m w).1 ≡ out fd w
  pub progress :
      (fd buf count : ℕ) (m : Memory) (w : W)
      → 0 < count
      → is_negative (libc.write fd buf count m w).0 ≡ false
      → 0 < (libc.write fd buf count m w).0
  pub bounded :
      (fd buf count : ℕ) (m : Memory) (w : W)
      → is_negative (libc.write fd buf count m w).0 ≡ false
      → (libc.write fd buf count m w).0 ≤ count
  pub appends :
      (fd buf count : ℕ) (m : Memory) (w : W)
      → is_negative (libc.write fd buf count m w).0 ≡ false
      → out fd (libc.write fd buf count m w).1
        ≡ out fd w ++ load_bytes (libc.write fd buf count m w).0 m buf

-- The file has got all of the buffer, or, if a call failed, a part of it from the first byte on.
pub data IsWritten {W : Type 0} (out : ℕ → W → List ℕ) (m : Memory) (fd buf len : ℕ) (w : W)
    : Written W → Type 0 where
  all :
      (w' : W)
      → out fd w' ≡ out fd w ++ load_bytes len m buf
      → IsWritten out m fd buf len w (done w')
  part :
      (w' : W) (n : ℕ)
      → n < len
      → out fd w' ≡ out fd w ++ load_bytes n m buf
      → IsWritten out m fd buf len w (failed w')

module _ {W : Type 0} (libc : Libc W) (vm_start : ℕ) (out : ℕ → W → List ℕ)
    (appends : Appends libc out) (m : Memory) (fd buffer len : ℕ)
    (room : vm_start + buffer + len < 2 ^ 64) where
  -- The call of one round.
  abbrev call : ℕ → W → ℕ × W
  call written w =
      libc.write fd (host_address vm_start (add64 buffer written)) (sub64 len written) m w

  call-args :
      (written : ℕ) (w : W)
      → written < len
      → call written w ≡ libc.write fd (vm_start + buffer + written) (len - written) m w
  unfolding host_address
  call-args written w left =
      let at : add64 (add64 buffer written) vm_start ≡ vm_start + buffer + written = omega arith in
      let count : sub64 len written ≡ len - written = omega arith in
      ap₂ (λ (a c : ℕ). libc.write fd a c m w) at count

  -- What a round can answer, by what POSIX says.
  abbrev Answer : ℕ → W → ℕ × W → Type 0
  Answer written w r =
      (is_negative r.0 ≡ true → out fd r.1 ≡ out fd w)
      × (is_negative r.0 ≡ false
          → (0 < r.0)
            × (r.0 ≤ len - written)
            × (out fd r.1 ≡ out fd w ++ load_bytes r.0 m (vm_start + buffer + written)))

  call-Answer : (written : ℕ) (w : W) → written < len → Answer written w (call written w)
  call-Answer written w left =
      let at = vm_start + buffer + written in
      let count = len - written in
      subst (Answer written w) (sym (call-args written w left)) (
        (λ negative. appends.fails fd at count m w negative),
        λ positive. (
          appends.progress fd at count m w (omega arith) positive,
          appends.bounded fd at count m w positive,
          appends.appends fd at count m w positive,
        ),
      )

  write_loop-end :
      (fuel written : ℕ) (w : W)
      → written ≡ len
      → write_loop libc vm_start (suc fuel) m fd buffer len written w ≡ done w
  unfolding write_loop
  write_loop-end fuel written w e = ground arith

  write_loop-fail :
      (fuel written : ℕ) (w : W)
      → written < len
      → is_negative (call written w).0 ≡ true
      → write_loop libc vm_start (suc fuel) m fd buffer len written w ≡ failed (call written w).1
  unfolding write_loop
  write_loop-fail fuel written w left negative = ground arith

  write_loop-next :
      (fuel written : ℕ) (w : W)
      → written < len
      → is_negative (call written w).0 ≡ false
      → write_loop libc vm_start (suc fuel) m fd buffer len written w
        ≡ write_loop libc vm_start fuel m fd buffer len
            (add64 written (call written w).0)
            (call written w).1
  unfolding write_loop
  write_loop-next fuel written w left positive = ground arith

  write_loop-IsWritten :
      (fuel written : ℕ) (w0 w : W)
      → written ≤ len
      → len < fuel + written
      → out fd w ≡ out fd w0 ++ load_bytes written m (vm_start + buffer)
      → IsWritten out m fd
          (vm_start + buffer)
          len
          w0
          (write_loop libc vm_start fuel m fd buffer len written w)
  write_loop-IsWritten zero written w0 w upto enough sofar = absurd (omega arith)
  write_loop-IsWritten (suc fuel) written w0 w upto enough sofar = elim (dec_lt written len) [
    | no complete ↦
        let same : written ≡ len = omega arith in
        rw (write_loop-end fuel written w same)
          (all w (sofar ∙ ap (λ (n : ℕ). out fd w0 ++ load_bytes n m (vm_start + buffer)) same))
    | yes left ↦
        let (if_negative, if_positive) = call-Answer written w left in
        let step = (call written w).0 in
        elim (Bool-cases (is_negative step)) [
          | inl negative ↦
              rw (write_loop-fail fuel written w left negative)
                (part (call written w).1 written left (if_negative negative ∙ sofar))
          | inr positive ↦
              let (moved, few, more) = if_positive positive in
              let next : add64 written step ≡ written + step = omega arith in
              rw (write_loop-next fuel written w left positive, next)
                (write_loop-IsWritten fuel (written + step) w0 (call written w).1 (omega arith)
                  (omega arith)
                  (rw (more, sofar, load_bytes-append written step m (vm_start + buffer))
                    (append_assoc (out fd w0) (load_bytes written m (vm_start + buffer))
                      (load_bytes step m (vm_start + buffer + written)))))
        ]
  ]

-- A `write` call ends if libc writes as POSIX says, after at most as many rounds as there are
-- bytes: the file has got the bytes of the guest's buffer, in order and once; or, if the host
-- failed, some of them from the first on. The buffer is taken not to wrap around the address space.
pub write-IsWritten :
    {W : Type 0} (libc : Libc W) (out : ℕ → W → List ℕ) (vm_start : ℕ) (m : Memory) (args_ptr : ℕ)
    (w : W) (fuel : ℕ) {fd buffer len : ℕ}
    → Appends libc out
    → load 4 m args_ptr ≡ fd
    → virt_to_phys m vm_start (load 8 m (args_ptr + 4)) ≡ buffer
    → load 8 m (args_ptr + 12) ≡ len
    → vm_start + buffer + len < 2 ^ 64
    → len < fuel
    → IsWritten out m fd (vm_start + buffer) len w (write libc vm_start fuel m args_ptr w)
unfolding write load_bytes
write-IsWritten libc out vm_start m args_ptr w fuel {fd} {buffer} {len} appends of buf count room
      enough =
    rw (of, buf, count)
      (write_loop-IsWritten libc vm_start out appends m fd buffer len room fuel 0 w w (omega arith)
        (omega arith) (sym (append-nil (out fd w))))
