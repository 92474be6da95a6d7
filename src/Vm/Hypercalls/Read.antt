-- ===== src/Vm/Hypercalls/Read.antt =====
-- The `read` call, over a `read` of libc that keeps to the buffer it is given.
use uhyve.Prelude.{arith, false, if◌then◌else◌, ℕ, ◌+◌, ◌-◌, ◌<◌, ◌^◌, ◌∙◌, ◌≡◌, ◌≤◌}
use uhyve.Memory.{Memory, load}
use uhyve.Memory.Laws.{Apart, load-store, store_outside}
use uhyve.Linux.Vcpu.Translate.{host_address, virt_to_phys}
use uhyve.Vm.Hypercalls.{Libc, is_negative, read}

-- What POSIX says of `read`: it changes no byte outside of the buffer, and what it gives back is
-- negative or at most the count.
pub record Fills {W : Type 0} (libc : Libc W) : Type 0 where
  pub outside :
      (fd buf count : ℕ) (m : Memory) (w : W) (q : ℕ)
      → Apart buf count q 1
      → (libc.read fd buf count m w).1 q ≡ m q
  pub bounded :
      (fd buf count : ℕ) (m : Memory) (w : W)
      → is_negative (libc.read fd buf count m w).0 ≡ false
      → (libc.read fd buf count m w).0 ≤ count
  pub word : (fd buf count : ℕ) (m : Memory) (w : W) → (libc.read fd buf count m w).0 < 2 ^ 64

-- What the guest finds: the count in `ret`, or -1; the bytes that the host put into the buffer, as
-- far as it lies apart from `ret`; and no other byte changed.
pub record IsRead (m m' : Memory) (args_ptr buf count : ℕ) (filled : Memory) (got : ℕ)
    : Type 0 where
  pub ret : load 8 m' (args_ptr + 20) ≡ (if is_negative got then 2 ^ 64 - 1 else got)
  pub success : is_negative got ≡ false → load 8 m' (args_ptr + 20) ≤ count
  pub buffer : (q : ℕ) → Apart (args_ptr + 20) 8 q 1 → m' q ≡ filled q
  pub others : (q : ℕ) → Apart (args_ptr + 20) 8 q 1 → Apart buf count q 1 → m' q ≡ m q

-- A `read` call changes the buffer and `ret` only; `ret` is the host's count, which fits the
-- buffer, or -1 if the host failed.
pub read-IsRead :
    {W : Type 0} (libc : Libc W) (vm_start : ℕ) (m : Memory) (args_ptr : ℕ) (w : W) {fd buf len : ℕ}
    → Fills libc
    → load 4 m args_ptr ≡ fd
    → host_address vm_start (virt_to_phys m vm_start (load 8 m (args_ptr + 4))) ≡ buf
    → load 8 m (args_ptr + 12) ≡ len
    → IsRead m
        (read libc vm_start m args_ptr w).0
        args_ptr
        buf
        len
        (libc.read fd buf len m w).1
        (libc.read fd buf len m w).0
unfolding read
read-IsRead libc vm_start m args_ptr w {fd} {buf} {len} fills of at count =
    let (got, filled, w') = libc.read fd buf len m w in
    rw (of, at, count)
      (record {
        ret = load-store 8 filled (args_ptr + 20) _ (grind (arith, fills.word fd buf len m w));
        success = λ ok.
            rw (ok, load-store 8 filled (args_ptr + 20) got (fills.word fd buf len m w))
              (fills.bounded fd buf len m w ok);
        buffer = λ q apart. store_outside 8 filled (args_ptr + 20) _ q apart;
        others = λ q apart away.
            store_outside 8 filled (args_ptr + 20) _ q apart ∙ fills.outside fd buf len m w q away;
      })
