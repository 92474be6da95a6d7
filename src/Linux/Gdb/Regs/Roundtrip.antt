-- ===== src/Linux/Gdb/Regs/Roundtrip.antt =====
-- Registers that the debugger writes are read back.
use uhyve.Prelude.{
  List, [], ap, ap₂, arith, bit_or, get_or, length, map, refl, shl64, shr, some, subst, suc, take,
  take_append, zero, ℕ, ◌%◌, ◌/◌, ◌<◌, ◌^◌, ◌∷◌, ◌≡◌, ◌*◌, ◌+◌, ◌∙◌,
}
use native.Mathlib.Nat.{pow-suc}
use uhyve.Prelude.Bits.{bit_or-zero, bit_or_split, zero-bit_or}
use uhyve.Linux.Gdb.Regs.{
  CoreRegs, KvmVcpu, narrow, of_bytes, to_bytes, regs_of, kvm_regs_of, segments_of, update,
  internal_of, widen, kvm_fpu_of, read, write,
}

abbrev pub AllTen : List (List ℕ) → Type 0
AllTen [] = Unit {0}
AllTen (x ∷ xs) = (length x ≡ 10) × AllTen xs

abbrev pub AllWide : List ℕ → Type 0
AllWide [] = Unit {0}
AllWide (x ∷ xs) = (x < 256 ^ 16) × AllWide xs

-- Registers of the sizes that the processor has.
pub record IsCore (r : CoreRegs) : Type 0 where
  pub regs : length r.regs ≡ 16
  pub eflags : r.eflags < 2 ^ 32
  pub cs : r.segments.cs < 2 ^ 16
  pub ss : r.segments.ss < 2 ^ 16
  pub ds : r.segments.ds < 2 ^ 16
  pub es : r.segments.es < 2 ^ 16
  pub fs : r.segments.fs < 2 ^ 16
  pub gs : r.segments.gs < 2 ^ 16
  pub st : AllTen r.st
  pub fctrl : r.fpu.fctrl < 2 ^ 16
  pub fstat : r.fpu.fstat < 2 ^ 16
  pub ftag : r.fpu.ftag < 2 ^ 8
  pub fop : r.fpu.fop < 2 ^ 16
  pub fiseg : r.fpu.fiseg < 2 ^ 32
  pub fioff : r.fpu.fioff < 2 ^ 32
  pub foseg : r.fpu.foseg < 2 ^ 32
  pub fooff : r.fpu.fooff < 2 ^ 32
  pub xmm : AllWide r.xmm

of_bytes-to_bytes : (n x : ℕ) → x < 256 ^ n → of_bytes (to_bytes n x) ≡ x
of_bytes-to_bytes zero x h = omega arith
of_bytes-to_bytes (suc n) x h =
    omega (arith, of_bytes-to_bytes n (x / 256) (omega (arith, pow-suc 256 n)))

xmm_lem : (xs : List ℕ) → AllWide xs → map of_bytes (map (to_bytes 16) xs) ≡ xs
xmm_lem [] h = refl
xmm_lem (x ∷ xs) h =
    ap₂ (λ (a : ℕ) (l : List ℕ). a ∷ l) (of_bytes-to_bytes 16 x h.0) (xmm_lem xs h.1)

st_lem : (xs : List (List ℕ)) → AllTen xs → map (take 10) (map widen xs) ≡ xs
st_lem [] h = refl
st_lem (x ∷ xs) h =
    let first = take_append x (0 ∷ 0 ∷ 0 ∷ 0 ∷ 0 ∷ 0 ∷ []) in
    ap₂ (λ (a : List ℕ) (l : List (List ℕ)). a ∷ l)
      (subst (λ (n : ℕ). take n (widen x) ≡ x) h.0 first) (st_lem xs h.1)

tabulate : ℕ → (ℕ → ℕ) → List ℕ
tabulate zero f = []
tabulate (suc n) f = f 0 ∷ tabulate n (λ i. f (suc i))

tabulate_lem : (xs : List ℕ) → tabulate (length xs) (λ i. get_or xs i 0) ≡ xs
unfolding tabulate
tabulate_lem [] = refl
tabulate_lem (x ∷ xs) = ap (λ (l : List ℕ). x ∷ l) (tabulate_lem xs)

regs_lem :
    (xs : List ℕ) (eflags rip : ℕ) → length xs ≡ 16 → regs_of (kvm_regs_of xs eflags rip) ≡ xs
unfolding regs_of kvm_regs_of tabulate
regs_lem xs eflags rip size =
    subst (λ (n : ℕ). tabulate n (λ i. get_or xs i 0) ≡ xs) size (tabulate_lem xs)

narrow-some : (bound x : ℕ) → x < bound → narrow bound x ≡ some x
narrow-some bound x h = ground arith

pointer : (lo hi : ℕ) → lo < 2 ^ 32 → hi < 2 ^ 32 → bit_or lo (shl64 hi 32) ≡ hi * 2 ^ 32 + lo
pointer lo hi h k =
    let low : lo ≡ 0 * 2 ^ 32 + lo = omega arith in
    let high : shl64 hi 32 ≡ hi * 2 ^ 32 + 0 = omega arith in
    ap₂ bit_or low high
    ∙ bit_or_split 32 0 lo hi 0 h (omega arith)
    ∙ omega (arith, zero-bit_or hi, bit_or-zero lo)

pointer_low : (lo hi : ℕ) → lo < 2 ^ 32 → hi < 2 ^ 32 → bit_or lo (shl64 hi 32) % 2 ^ 32 ≡ lo
pointer_low lo hi h k = omega (arith, pointer lo hi h k)

pointer_high :
    (lo hi : ℕ) → lo < 2 ^ 32 → hi < 2 ^ 32 → shr (bit_or lo (shl64 hi 32)) 32 % 2 ^ 32 ≡ hi
pointer_high lo hi h k = omega (arith, pointer lo hi h k)

-- What the debugger writes is accepted without a panic if it is of the processor's sizes, and the
-- debugger reads back the very registers.
pub read-write_registers :
    (r : CoreRegs) (v : KvmVcpu) → IsCore r → (v' : KvmVcpu) × (write r v ≡ some v') × (read v' ≡ r)
unfolding write read update kvm_fpu_of segments_of internal_of kvm_regs_of
read-write_registers r v c =
    let s = r.segments in
    let f = r.fpu in
    let k = v.sregs in
    let flags : r.eflags % 2 ^ 32 ≡ r.eflags = omega (arith, c.eflags) in
    (
      record {
        regs = kvm_regs_of r.regs r.eflags r.rip;
        sregs = record {
          cs = record k.cs { selector = s.cs };
          ss = record k.ss { selector = s.ss };
          ds = record k.ds { selector = s.ds };
          es = record k.es { selector = s.es };
          fs = record k.fs { selector = s.fs };
          gs = record k.gs { selector = s.gs };
        };
        fpu = record {
          fpr = map widen r.st;
          fcw = f.fctrl;
          fsw = f.fstat;
          ftwx = f.ftag;
          last_opcode = f.fop;
          last_ip = bit_or f.fiseg (shl64 f.fioff 32);
          last_dp = bit_or f.foseg (shl64 f.fooff 32);
          xmm = map (to_bytes 16) r.xmm;
          mxcsr = r.mxcsr;
        };
      },
      rw
          (
            narrow-some (2 ^ 16) s.cs c.cs,
            narrow-some (2 ^ 16) s.ss c.ss,
            narrow-some (2 ^ 16) s.ds c.ds,
            narrow-some (2 ^ 16) s.es c.es,
            narrow-some (2 ^ 16) s.fs c.fs,
            narrow-some (2 ^ 16) s.gs c.gs,
            narrow-some (2 ^ 16) f.fctrl c.fctrl,
            narrow-some (2 ^ 16) f.fstat c.fstat,
            narrow-some (2 ^ 8) f.ftag c.ftag,
            narrow-some (2 ^ 16) f.fop c.fop,
          )
          refl,
      rw
          (
            regs_lem r.regs r.eflags r.rip c.regs,
            flags,
            st_lem r.st c.st,
            xmm_lem r.xmm c.xmm,
            pointer_low f.fiseg f.fioff c.fiseg c.fioff,
            pointer_high f.fiseg f.fioff c.fiseg c.fioff,
            pointer_low f.foseg f.fooff c.foseg c.fooff,
            pointer_high f.foseg f.fooff c.foseg c.fooff,
          )
          refl,
    )
