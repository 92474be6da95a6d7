-- ===== src/Linux/Gdb/Regs.antt =====
-- src/linux/gdb/regs.rs: the registers of KVM as the debugger has them, and back. Arrays are lists;
-- `try_into().unwrap()` on a number that does not fit is a panic, `none`.
use uhyve.Prelude.{
  List, Option, [], bit_or, get_or, if◌then◌else◌, ltb, map, none, shl64, shr, some, suc, take,
  zero, ℕ, ◌%◌, ◌*◌, ◌++◌, ◌+◌, ◌/◌, ◌>>=◌, ◌^◌, ◌∷◌,
}
pub mod Roundtrip
mod Tests

pub record KvmRegs : Type 0 where
  pub rax : ℕ
  pub rbx : ℕ
  pub rcx : ℕ
  pub rdx : ℕ
  pub rsi : ℕ
  pub rdi : ℕ
  pub rsp : ℕ
  pub rbp : ℕ
  pub r8 : ℕ
  pub r9 : ℕ
  pub r10 : ℕ
  pub r11 : ℕ
  pub r12 : ℕ
  pub r13 : ℕ
  pub r14 : ℕ
  pub r15 : ℕ
  pub rip : ℕ
  pub rflags : ℕ

-- A segment register, with the rest of it as it is.
pub record Segment : Type 0 where
  pub selector : ℕ
  pub cached : List ℕ

pub record KvmSregs : Type 0 where
  pub cs : Segment
  pub ss : Segment
  pub ds : Segment
  pub es : Segment
  pub fs : Segment
  pub gs : Segment

-- Each of the `fpr` and `xmm` is its 16 bytes.
pub record KvmFpu : Type 0 where
  pub fpr : List (List ℕ)
  pub fcw : ℕ
  pub fsw : ℕ
  pub ftwx : ℕ
  pub last_opcode : ℕ
  pub last_ip : ℕ
  pub last_dp : ℕ
  pub xmm : List (List ℕ)
  pub mxcsr : ℕ

pub record KvmVcpu : Type 0 where
  pub regs : KvmRegs
  pub sregs : KvmSregs
  pub fpu : KvmFpu

pub record SegmentRegs : Type 0 where
  pub cs : ℕ
  pub ss : ℕ
  pub ds : ℕ
  pub es : ℕ
  pub fs : ℕ
  pub gs : ℕ

pub record FpuInternalRegs : Type 0 where
  pub fctrl : ℕ
  pub fstat : ℕ
  pub ftag : ℕ
  pub fiseg : ℕ
  pub fioff : ℕ
  pub foseg : ℕ
  pub fooff : ℕ
  pub fop : ℕ

-- The registers of the debugger; an F80 is its 10 bytes.
pub record CoreRegs : Type 0 where
  pub regs : List ℕ
  pub eflags : ℕ
  pub rip : ℕ
  pub segments : SegmentRegs
  pub st : List (List ℕ)
  pub fpu : FpuInternalRegs
  pub xmm : List ℕ
  pub mxcsr : ℕ

abbrev pub narrow : (bound x : ℕ) → Option ℕ
narrow bound x = if ltb x bound then some x else none

-- `u128::from_ne_bytes` and back
abbrev pub of_bytes : List ℕ → ℕ
of_bytes [] = 0
of_bytes (b ∷ bytes) = b + 256 * of_bytes bytes

abbrev pub to_bytes : (n x : ℕ) → List ℕ
to_bytes zero x = []
to_bytes (suc n) x = x % 256 ∷ to_bytes n (x / 256)

unfoldable pub regs_of : KvmRegs → List ℕ
regs_of k =
    k.rax ∷ k.rbx ∷ k.rcx ∷ k.rdx ∷ k.rsi ∷ k.rdi ∷ k.rbp ∷ k.rsp ∷ k.r8 ∷ k.r9 ∷ k.r10 ∷ k.r11
    ∷ k.r12 ∷ k.r13 ∷ k.r14 ∷ k.r15 ∷ []

unfoldable pub kvm_regs_of : List ℕ → (eflags rip : ℕ) → KvmRegs
kvm_regs_of regs eflags rip =
    let r = λ (i : ℕ). get_or regs i 0 in
    record {
      rax = r 0;
      rbx = r 1;
      rcx = r 2;
      rdx = r 3;
      rsi = r 4;
      rdi = r 5;
      rbp = r 6;
      rsp = r 7;
      r8 = r 8;
      r9 = r 9;
      r10 = r 10;
      r11 = r 11;
      r12 = r 12;
      r13 = r 13;
      r14 = r 14;
      r15 = r 15;
      rflags = eflags;
      rip = rip;
    }

unfoldable pub segments_of : KvmSregs → SegmentRegs
segments_of k = record {
  cs = k.cs.selector;
  ss = k.ss.selector;
  ds = k.ds.selector;
  es = k.es.selector;
  fs = k.fs.selector;
  gs = k.gs.selector;
}

abbrev pub select : Segment → ℕ → Option Segment
select seg x = narrow (2 ^ 16) x >>= λ selector. some (record seg { selector = selector })

unfoldable pub update : SegmentRegs → KvmSregs → Option KvmSregs
update s k = do
  cs ← select k.cs s.cs
  ss ← select k.ss s.ss
  ds ← select k.ds s.ds
  es ← select k.es s.es
  fs ← select k.fs s.fs
  gs ← select k.gs s.gs
  some (record { cs = cs; ss = ss; ds = ds; es = es; fs = fs; gs = gs })

unfoldable pub internal_of : KvmFpu → FpuInternalRegs
internal_of k = record {
  fctrl = k.fcw;
  fstat = k.fsw;
  ftag = k.ftwx;
  fiseg = k.last_ip % 2 ^ 32;
  fioff = shr k.last_ip 32 % 2 ^ 32;
  foseg = k.last_dp % 2 ^ 32;
  fooff = shr k.last_dp 32 % 2 ^ 32;
  fop = k.last_opcode;
}

-- A register of 10 bytes among 16.
abbrev pub widen : List ℕ → List ℕ
widen st = st ++ 0 ∷ 0 ∷ 0 ∷ 0 ∷ 0 ∷ 0 ∷ []

unfoldable pub kvm_fpu_of : List (List ℕ) → FpuInternalRegs → List ℕ → (mxcsr : ℕ) → Option KvmFpu
kvm_fpu_of st fpu xmm mxcsr = do
  fcw ← narrow (2 ^ 16) fpu.fctrl
  fsw ← narrow (2 ^ 16) fpu.fstat
  ftwx ← narrow (2 ^ 8) fpu.ftag
  last_opcode ← narrow (2 ^ 16) fpu.fop
  some (record {
    fpr = map widen st;
    fcw = fcw;
    fsw = fsw;
    ftwx = ftwx;
    last_opcode = last_opcode;
    last_ip = bit_or fpu.fiseg (shl64 fpu.fioff 32);
    last_dp = bit_or fpu.foseg (shl64 fpu.fooff 32);
    xmm = map (to_bytes 16) xmm;
    mxcsr = mxcsr;
  })

unfoldable pub read : KvmVcpu → CoreRegs
read v = record {
  regs = regs_of v.regs;
  eflags = v.regs.rflags % 2 ^ 32;
  rip = v.regs.rip;
  segments = segments_of v.sregs;
  st = map (take 10) v.fpu.fpr;
  fpu = internal_of v.fpu;
  xmm = map of_bytes v.fpu.xmm;
  mxcsr = v.fpu.mxcsr;
}

unfoldable pub write : CoreRegs → KvmVcpu → Option KvmVcpu
write r v = do
  sregs ← update r.segments v.sregs
  fpu ← kvm_fpu_of r.st r.fpu r.xmm r.mxcsr
  some (record { regs = kvm_regs_of r.regs r.eflags r.rip; sregs = sregs; fpu = fpu })
