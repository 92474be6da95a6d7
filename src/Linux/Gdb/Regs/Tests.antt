-- ===== src/Linux/Gdb/Regs/Tests.antt =====
-- The debugger's registers of linux/gdb/regs.rs.
use uhyve.Prelude.{List, [], arith, refl, replicate, some, ℕ, ◌^◌, ◌∷◌, ◌≡◌}
use uhyve.Linux.Gdb.Regs.{CoreRegs, KvmVcpu, Segment, read, write}
use uhyve.Linux.Gdb.Regs.Roundtrip.{IsCore, read-write_registers}

abbrev zeros : ℕ → List ℕ
zeros n = replicate n 0

abbrev core : CoreRegs
core = record {
  regs = 1 ∷ 2 ∷ 3 ∷ 4 ∷ 5 ∷ 6 ∷ 7 ∷ 8 ∷ 9 ∷ 10 ∷ 11 ∷ 12 ∷ 13 ∷ 14 ∷ 15 ∷ 16 ∷ [];
  eflags = 2;
  rip = 0x80_0000;
  segments = record { cs = 8; ss = 16; ds = 16; es = 16; fs = 0; gs = 0 };
  st = replicate 2 (zeros 10);
  fpu = record {
    fctrl = 0x37f;
    fstat = 0;
    ftag = 0xff;
    fiseg = 0;
    fioff = 5;
    foseg = 6;
    fooff = 0;
    fop = 1;
  };
  xmm = 2 ^ 100 ∷ 7 ∷ [];
  mxcsr = 0x1f80;
}

core-IsCore : IsCore core
core-IsCore = record {
  regs = refl;
  eflags = omega arith;
  cs = omega arith;
  ss = omega arith;
  ds = omega arith;
  es = omega arith;
  fs = omega arith;
  gs = omega arith;
  st = (refl, (refl, tt));
  fctrl = omega arith;
  fstat = omega arith;
  ftag = omega arith;
  fop = omega arith;
  fiseg = omega arith;
  fioff = omega arith;
  foseg = omega arith;
  fooff = omega arith;
  xmm = (omega arith, (omega arith, tt));
}

abbrev empty : Segment
empty = record { selector = 0; cached = [] }

abbrev vcpu : KvmVcpu
vcpu = record {
  regs = record {
    rax = 0;
    rbx = 0;
    rcx = 0;
    rdx = 0;
    rsi = 0;
    rdi = 0;
    rsp = 0;
    rbp = 0;
    r8 = 0;
    r9 = 0;
    r10 = 0;
    r11 = 0;
    r12 = 0;
    r13 = 0;
    r14 = 0;
    r15 = 0;
    rip = 0;
    rflags = 2;
  };
  sregs = record { cs = empty; ss = empty; ds = empty; es = empty; fs = empty; gs = empty };
  fpu = record {
    fpr = replicate 8 (zeros 16);
    fcw = 0;
    fsw = 0;
    ftwx = 0;
    last_opcode = 0;
    last_ip = 0;
    last_dp = 0;
    xmm = replicate 16 (zeros 16);
    mxcsr = 0;
  };
}

read-write_registers_example : (v' : KvmVcpu) × (write core vcpu ≡ some v') × (read v' ≡ core)
read-write_registers_example = read-write_registers core vcpu core-IsCore
