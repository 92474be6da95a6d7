-- ===== src/Vm/Hypercalls.antt =====
-- src/vm.rs, the file system calls of `VirtualCPU`, which the guest makes through structures in its
-- memory. The structures are packed; signed numbers are kept as their bits.
use uhyve.Prelude.{Bool, add64, if◌then◌else◌, leb, not64, sub64, suc, zero, ℕ, ◌+◌, ◌==◌, ◌^◌}
pub mod Write
pub mod Read
mod Tests
use uhyve.Memory.{Memory, load, store}
use uhyve.Linux.Vcpu.Translate.{host_address, virt_to_phys}

-- The calls of libc, on the host's memory and on what else the host keeps, `W`.
pub record Libc (W : Type 0) : Type 0 where
  pub open_file : (name flags mode : ℕ) → Memory → W → ℕ × W
  pub close : (fd : ℕ) → W → ℕ × W
  pub read : (fd buf count : ℕ) → Memory → W → ℕ × Memory × W
  pub write : (fd buf count : ℕ) → Memory → W → ℕ × W
  pub lseek : (fd offset whence : ℕ) → W → ℕ × W
  pub unlink : (name : ℕ) → Memory → W → ℕ × W

-- A 64-bit result that is negative.
abbrev pub is_negative : ℕ → Bool
is_negative x = leb (2 ^ 63) x

-- The outcome of `write`; `running` is a loop that has not ended within its fuel.
pub data Written (W : Type 0) : Type 0 where
  done : W → Written W
  failed : W → Written W
  running : W → Written W

module _ {W : Type 0} (libc : Libc W) (vm_start : ℕ) where
  -- `while bytes_written != len`
  unfoldable pub write_loop : ℕ → Memory → (fd buffer len bytes_written : ℕ) → W → Written W
  unfolding host_address
  write_loop zero m fd buffer len bytes_written w = running w
  write_loop (suc fuel) m fd buffer len bytes_written w =
      let (step, w') =
        libc.write fd (host_address vm_start (add64 buffer bytes_written)) (sub64 len bytes_written)
          m w in
      let rest = write_loop fuel m fd buffer len (add64 bytes_written step) w' in
      if bytes_written == len then done w else if is_negative step then failed w' else rest

  -- `SysWrite`: `fd` at 0, `buf` at 4, `len` at 12
  unfoldable pub write : ℕ → Memory → ℕ → W → Written W
  unfolding write_loop
  write fuel m args_ptr w =
      let buffer = virt_to_phys m vm_start (load 8 m (args_ptr + 4)) in
      write_loop fuel m (load 4 m args_ptr) buffer (load 8 m (args_ptr + 12)) 0 w

  -- `SysRead`: `fd` at 0, `buf` at 4, `len` at 12, `ret` at 20
  unfoldable pub read : Memory → ℕ → W → Memory × W
  read m args_ptr w =
      let buffer = virt_to_phys m vm_start (load 8 m (args_ptr + 4)) in
      let (bytes_read, m', w') =
        libc.read (load 4 m args_ptr) (host_address vm_start buffer) (load 8 m (args_ptr + 12)) m
          w in
      let ret = if is_negative bytes_read then not64 0 else bytes_read in
      (store 8 m' (args_ptr + 20) ret, w')

  -- `SysOpen`: `name` at 0, `flags` at 8, `mode` at 12, `ret` at 16
  unfoldable pub open_file : Memory → ℕ → W → Memory × W
  open_file m args_ptr w =
      let (ret, w') =
        libc.open_file (host_address vm_start (load 8 m args_ptr)) (load 4 m (args_ptr + 8))
          (load 4 m (args_ptr + 12)) m w in
      (store 4 m (args_ptr + 16) ret, w')

  -- `SysClose`: `fd` at 0, `ret` at 4
  unfoldable pub close : Memory → ℕ → W → Memory × W
  close m args_ptr w =
      let (ret, w') = libc.close (load 4 m args_ptr) w in (store 4 m (args_ptr + 4) ret, w')

  -- `SysLseek`: `fd` at 0, `offset` at 4, `whence` at 12
  unfoldable pub lseek : Memory → ℕ → W → Memory × W
  lseek m args_ptr w =
      let (offset, w') =
        libc.lseek (load 4 m args_ptr) (load 8 m (args_ptr + 4)) (load 4 m (args_ptr + 12)) w in
      (store 8 m (args_ptr + 4) offset, w')

  -- `SysUnlink`: `name` at 0, `ret` at 8
  unfoldable pub unlink : Memory → ℕ → W → Memory × W
  unlink m args_ptr w =
      let (ret, w') = libc.unlink (host_address vm_start (load 8 m args_ptr)) m w in
      (store 4 m (args_ptr + 8) ret, w')

-- `SysExit`: `arg` at 0
unfoldable pub exit : Memory → ℕ → ℕ
exit m args_ptr = load 4 m args_ptr
