-- ===== src/Vm/Hypercalls/Tests.antt =====
-- The hypercalls of vm.rs on a host that writes and reads two bytes at a time at most.
use uhyve.Memory.Bytes.{store_bytes_above, store_bytes_below}
use uhyve.Vm.Hypercalls.Read.{Fills, IsRead, read-IsRead}
use uhyve.Vm.Hypercalls.Write.{Appends, IsWritten, write-IsWritten}
use uhyve.Linux.Vcpu.Translate.{host_address, join_offset, virt_to_phys, walk}
use uhyve.Prelude.{
  List, [], arith, if◌then◌else◌, min, refl, replicate, ℕ, ◌++◌, ◌==◌, ◌≡◌, ap, inl, inr, length,
  suc, zero,
}
use uhyve.Memory.{Memory, load, load_bytes, store_bytes}
use uhyve.Vm.Hypercalls.{Libc, read, write}

-- The host is what has been written, whatever the file.
abbrev two_at_most : Libc (List ℕ)
two_at_most = record {
  open_file = λ name flags mode m w. (3, w);
  close = λ fd w. (0, w);
  read = λ fd buf count m w. (min 2 count, store_bytes m buf (replicate (min 2 count) 65), w);
  write = λ fd buf count m w. (min 2 count, w ++ load_bytes (min 2 count) m buf);
  lseek = λ fd offset whence w. (offset, w);
  unlink = λ name m w. (0, w);
}

abbrev written : ℕ → List ℕ → List ℕ
written fd w = w

two_at_most-Appends : Appends two_at_most written
two_at_most-Appends = record {
  fails = λ fd buf count m w bad. absurd (ground arith);
  progress = λ fd buf count m w some good. omega arith;
  bounded = λ fd buf count m w good. omega arith;
  appends = λ fd buf count m w good. refl;
}

length-replicate : (n v : ℕ) → length (replicate n v) ≡ n
length-replicate zero v = refl
length-replicate (suc n) v = ap suc (length-replicate n v)

-- The structure at 0x20: file 1, the buffer at 0x40, 3 bytes; the tables map the first page at 0.
abbrev arguments : Memory
arguments a = if a == 0x20 then 1 else if a == 0x24 then 0x40 else if a == 0x2c then 3 else 0

buffer_at : virt_to_phys arguments 0 (load 8 arguments 0x24) ≡ 0x40
unfolding virt_to_phys walk host_address join_offset load
buffer_at = refl

host_buffer_at : host_address 0 (virt_to_phys arguments 0 (load 8 arguments 0x24)) ≡ 0x40
unfolding virt_to_phys walk host_address join_offset load
host_buffer_at = refl

fd_at : load 4 arguments 0x20 ≡ 1
unfolding load
fd_at = refl

len_at : load 8 arguments 0x2c ≡ 3
unfolding load
len_at = refl

write-IsWritten_example :
    IsWritten written arguments 1 0x40 3 [] (write two_at_most 0 4 arguments 0x20 [])
write-IsWritten_example =
    write-IsWritten two_at_most written 0 arguments 0x20 [] 4 two_at_most-Appends fd_at buffer_at
      len_at (omega arith) (omega arith)

two_at_most-Fills : Fills two_at_most
two_at_most-Fills = record {
  outside = λ fd buf count m w q away. elim away [
    | inl below ↦
        store_bytes_above m buf (replicate (min 2 count) 65) q
          (omega (arith, length-replicate (min 2 count) 65))
    | inr above ↦ store_bytes_below m buf (replicate (min 2 count) 65) q (omega arith)
  ];
  bounded = λ fd buf count m w good. omega arith;
  word = λ fd buf count m w. omega arith;
}

read-IsRead_example :
    IsRead arguments
      (read two_at_most 0 arguments 0x20 []).0
      0x20
      0x40
      3
      (two_at_most.read 1 0x40 3 arguments []).1
      (two_at_most.read 1 0x40 3 arguments []).0
read-IsRead_example =
    read-IsRead two_at_most 0 arguments 0x20 [] two_at_most-Fills fd_at host_buffer_at len_at
