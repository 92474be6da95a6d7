-- ===== src/Linux/KvmVm/Regions.antt =====
-- Where KVM finds the memory of the guest, and where the hypervisor does.
use uhyve.Prelude.{
  Bool, List, Option, [], add64, arith, if◌then◌else◌, leb, ltb, none, not, some, ℕ, ◌&&◌, ◌+◌, ◌-◌,
  ◌∷◌, ◌≡◌,
}
use uhyve.Linux.Vcpu.Translate.{host_address}
use uhyve.Linux.KvmVm.{MmapMemory, Region, memory_regions, kvm_32bit_gap_start, kvm_32bit_gap_size}

-- The address of the host that a region gives to an address of the guest, by KVM's documentation:
-- the first region that has it.
abbrev pub host_of : List Region → (gpa : ℕ) → Option ℕ
host_of [] gpa = none
host_of (r ∷ rs) gpa =
    if leb r.guest_phys_addr gpa && ltb gpa (r.guest_phys_addr + r.memory_size)
    then some (add64 r.userspace_addr (gpa - r.guest_phys_addr))
    else host_of rs gpa

-- Between 3.25 GiB and 4 GiB there is no memory.
abbrev pub in_gap : (gpa : ℕ) → Bool
in_gap gpa = leb kvm_32bit_gap_start gpa && ltb gpa (kvm_32bit_gap_start + kvm_32bit_gap_size)

-- The guest has exactly the addresses below the size of its memory that are not in the gap, and each
-- is where the hypervisor, too, looks for it.
pub host_of-memory_regions :
    (mem : MmapMemory) (mem_size gpa : ℕ)
    → mem.guest_address ≡ 0
    → host_of (memory_regions mem mem_size) gpa ≡ (
        if ltb gpa mem_size && not (in_gap gpa)
        then some (host_address mem.host_address gpa)
        else none)
unfolding memory_regions host_address
host_of-memory_regions mem mem_size gpa at_zero = ground arith
