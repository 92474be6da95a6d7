-- ===== src/Linux/Vcpu/Exits/Sample.antt =====
-- A concrete host and machine for the tests of the exits.
use uhyve.Prelude.{List, [], if◌then◌else◌, none, not64, refl, some, ℕ, ◌++◌, ◌==◌, ◌∷◌, ◌≡◌}
use uhyve.Linux.Virtio.Device.{found, new}
use uhyve.Linux.Vcpu.Machine.{Machine, Surroundings, hlt, resumes}
use uhyve.Linux.Vcpu.Exits.{handle_exit}
use uhyve.Memory.{Slice}
use uhyve.Vm.Hypercalls.{Libc}

-- A host that has nothing, and keeps what is printed.
abbrev pub nothing : Libc (List ℕ)
nothing = record {
  open_file = λ name flags mode m w. (not64 0, w);
  close = λ fd w. (0, w);
  read = λ fd buf count m w. (0, m, w);
  write = λ fd buf count m w. (count, w);
  lseek = λ fd offset whence w. (offset, w);
  unlink = λ name m w. (0, w);
}

abbrev pub env : Surroundings (List ℕ)
env = record {
  vm_start = 0x1000;
  path = [];
  arguments = [];
  vars = [];
  libc = nothing;
  host = record { open_tap = some 3; mac_address = λ _. found (2 ∷ 0 ∷ 0 ∷ 0 ∷ 0 ∷ 1 ∷ []) };
  print = λ bytes w. some (w ++ bytes);
  tx = none;
  fuel = 100;
}

-- The guest's word at 0x20 is 7.
abbrev pub machine : Machine (List ℕ)
machine = record {
  memory = λ a. if a == 0x1020 then 7 else 0;
  card = new;
  pci_addr = none;
  sent = [];
  world = [];
}

abbrev pub word : ℕ → Slice
word n = record { bytes = λ a. if a == 0 then n else 0; len = 4 }

pub halted : handle_exit env machine hlt ≡ resumes machine (record { bytes = λ _. 0; len = 0 })
unfolding handle_exit
halted = refl
