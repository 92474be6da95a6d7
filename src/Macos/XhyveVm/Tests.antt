-- ===== src/Macos/XhyveVm/Tests.antt =====
-- A machine of 64 MiB on macOS.
use uhyve.Consts.{boot_pde}
use uhyve.Macos.Vcpu.Translate.{virt_to_phys}
use uhyve.Macos.XhyveVm.{UhyveVm, Xhyve, cpu_online, create_cpu, new}
use uhyve.Macos.XhyveVm.Creation.{IsGranted, new-create_cpu}
use uhyve.Memory.{Memory}
use uhyve.Prelude.Attempt.{makes}
use uhyve.Prelude.{◌≤◌, ◌+◌, arith, false, none, refl, some, true, ℕ, ◌*◌, ◌<◌, ◌^◌, ◌≡◌}
use uhyve.Vm.Parameter.{Parameter}

abbrev xhyve : Xhyve
xhyve = record {
  mmap = λ size. some 0x1_0000_0000;
  create_vm = true;
  map_mem = λ host size guest. true;
}

abbrev specs : Parameter
specs = record {
  mem_size = 64 * 2 ^ 20;
  num_cpus = 2;
  verbose = false;
  hugepage = false;
  mergeable = false;
  ip = none;
  gateway = none;
  mask = none;
  nic = none;
  gdbport = none;
}

granted : IsGranted xhyve specs 0x1_0000_0000
granted = record { maps = refl; creates = refl; maps_guest = refl; room = omega arith }

new-create_cpu_example :
    (vm : UhyveVm) × (m' : Memory) × (new xhyve specs (λ _. 0) ≡ makes (vm, m'))
    × (vm.mem_size ≡ 64 * 2 ^ 20)
    × (boot_pde + 0x1000 ≤ vm.mem_size)
    × (vm.num_cpus ≡ 2)
    × (cpu_online vm m' ≡ 0)
    × ((addr : ℕ) → addr < 2 ^ 30 → virt_to_phys m' (create_cpu {V = ℕ} vm 5) addr ≡ addr)
new-create_cpu_example =
    new-create_cpu xhyve specs 0x1_0000_0000 (λ _. 0) {V = ℕ} 5 granted refl (omega arith)
