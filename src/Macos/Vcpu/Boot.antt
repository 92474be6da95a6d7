-- ===== src/Macos/Vcpu/Boot.antt =====
-- `init` of src/macos/vcpu.rs and the set-up functions that it calls: the writes to the registers and
-- to the VMCS, in the order of the source.
use uhyve.Macos.Vcpu.Fields.{
  ctrl_cpu_based, ctrl_cpu_based2, ctrl_cr0_mask, ctrl_cr0_shadow, ctrl_cr4_mask, ctrl_cr4_shadow,
  ctrl_exc_bitmap, ctrl_pin_based, ctrl_tpr_threshold, ctrl_vmentry_controls, ctrl_vmexit_controls,
  guest_cs_ar, guest_cs_base, guest_cs_limit, guest_ds_ar, guest_ds_base, guest_ds_limit,
  guest_es_ar, guest_es_base, guest_es_limit, guest_fs_ar, guest_fs_base, guest_fs_limit,
  guest_gdtr_base, guest_gdtr_limit, guest_gs_ar, guest_gs_base, guest_gs_limit, guest_ia32_efer,
  guest_idtr_base, guest_idtr_limit, guest_ldtr, guest_ldtr_ar, guest_ldtr_base, guest_ldtr_limit,
  guest_ss_ar, guest_ss_base, guest_ss_limit, guest_sysenter_eip, guest_sysenter_esp, guest_tr,
  guest_tr_ar, guest_tr_base, guest_tr_limit,
}
use uhyve.Macos.Vcpu.Controls.{
  VmxCap, cap_entry, cap_exit, cap_pinbased, cap_procbased, cap_procbased2,
}
use uhyve.Macos.Vcpu.Numbers.{
  tsc, ia32_cstar, ia32_fmask, ia32_fs_base, ia32_gs_base, ia32_kernel_gsbase, ia32_lstar,
  ia32_star, ia32_sysenter_cs, ia32_sysenter_eip, ia32_sysenter_esp, ia32_tsc_aux,
}
use uhyve.Macos.Vcpu.{
  cs, ds, es, ss, fs, gs, cr0, cr3, cr4, dr7, rip, rflags, rsp, rbp, rax, rbx, rcx, rdx, rsi, rdi,
  r8, r9, r10, r11, r12, r13, r14, r15, Register, UhyveCpu, Vcpu, write_register, write_vmcs,
}
use uhyve.Linux.Vcpu.Setup.{boot_gdt_max, cr0_bits, efer_lma, efer_lme}
use uhyve.Consts.{boot_gdt, boot_info_addr, boot_pml4}
use uhyve.Prelude.{List, [], bit_or, shl64, ℕ, ◌*◌, ◌++◌, ◌-◌, ◌^◌, ◌∷◌}
pub mod Alike

abbrev pub kernel_code : ℕ
kernel_code = shl64 1 3

abbrev pub kernel_data : ℕ
kernel_data = shl64 2 3

-- PHYSICAL_ADDRESS_EXTENSION and VIRTUAL_MACHINE_EXTENSIONS
abbrev pub cr4_bits : ℕ
cr4_bits = bit_or (2 ^ 5) (2 ^ 13)

-- One call on the virtual CPU.
pub data Write : Type 0 where
  set_register : Register → ℕ → Write
  set_field : (field value : ℕ) → Write
  native_msr : ℕ → Write

unfoldable pub setup_system_gdt : List Write
setup_system_gdt =
    set_field guest_cs_limit 0
    ∷ set_field guest_cs_base 0
    ∷ set_field guest_cs_ar 0x209b
    ∷ set_field guest_ss_limit 0
    ∷ set_field guest_ss_base 0
    ∷ set_field guest_ss_ar 0x4093
    ∷ set_field guest_ds_limit 0
    ∷ set_field guest_ds_base 0
    ∷ set_field guest_ds_ar 0x4093
    ∷ set_field guest_es_limit 0
    ∷ set_field guest_es_base 0
    ∷ set_field guest_es_ar 0x4093
    ∷ set_field guest_fs_limit 0
    ∷ set_field guest_fs_base 0
    ∷ set_field guest_fs_ar 0x4093
    ∷ set_field guest_gs_limit 0
    ∷ set_field guest_gs_base 0
    ∷ set_field guest_gs_ar 0x4093
    ∷ set_field guest_gdtr_base boot_gdt
    ∷ set_field guest_gdtr_limit (8 * boot_gdt_max - 1)
    ∷ set_field guest_idtr_base 0
    ∷ set_field guest_idtr_limit 0xffff
    ∷ set_field guest_tr 0
    ∷ set_field guest_tr_limit 0xffff
    ∷ set_field guest_tr_ar 0x8b
    ∷ set_field guest_tr_base 0
    ∷ set_field guest_ldtr 0
    ∷ set_field guest_ldtr_limit 0xffff
    ∷ set_field guest_ldtr_ar 0x82
    ∷ set_field guest_ldtr_base 0
    ∷ set_register cs kernel_code
    ∷ set_register ds kernel_data
    ∷ set_register es kernel_data
    ∷ set_register ss kernel_data
    ∷ set_register fs kernel_data
    ∷ set_register gs kernel_data
    ∷ []

unfoldable pub setup_system_64bit : List Write
setup_system_64bit =
    set_field guest_ia32_efer (bit_or efer_lme efer_lma)
    ∷ set_field ctrl_cr0_mask (bit_or (bit_or (2 ^ 30) (2 ^ 29)) cr0_bits)
    ∷ set_field ctrl_cr0_shadow cr0_bits
    ∷ set_field ctrl_cr4_mask cr4_bits
    ∷ set_field ctrl_cr4_shadow cr4_bits
    ∷ set_register cr0 cr0_bits
    ∷ set_register cr4 cr4_bits
    ∷ set_register cr3 boot_pml4
    ∷ set_register dr7 0
    ∷ set_field guest_sysenter_esp 0
    ∷ set_field guest_sysenter_eip 0
    ∷ []

unfoldable pub setup_msr : List Write
setup_msr =
    native_msr ia32_fs_base
    ∷ native_msr ia32_gs_base
    ∷ native_msr ia32_kernel_gsbase
    ∷ native_msr ia32_sysenter_cs
    ∷ native_msr ia32_sysenter_eip
    ∷ native_msr ia32_sysenter_esp
    ∷ native_msr ia32_star
    ∷ native_msr ia32_lstar
    ∷ native_msr ia32_cstar
    ∷ native_msr ia32_fmask
    ∷ native_msr tsc
    ∷ native_msr ia32_tsc_aux
    ∷ []

unfoldable pub setup_capabilities : VmxCap → List Write
setup_capabilities caps =
    set_field ctrl_pin_based (cap_pinbased caps)
    ∷ set_field ctrl_cpu_based (cap_procbased caps)
    ∷ set_field ctrl_cpu_based2 (cap_procbased2 caps)
    ∷ set_field ctrl_vmentry_controls (cap_entry caps)
    ∷ set_field ctrl_vmexit_controls (cap_exit caps)
    ∷ []

unfoldable pub general_registers : (entry_point : ℕ) → List Write
general_registers entry_point =
    set_field ctrl_exc_bitmap (bit_or (2 ^ 3) (2 ^ 1))
    ∷ set_field ctrl_tpr_threshold 0
    ∷ set_field guest_sysenter_eip 0
    ∷ set_field guest_sysenter_esp 0
    ∷ set_register rip entry_point
    ∷ set_register rflags 2
    ∷ set_register rsp (0x20_0000 - 0x1000)
    ∷ set_register rbp 0
    ∷ set_register rax 0
    ∷ set_register rbx 0
    ∷ set_register rcx 0
    ∷ set_register rdx 0
    ∷ set_register rsi 0
    ∷ set_register rdi boot_info_addr
    ∷ set_register r8 0
    ∷ set_register r9 0
    ∷ set_register r10 0
    ∷ set_register r11 0
    ∷ set_register r12 0
    ∷ set_register r13 0
    ∷ set_register r14 0
    ∷ set_register r15 0
    ∷ []

-- The writes of `init`, in their order.
unfoldable pub init_writes : VmxCap → (entry_point : ℕ) → List Write
unfolding setup_system_gdt setup_system_64bit setup_msr setup_capabilities general_registers
init_writes caps entry_point =
    setup_capabilities caps
    ++ setup_msr
    ++ general_registers entry_point
    ++ setup_system_gdt
    ++ setup_system_64bit

module _ {V : Type 0} (x : Vcpu V) where
  unfoldable pub make : Write → V → V
  make (set_register r n) v = x.write_register r n v
  make (set_field f n) v = x.write_vmcs f n v
  make (native_msr n) v = x.enable_native_msr n v

  unfoldable pub make_all : List Write → V → V
  unfolding make
  make_all [] v = v
  make_all (w ∷ ws) v = make_all ws (make w v)

  unfoldable pub init : VmxCap → (entry_point : ℕ) → UhyveCpu V → UhyveCpu V
  unfolding init_writes make_all
  init caps entry_point c = record c { vcpu = make_all (init_writes caps entry_point) c.vcpu }
