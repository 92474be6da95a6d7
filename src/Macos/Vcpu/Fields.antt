-- ===== src/Macos/Vcpu/Fields.antt =====
-- The fields of the VMCS that src/macos/vcpu.rs uses, as the processor's manual numbers
-- them.
use uhyve.Prelude.{ℕ}

abbrev pub guest_physical_address : ℕ
guest_physical_address = 0x2400

abbrev pub guest_ia32_efer : ℕ
guest_ia32_efer = 0x2806

abbrev pub ctrl_pin_based : ℕ
ctrl_pin_based = 0x4000

abbrev pub ctrl_cpu_based : ℕ
ctrl_cpu_based = 0x4002

abbrev pub ctrl_exc_bitmap : ℕ
ctrl_exc_bitmap = 0x4004

abbrev pub ctrl_vmexit_controls : ℕ
ctrl_vmexit_controls = 0x400c

abbrev pub ctrl_vmentry_controls : ℕ
ctrl_vmentry_controls = 0x4012

abbrev pub ctrl_tpr_threshold : ℕ
ctrl_tpr_threshold = 0x401c

abbrev pub ctrl_cpu_based2 : ℕ
ctrl_cpu_based2 = 0x401e

abbrev pub ro_exit_reason : ℕ
ro_exit_reason = 0x4402

abbrev pub ro_vmexit_irq_info : ℕ
ro_vmexit_irq_info = 0x4404

abbrev pub ro_vmexit_instr_len : ℕ
ro_vmexit_instr_len = 0x440c

abbrev pub guest_ldtr : ℕ
guest_ldtr = 0x80c

abbrev pub guest_tr : ℕ
guest_tr = 0x80e

abbrev pub guest_es_limit : ℕ
guest_es_limit = 0x4800

abbrev pub guest_cs_limit : ℕ
guest_cs_limit = 0x4802

abbrev pub guest_ss_limit : ℕ
guest_ss_limit = 0x4804

abbrev pub guest_ds_limit : ℕ
guest_ds_limit = 0x4806

abbrev pub guest_fs_limit : ℕ
guest_fs_limit = 0x4808

abbrev pub guest_gs_limit : ℕ
guest_gs_limit = 0x480a

abbrev pub guest_ldtr_limit : ℕ
guest_ldtr_limit = 0x480c

abbrev pub guest_tr_limit : ℕ
guest_tr_limit = 0x480e

abbrev pub guest_gdtr_limit : ℕ
guest_gdtr_limit = 0x4810

abbrev pub guest_idtr_limit : ℕ
guest_idtr_limit = 0x4812

abbrev pub guest_es_ar : ℕ
guest_es_ar = 0x4814

abbrev pub guest_cs_ar : ℕ
guest_cs_ar = 0x4816

abbrev pub guest_ss_ar : ℕ
guest_ss_ar = 0x4818

abbrev pub guest_ds_ar : ℕ
guest_ds_ar = 0x481a

abbrev pub guest_fs_ar : ℕ
guest_fs_ar = 0x481c

abbrev pub guest_gs_ar : ℕ
guest_gs_ar = 0x481e

abbrev pub guest_ldtr_ar : ℕ
guest_ldtr_ar = 0x4820

abbrev pub guest_tr_ar : ℕ
guest_tr_ar = 0x4822

abbrev pub ctrl_cr0_mask : ℕ
ctrl_cr0_mask = 0x6000

abbrev pub ctrl_cr4_mask : ℕ
ctrl_cr4_mask = 0x6002

abbrev pub ctrl_cr0_shadow : ℕ
ctrl_cr0_shadow = 0x6004

abbrev pub ctrl_cr4_shadow : ℕ
ctrl_cr4_shadow = 0x6006

abbrev pub ro_exit_qualific : ℕ
ro_exit_qualific = 0x6400

abbrev pub guest_es_base : ℕ
guest_es_base = 0x6806

abbrev pub guest_cs_base : ℕ
guest_cs_base = 0x6808

abbrev pub guest_ss_base : ℕ
guest_ss_base = 0x680a

abbrev pub guest_ds_base : ℕ
guest_ds_base = 0x680c

abbrev pub guest_fs_base : ℕ
guest_fs_base = 0x680e

abbrev pub guest_gs_base : ℕ
guest_gs_base = 0x6810

abbrev pub guest_ldtr_base : ℕ
guest_ldtr_base = 0x6812

abbrev pub guest_tr_base : ℕ
guest_tr_base = 0x6814

abbrev pub guest_gdtr_base : ℕ
guest_gdtr_base = 0x6816

abbrev pub guest_idtr_base : ℕ
guest_idtr_base = 0x6818

abbrev pub guest_sysenter_esp : ℕ
guest_sysenter_esp = 0x6824

abbrev pub guest_sysenter_eip : ℕ
guest_sysenter_eip = 0x6826
