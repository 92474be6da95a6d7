-- ===== src/Macos/Vcpu/Numbers.antt =====
-- The model-specific registers and the reasons of an exit that src/macos/vcpu.rs names, as the
-- processor's manual numbers them.
use uhyve.Prelude.{ℕ}

abbrev pub ia32_efer : ℕ
ia32_efer = 0xc0000080

abbrev pub ia32_misc_enable : ℕ
ia32_misc_enable = 0x1a0

abbrev pub ia32_apic_base : ℕ
ia32_apic_base = 0x1b

abbrev pub ia32_x2apic_tpr : ℕ
ia32_x2apic_tpr = 0x808

abbrev pub ia32_x2apic_eoi : ℕ
ia32_x2apic_eoi = 0x80b

abbrev pub ia32_x2apic_sivr : ℕ
ia32_x2apic_sivr = 0x80f

abbrev pub ia32_x2apic_icr : ℕ
ia32_x2apic_icr = 0x830

abbrev pub ia32_x2apic_lvt_timer : ℕ
ia32_x2apic_lvt_timer = 0x832

abbrev pub ia32_x2apic_lvt_thermal : ℕ
ia32_x2apic_lvt_thermal = 0x833

abbrev pub ia32_x2apic_lvt_pmi : ℕ
ia32_x2apic_lvt_pmi = 0x834

abbrev pub ia32_x2apic_lvt_lint0 : ℕ
ia32_x2apic_lvt_lint0 = 0x835

abbrev pub ia32_x2apic_lvt_lint1 : ℕ
ia32_x2apic_lvt_lint1 = 0x836

abbrev pub ia32_x2apic_lvt_error : ℕ
ia32_x2apic_lvt_error = 0x837

abbrev pub ia32_fs_base : ℕ
ia32_fs_base = 0xc0000100

abbrev pub ia32_gs_base : ℕ
ia32_gs_base = 0xc0000101

abbrev pub ia32_kernel_gsbase : ℕ
ia32_kernel_gsbase = 0xc0000102

abbrev pub ia32_sysenter_cs : ℕ
ia32_sysenter_cs = 0x174

abbrev pub ia32_sysenter_esp : ℕ
ia32_sysenter_esp = 0x175

abbrev pub ia32_sysenter_eip : ℕ
ia32_sysenter_eip = 0x176

abbrev pub ia32_star : ℕ
ia32_star = 0xc0000081

abbrev pub ia32_lstar : ℕ
ia32_lstar = 0xc0000082

abbrev pub ia32_cstar : ℕ
ia32_cstar = 0xc0000083

abbrev pub ia32_fmask : ℕ
ia32_fmask = 0xc0000084

abbrev pub tsc : ℕ
tsc = 0x10

abbrev pub ia32_tsc_aux : ℕ
ia32_tsc_aux = 0xc0000103

abbrev pub reason_exc_nmi : ℕ
reason_exc_nmi = 0x0

abbrev pub reason_irq : ℕ
reason_irq = 0x1

abbrev pub reason_cpuid : ℕ
reason_cpuid = 0xa

abbrev pub reason_io : ℕ
reason_io = 0x1e

abbrev pub reason_rdmsr : ℕ
reason_rdmsr = 0x1f

abbrev pub reason_wrmsr : ℕ
reason_wrmsr = 0x20

abbrev pub reason_ept_violation : ℕ
reason_ept_violation = 0x30

abbrev pub reason_xsetbv : ℕ
reason_xsetbv = 0x37

abbrev pub reason_rdrand : ℕ
reason_rdrand = 0x39
