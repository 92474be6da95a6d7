-- ===== src/Macos/Vcpu/Boot/Alike.antt =====
-- What a virtual CPU on macOS starts with, compared with one on KVM.
use uhyve.Macos.Vcpu.Fields.{
  guest_cs_ar, guest_ds_ar, guest_es_ar, guest_ss_ar, guest_gdtr_base, guest_gdtr_limit,
  guest_ia32_efer,
}
use uhyve.Macos.Vcpu.Boot.{init, Write, init_writes, make_all, native_msr, set_field, set_register}
use uhyve.Macos.Vcpu.Controls.{VmxCap}
use uhyve.Linux.Vcpu.Setup.Segments.{descriptor_flags_of}
use uhyve.Linux.Vcpu.Setup.{Regs, Sregs, efer_nxe, setup_long_mode}
use uhyve.Prelude.{List, [], ap, if◌then◌else◌, refl, ℕ, ◌+◌, ◌==◌, ◌^◌, ◌∷◌, ◌≡◌}
use uhyve.Macos.Vcpu.{
  cs, ds, es, ss, cr0, cr3, cr4, rip, rflags, rdi, Register, Vcpu, IsStore, UhyveCpu, number,
  read_register, read_vmcs,
}

-- What a register, or a field, holds after the writes.
abbrev register_after : Register → List Write → ℕ → ℕ
register_after q [] d = d
register_after q (set_register r n ∷ ws) d =
    register_after q ws (if number q == number r then n else d)
register_after q (set_field f n ∷ ws) d = register_after q ws d
register_after q (native_msr n ∷ ws) d = register_after q ws d

abbrev field_after : ℕ → List Write → ℕ → ℕ
field_after f [] d = d
field_after f (set_register r n ∷ ws) d = field_after f ws d
field_after f (set_field g n ∷ ws) d = field_after f ws (if f == g then n else d)
field_after f (native_msr n ∷ ws) d = field_after f ws d

module _ {V : Type 0} (x : Vcpu V) (store : IsStore x) where
  read_register-make_all :
      (q : Register) (ws : List Write) (v : V)
      → x.read_register q (make_all x ws v) ≡ register_after q ws (x.read_register q v)
  unfolding make_all
  read_register-make_all q [] v = refl
  read_register-make_all q (set_register r n ∷ ws) v =
      rw (← store.read_write q r n v) (read_register-make_all q ws (x.write_register r n v))
  read_register-make_all q (set_field f n ∷ ws) v =
      rw (← store.read_write_vmcs q f n v) (read_register-make_all q ws (x.write_vmcs f n v))
  read_register-make_all q (native_msr n ∷ ws) v =
      rw (← store.read_native q n v) (read_register-make_all q ws (x.enable_native_msr n v))

  read_vmcs-make_all :
      (f : ℕ) (ws : List Write) (v : V)
      → x.read_vmcs f (make_all x ws v) ≡ field_after f ws (x.read_vmcs f v)
  unfolding make_all
  read_vmcs-make_all f [] v = refl
  read_vmcs-make_all f (set_register r n ∷ ws) v =
      rw (← store.vmcs_write f r n v) (read_vmcs-make_all f ws (x.write_register r n v))
  read_vmcs-make_all f (set_field g n ∷ ws) v =
      rw (← store.vmcs_write_vmcs f g n v) (read_vmcs-make_all f ws (x.write_vmcs g n v))
  read_vmcs-make_all f (native_msr n ∷ ws) v =
      rw (← store.vmcs_native f n v) (read_vmcs-make_all f ws (x.enable_native_msr n v))

  -- The two set-ups agree on the entry point, the boot information and the flags, on CR0 and CR3, on the
  -- selectors of CS, DS, ES and SS, and on the place and the limit of the table of descriptors. CR4 on
  -- macOS has the bit for VMX besides, and EFER lacks NXE; the access rights of CS lack the granularity
  -- bit, and those of DS, ES and SS lack it and have the D/B bit. Limits, the other segments and the
  -- other registers are not compared.
  pub init-setup_long_mode :
      (caps : VmxCap) (entry_point : ℕ) (c : UhyveCpu V) (sregs : Sregs) (regs : Regs)
      → let c' = init x caps entry_point c in
        let (s, g) = setup_long_mode entry_point sregs regs in
        (read_register x rip c' ≡ g.rip)
        × (read_register x rdi c' ≡ g.rdi)
        × (read_register x rflags c' ≡ g.rflags)
        × (read_register x cr0 c' ≡ s.cr0)
        × (read_register x cr3 c' ≡ s.cr3)
        × (read_register x cr4 c' ≡ s.cr4 + 2 ^ 13)
        × (read_register x cs c' ≡ s.cs.selector)
        × (read_register x ds c' ≡ s.ds.selector)
        × (read_register x es c' ≡ s.es.selector)
        × (read_register x ss c' ≡ s.ss.selector)
        × (read_vmcs x guest_gdtr_base c' ≡ s.gdt_base)
        × (read_vmcs x guest_gdtr_limit c' ≡ s.gdt_limit)
        × (read_vmcs x guest_cs_ar c' + 2 ^ 15 ≡ descriptor_flags_of s.cs)
        × (read_vmcs x guest_ds_ar c' + 2 ^ 15 ≡ descriptor_flags_of (record s.ds { db = 1 }))
        × (read_vmcs x guest_es_ar c' + 2 ^ 15 ≡ descriptor_flags_of (record s.es { db = 1 }))
        × (read_vmcs x guest_ss_ar c' + 2 ^ 15 ≡ descriptor_flags_of (record s.ss { db = 1 }))
        × (read_vmcs x guest_ia32_efer c' + efer_nxe ≡ s.efer)
  unfolding init init_writes setup_long_mode
  init-setup_long_mode caps entry_point c sregs regs =
      let ws = init_writes caps entry_point in
      let reg = λ (q : Register). read_register-make_all q ws c.vcpu in
      let field = λ (f : ℕ). read_vmcs-make_all f ws c.vcpu in
      (
        reg rip,
        reg rdi,
        reg rflags,
        reg cr0,
        reg cr3,
        reg cr4,
        reg cs,
        reg ds,
        reg es,
        reg ss,
        field guest_gdtr_base,
        field guest_gdtr_limit,
        ap (λ (t : ℕ). t + 2 ^ 15) (field guest_cs_ar),
        ap (λ (t : ℕ). t + 2 ^ 15) (field guest_ds_ar),
        ap (λ (t : ℕ). t + 2 ^ 15) (field guest_es_ar),
        ap (λ (t : ℕ). t + 2 ^ 15) (field guest_ss_ar),
        ap (λ (t : ℕ). t + efer_nxe) (field guest_ia32_efer),
      )
