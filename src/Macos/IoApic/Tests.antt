-- ===== src/Macos/IoApic/Tests.antt =====
-- The interrupt controller of macos/ioapic.rs.
use uhyve.Prelude.{length, refl, ◌≡◌}
use uhyve.Macos.IoApic.{new}

new-size : length new.rtbl ≡ 64
unfolding new
new-size = refl
