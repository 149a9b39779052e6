-- ===== src/Common/HidUsage/Names.antt =====
-- src/common/hid_usage.rs: the names of the keys.
use keymapper_rs.Prelude.{◌≡◌, refl, some}
use keymapper_rs.Common.HidUsage.{HidUsage, as_str, try_from}

-- Every key is parsed back from its canonical name.
pub try_from-as_str : (u : HidUsage) → try_from (as_str u) ≡ some u
unfolding try_from
try_from-as_str HidUsage.left_control = refl
try_from-as_str _ = refl
