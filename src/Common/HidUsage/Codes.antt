-- ===== src/Common/HidUsage/Codes.antt =====
-- src/common/hid_usage.rs: the codes of the keys, and the block of the modifiers.
use keymapper_rs.Prelude.{ℕ, ◌+◌, ◌<◌, ◌≡◌, refl, ◌↔◌, some, arith, ap, true, ==_iff}
use keymapper_rs.Common.HidUsage.{HidUsage, code, from_code, usage_eq, hid_usage_to_modifier_bit}

-- Every usage is found again from its code.
pub from_code-code : (u : HidUsage) → from_code (code u) ≡ some u
unfolding from_code
from_code-code HidUsage.left_control = refl
from_code-code _ = refl

pub code_injective : (u v : HidUsage) → code u ≡ code v → u ≡ v
code_injective u v e = cc (from_code-code u, from_code-code v, ap from_code e)

pub usage_eq-eq : (u v : HidUsage) → usage_eq u v ≡ true → u ≡ v
unfolding usage_eq
usage_eq-eq u v h = code_injective u v ((==_iff (code u) (code v)).0 h)

pub usage_eq_self : (u : HidUsage) → usage_eq u u ≡ true
unfolding usage_eq
usage_eq_self u = ground arith

pub hid_usage_to_modifier_bit-lt :
    (u : HidUsage) (b : ℕ) → hid_usage_to_modifier_bit u ≡ some b → b < 8
unfolding hid_usage_to_modifier_bit
hid_usage_to_modifier_bit-lt HidUsage.left_control b h = ground arith
hid_usage_to_modifier_bit-lt _ b h = ground arith

-- A key is a modifier with bit `b` exactly when its code is the `b`-th of the eight from 0x0700E0.
pub hid_usage_to_modifier_bit_iff :
    (u : HidUsage) (b : ℕ)
    → (hid_usage_to_modifier_bit u ≡ some b) ↔ ((b < 8) × (code u ≡ 0x0700E0 + b))
unfolding hid_usage_to_modifier_bit
hid_usage_to_modifier_bit_iff HidUsage.left_control b = ground arith
hid_usage_to_modifier_bit_iff _ b = ground arith
