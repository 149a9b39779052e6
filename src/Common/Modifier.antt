-- ===== src/Common/Modifier.antt =====
-- src/common/modifier.rs: the roles of the modifier keys, which are the bit positions of a mask.
use keymapper_rs.Prelude.{
  ℕ, ◌+◌, ◌-◌, ◌^◌, ◌<◌, ◌≡◌, refl, Option, none, some, ◌&&◌, arith, ltb, ◌==◌, if◌then◌else◌,
}

pub data ModifierRole : Type 0 where
  left_control left_shift left_alt left_command : ModifierRole
  right_control right_shift right_alt right_command : ModifierRole

-- `self as u8`.
unfoldable pub role_bit : ModifierRole → ℕ
role_bit left_control = 0
role_bit left_shift = 1
role_bit left_alt = 2
role_bit left_command = 3
role_bit right_control = 4
role_bit right_shift = 5
role_bit right_alt = 6
role_bit right_command = 7

unfoldable pub mask : ModifierRole → ℕ
unfolding role_bit
mask r = 2 ^ role_bit r

unfoldable pub try_from_bit : ℕ → Option ModifierRole
try_from_bit bit =
    if bit == 0
    then some left_control
    else if bit == 1
    then some left_shift
    else if bit == 2
    then some left_alt
    else if bit == 3
    then some left_command
    else if bit == 4
    then some right_control
    else if bit == 5
    then some right_shift
    else if bit == 6
    then some right_alt
    else if bit == 7
    then some right_command
    else none

unfoldable pub hid_id : ModifierRole → ℕ
unfolding role_bit
hid_id r = 0xE0 + role_bit r

unfoldable pub from_hid_id : ℕ → Option ModifierRole
unfolding try_from_bit
from_hid_id id = if ltb 0xDF id && ltb id 0xE8 then try_from_bit (id - 0xE0) else none

pub role_bit-lt : (r : ModifierRole) → role_bit r < 8
unfolding role_bit
role_bit-lt left_control = omega arith
role_bit-lt _ = omega arith

-- `hid_id` and `from_hid_id` are inverse, and so are `role_bit` and `try_from_bit`.
pub from_hid_id-hid_id :
    (r : ModifierRole) → (from_hid_id (hid_id r) ≡ some r) × (try_from_bit (role_bit r) ≡ some r)
unfolding from_hid_id hid_id
from_hid_id-hid_id left_control = (refl, refl)
from_hid_id-hid_id _ = (refl, refl)

-- A role comes only from its own id.
pub from_hid_id-eq_some : (id : ℕ) (r : ModifierRole) → from_hid_id id ≡ some r → id ≡ hid_id r
unfolding from_hid_id hid_id
from_hid_id-eq_some id r h = ground arith
