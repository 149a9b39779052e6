-- ===== src/Examples/Keys.antt =====
-- Keys, their codes, names and modifier bits.
use keymapper_rs.Prelude.{refl}
use keymapper_rs.Prelude.{◌∷◌, arith, []}
use keymapper_rs.Prelude.{◌+◌, ◌<◌, ◌≡◌, ◌↔◌, some}
use keymapper_rs.Common.HidUsage.{
  HidUsage, code, from_code, hid_usage_to_modifier_bit, as_str, try_from,
}
use keymapper_rs.Common.Frame.{Result}
use keymapper_rs.Common.Config.{KeyEvent}
use keymapper_rs.Common.KeyEvents.{fmt, parse_event}
use keymapper_rs.Common.KeyEvents.RoundTrip.{parse_event-fmt}
use keymapper_rs.Common.HidUsage.Codes.{from_code-code, hid_usage_to_modifier_bit_iff}
use keymapper_rs.Common.HidUsage.Names.{try_from-as_str}

from_code-code_example : from_code (code HidUsage.right_alt) ≡ some HidUsage.right_alt
from_code-code_example = from_code-code HidUsage.right_alt

hid_usage_to_modifier_bit_iff_example :
    (hid_usage_to_modifier_bit HidUsage.right_alt ≡ some 6)
    ↔ ((6 < 8) × (code HidUsage.right_alt ≡ 0x0700E0 + 6))
hid_usage_to_modifier_bit_iff_example = hid_usage_to_modifier_bit_iff HidUsage.right_alt 6

try_from-as_str_example : try_from (as_str HidUsage.right_alt) ≡ some HidUsage.right_alt
try_from-as_str_example = try_from-as_str HidUsage.right_alt

-- Ctrl and Shift held while pressing A.
abbrev chord_a : KeyEvent
chord_a = record {
  modifiers = HidUsage.left_control ∷ HidUsage.left_shift ∷ [];
  base = HidUsage.key_a;
}

-- The trimming does nothing here, since the canonical names have no white space.
parse_event-fmt_example : parse_event (λ s. s) (fmt chord_a) ≡ Result.ok chord_a
parse_event-fmt_example = parse_event-fmt (λ s. s) (λ u. refl) chord_a (omega arith)
