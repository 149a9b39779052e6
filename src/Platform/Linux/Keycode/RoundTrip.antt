-- ===== src/Platform/Linux/Keycode/RoundTrip.antt =====
-- src/platform/linux/keycode.rs: both directions of the translation together.
use keymapper_rs.Prelude.{
  ℕ, ◌≡◌, ◌↔◌, refl, ap, sym, ◌∙◌, true, some, ◌==◌, ==_iff, map_get-entries_pass, ℕ_discrete,
  entries_pass, Option-cases, inl, inr,
}
use mathlib.Core.Option
use keymapper_rs.Common.HidUsage.{HidUsage}
use keymapper_rs.Platform.Linux.Keycode.{Keycode, as_native, native_arms, from_native}
use keymapper_rs.Platform.Linux.Keycode.Usage.{
  from_hid_usage, to_hid_usage, hid_usage_to_keycode, keycode_to_hid_usage,
}

from_native-as_native : (k : Keycode) → from_native (as_native k) ≡ some k
unfolding from_native as_native
from_native-as_native Keycode.left_control = refl
from_native-as_native _ = refl

from_hid_usage-to_hid_usage : (k : Keycode) → from_hid_usage (to_hid_usage k) ≡ some k
unfolding from_hid_usage to_hid_usage
from_hid_usage-to_hid_usage Keycode.left_control = refl
from_hid_usage-to_hid_usage _ = refl

arms_pass : entries_pass ℕ_discrete (λ code k. as_native k == code) native_arms ≡ true
unfolding entries_pass native_arms as_native
arms_pass = refl

from_native-eq_some : (code : ℕ) (k : Keycode) → from_native code ≡ some k → as_native k ≡ code
unfolding from_native
from_native-eq_some code k h =
    (==_iff (as_native k) code).0 (
      map_get-entries_pass ℕ_discrete (λ code k. as_native k == code) native_arms code k arms_pass
        h)

from_hid_usage_known :
    (u : HidUsage) → (k : Keycode) × (from_hid_usage u ≡ some k) × (to_hid_usage k ≡ u)
unfolding from_hid_usage to_hid_usage
from_hid_usage_known HidUsage.left_control = (Keycode.left_control, refl, refl)
from_hid_usage_known _ = (_, refl, refl)

code_of_usage :
    (usage : HidUsage) (code : ℕ)
    → hid_usage_to_keycode usage ≡ some code
    → keycode_to_hid_usage code ≡ some usage
unfolding hid_usage_to_keycode keycode_to_hid_usage
code_of_usage usage code h =
    let (k, known, back) = from_hid_usage_known usage in
    let native : Option.map as_native (some k) ≡ some code =
      ap (Option.map as_native) (sym known) ∙ h in
    let found : from_native code ≡ some k = cc (native, from_native-as_native k) in
    ap (Option.map to_hid_usage) found ∙ ap some back

usage_of_code :
    (usage : HidUsage) (code : ℕ)
    → keycode_to_hid_usage code ≡ some usage
    → hid_usage_to_keycode usage ≡ some code
unfolding hid_usage_to_keycode keycode_to_hid_usage
usage_of_code usage code h = elim (Option-cases (from_native code)) [
  | inl absent ↦ cc (ap (Option.map to_hid_usage) absent, h)
  | inr (k, found) ↦
      let same_usage : to_hid_usage k ≡ usage = cc (ap (Option.map to_hid_usage) found, h) in
      ap (λ u. Option.map as_native (from_hid_usage u)) (sym same_usage)
      ∙ ap (Option.map as_native) (from_hid_usage-to_hid_usage k)
      ∙ ap some (from_native-eq_some code k found)
]

-- The two translations are inverse: a key has the code `code` exactly when the code is that of the
-- key, and every key has a code.
pub hid_usage_to_keycode_iff :
    (usage : HidUsage) (code : ℕ)
    → ((hid_usage_to_keycode usage ≡ some code) ↔ (keycode_to_hid_usage code ≡ some usage))
      × ((c : ℕ) × (hid_usage_to_keycode usage ≡ some c))
unfolding hid_usage_to_keycode
hid_usage_to_keycode_iff usage code =
    let (k, known, back) = from_hid_usage_known usage in
    (
      (code_of_usage usage code, usage_of_code usage code),
      (as_native k, ap (Option.map as_native) known),
    )
