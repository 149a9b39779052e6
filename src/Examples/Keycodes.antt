-- ===== src/Examples/Keycodes.antt =====
-- The key codes of the systems.
use keymapper_rs.Prelude.{ℕ, ◌≡◌, ◌↔◌, ◌⊎◌, refl, true, some, none}
use keymapper_rs.Common.HidUsage.{HidUsage, id, page, page_keyboard}
use keymapper_rs.Platform.Linux.Keycode.Usage
use keymapper_rs.Platform.Linux.Keycode.RoundTrip.{hid_usage_to_keycode_iff}
use keymapper_rs.Platform.Windows.Keycode.{Key}
use keymapper_rs.Platform.Windows.Keycode.Native
use keymapper_rs.Platform.Windows.Keycode.Names.{as_str, try_from_str, try_from_str-as_str}
use keymapper_rs.Platform.Windows.Keycode.RoundTrip.{vk_of, lacks_vk, keycode_to_hid_usage-vk_of}
use keymapper_rs.Platform.Macos.Keycode
use keymapper_rs.Platform.Macos.Keycode.{cg_keycode_to_hid_usage}
use keymapper_rs.Platform.Macos.Keycode.Known.{keycode_to_hid_usage_known}

hid_usage_to_keycode_iff_example :
    ((Usage.hid_usage_to_keycode HidUsage.key_a ≡ some 30)
      ↔ (Usage.keycode_to_hid_usage 30 ≡ some HidUsage.key_a))
    × ((c : ℕ) × (Usage.hid_usage_to_keycode HidUsage.key_a ≡ some c))
hid_usage_to_keycode_iff_example = hid_usage_to_keycode_iff HidUsage.key_a 30

try_from_str-as_str_example : try_from_str (as_str Key.right_alt) ≡ some Key.right_alt
try_from_str-as_str_example = try_from_str-as_str Key.right_alt

keycode_to_hid_usage-vk_of_example :
    ((lacks_vk HidUsage.mute ≡ true) × (vk_of HidUsage.mute ≡ none))
    ⊎ ((vk : ℕ) × (vk_of HidUsage.mute ≡ some vk)
        × (Native.keycode_to_hid_usage vk ≡ some HidUsage.mute))
keycode_to_hid_usage-vk_of_example = keycode_to_hid_usage-vk_of HidUsage.mute

left_arrow_arm : cg_keycode_to_hid_usage 0x7B ≡ some 0x50
unfolding cg_keycode_to_hid_usage
left_arrow_arm = refl

keycode_to_hid_usage_known_example :
    ((u : HidUsage) × (Keycode.keycode_to_hid_usage 0x7B ≡ some u)
      × (id u ≡ 0x50)
      × (page u ≡ page_keyboard))
    × ((other : ℕ) → cg_keycode_to_hid_usage other ≡ some 0x50 → other ≡ 0x7B)
keycode_to_hid_usage_known_example = keycode_to_hid_usage_known 0x7B 0x50 left_arrow_arm
