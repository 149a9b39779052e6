-- ===== src/Platform/Windows/Keycode/RoundTrip.antt =====
-- src/platform/windows/keycode.rs: the translations together.
use keymapper_rs.Prelude.{ℕ, ◌≡◌, ◌⊎◌, refl, Bool, true, Option, none, some, inl, inr}
use keymapper_rs.Common.HidUsage.{HidUsage}
use keymapper_rs.Platform.Windows.Keycode.{Key, as_native, from_hid_usage}
use keymapper_rs.Platform.Windows.Keycode.Native.{from_native, hid_to_vk, keycode_to_hid_usage}

from_native-as_native : (k : Key) → from_native (as_native k) ≡ some k
unfolding from_native as_native
from_native-as_native Key.left_control = refl
from_native-as_native _ = refl

-- The virtual-key code that stands for a usage: that of its key, or of the media key.
abbrev pub vk_of : HidUsage → Option ℕ
vk_of usage = elim (from_hid_usage usage) [ some k ↦ some (as_native k) | none ↦ hid_to_vk usage ]

-- The usages without a virtual-key code.
abbrev pub lacks_vk : HidUsage → Bool
lacks_vk HidUsage.numpad_equal = true
lacks_vk HidUsage.scroll_lock = true
lacks_vk HidUsage.brightness_up = true
lacks_vk HidUsage.brightness_down = true
lacks_vk _ = Bool.false

-- The code of a usage, for emission, is one that is read back as the usage; only four usages, the
-- numpad's equal sign, the scroll lock and the brightness keys, have none.
pub keycode_to_hid_usage-vk_of :
    (usage : HidUsage)
    → ((lacks_vk usage ≡ true) × (vk_of usage ≡ none))
      ⊎ ((vk : ℕ) × (vk_of usage ≡ some vk) × (keycode_to_hid_usage vk ≡ some usage))
unfolding from_hid_usage hid_to_vk as_native keycode_to_hid_usage
keycode_to_hid_usage-vk_of HidUsage.numpad_equal = inl (refl, refl)
keycode_to_hid_usage-vk_of HidUsage.scroll_lock = inl (refl, refl)
keycode_to_hid_usage-vk_of HidUsage.brightness_up = inl (refl, refl)
keycode_to_hid_usage-vk_of HidUsage.brightness_down = inl (refl, refl)
keycode_to_hid_usage-vk_of _ = inr (_, refl, refl)
