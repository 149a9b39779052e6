-- ===== src/Platform/Windows/Keycode/Native.antt =====
-- src/platform/windows/keycode.rs: from virtual-key codes to keys, and the codes of the media keys.
use keymapper_rs.Prelude.{
  ℕ, List, [], ◌∷◌, Option, none, some, ◌==◌, ◌&&◌, if◌then◌else◌, map_get, ℕ_discrete,
}
use mathlib.Core.Option
use keymapper_rs.Common.HidUsage.{HidUsage, page, id, page_consumer}
use keymapper_rs.Platform.Windows.Keycode.{Key, to_hid_usage}

-- The arms of `from_native`, in order.
unfoldable pub native_arms : List (ℕ × Key)
native_arms =
    (0xA2, Key.left_control)
    ∷ (0xA3, Key.right_control)
    ∷ (0xA0, Key.left_shift)
    ∷ (0xA1, Key.right_shift)
    ∷ (0xA4, Key.left_alt)
    ∷ (0xA5, Key.right_alt)
    ∷ (0x5B, Key.left_command)
    ∷ (0x5C, Key.right_command)
    ∷ (0x5D, Key.menu)
    ∷ (0x14, Key.caps_lock)
    ∷ (0x09, Key.tab)
    ∷ (0x20, Key.space)
    ∷ (0x0D, Key.return)
    ∷ (0x08, Key.backspace)
    ∷ (0x2E, Key.delete)
    ∷ (0x1B, Key.escape)
    ∷ (0x26, Key.up_arrow)
    ∷ (0x28, Key.down_arrow)
    ∷ (0x25, Key.left_arrow)
    ∷ (0x27, Key.right_arrow)
    ∷ (0x21, Key.page_up)
    ∷ (0x22, Key.page_down)
    ∷ (0x23, Key.home)
    ∷ (0x24, Key.end)
    ∷ (0x2C, Key.print_screen)
    ∷ (0x2D, Key.insert)
    ∷ (0x13, Key.pause)
    ∷ (0x70, Key.f1)
    ∷ (0x71, Key.f2)
    ∷ (0x72, Key.f3)
    ∷ (0x73, Key.f4)
    ∷ (0x74, Key.f5)
    ∷ (0x75, Key.f6)
    ∷ (0x76, Key.f7)
    ∷ (0x77, Key.f8)
    ∷ (0x78, Key.f9)
    ∷ (0x79, Key.f10)
    ∷ (0x7A, Key.f11)
    ∷ (0x7B, Key.f12)
    ∷ (0x41, Key.key_a)
    ∷ (0x42, Key.key_b)
    ∷ (0x43, Key.key_c)
    ∷ (0x44, Key.key_d)
    ∷ (0x45, Key.key_e)
    ∷ (0x46, Key.key_f)
    ∷ (0x47, Key.key_g)
    ∷ (0x48, Key.key_h)
    ∷ (0x49, Key.key_i)
    ∷ (0x4A, Key.key_j)
    ∷ (0x4B, Key.key_k)
    ∷ (0x4C, Key.key_l)
    ∷ (0x4D, Key.key_m)
    ∷ (0x4E, Key.key_n)
    ∷ (0x4F, Key.key_o)
    ∷ (0x50, Key.key_p)
    ∷ (0x51, Key.key_q)
    ∷ (0x52, Key.key_r)
    ∷ (0x53, Key.key_s)
    ∷ (0x54, Key.key_t)
    ∷ (0x55, Key.key_u)
    ∷ (0x56, Key.key_v)
    ∷ (0x57, Key.key_w)
    ∷ (0x58, Key.key_x)
    ∷ (0x59, Key.key_y)
    ∷ (0x5A, Key.key_z)
    ∷ (0x31, Key.number1)
    ∷ (0x32, Key.number2)
    ∷ (0x33, Key.number3)
    ∷ (0x34, Key.number4)
    ∷ (0x35, Key.number5)
    ∷ (0x36, Key.number6)
    ∷ (0x37, Key.number7)
    ∷ (0x38, Key.number8)
    ∷ (0x39, Key.number9)
    ∷ (0x30, Key.number0)
    ∷ (0x60, Key.numpad0)
    ∷ (0x61, Key.numpad1)
    ∷ (0x62, Key.numpad2)
    ∷ (0x63, Key.numpad3)
    ∷ (0x64, Key.numpad4)
    ∷ (0x65, Key.numpad5)
    ∷ (0x66, Key.numpad6)
    ∷ (0x67, Key.numpad7)
    ∷ (0x68, Key.numpad8)
    ∷ (0x69, Key.numpad9)
    ∷ (0x6E, Key.numpad_decimal)
    ∷ (0x6A, Key.numpad_multiply)
    ∷ (0x6B, Key.numpad_plus)
    ∷ (0x6F, Key.numpad_divide)
    ∷ (0x92, Key.numpad_enter)
    ∷ (0x6D, Key.numpad_minus)
    ∷ (0x90, Key.num_lock)
    ∷ (0xBD, Key.minus)
    ∷ (0xBB, Key.equal)
    ∷ (0xDB, Key.bracket_left)
    ∷ (0xDD, Key.bracket_right)
    ∷ (0xDC, Key.backslash)
    ∷ (0xBA, Key.semicolon)
    ∷ (0xDE, Key.quote)
    ∷ (0xBC, Key.comma)
    ∷ (0xBE, Key.period)
    ∷ (0xBF, Key.slash)
    ∷ (0xC0, Key.grave)
    ∷ (0xE2, Key.iso_extra)
    ∷ (0xB3, Key.play_pause)
    ∷ (0xAF, Key.volume_up)
    ∷ (0xAE, Key.volume_down)
    ∷ (0xAD, Key.mute)
    ∷ (0xB0, Key.next_track)
    ∷ (0xB1, Key.previous_track)
    ∷ (0xB2, Key.stop)
    ∷ []

unfoldable pub from_native : ℕ → Option Key
unfolding native_arms map_get ℕ_discrete
from_native code = map_get ℕ_discrete code native_arms

unfoldable pub hid_to_vk : HidUsage → Option ℕ
unfolding page id
hid_to_vk usage =
    if page usage == page_consumer && id usage == 0xCD
    then some 0xB3
    else if page usage == page_consumer && id usage == 0xE9
    then some 0xAF
    else if page usage == page_consumer && id usage == 0xEA
    then some 0xAE
    else if page usage == page_consumer && id usage == 0xE2
    then some 0xAD
    else if page usage == page_consumer && id usage == 0xB5
    then some 0xB0
    else if page usage == page_consumer && id usage == 0xB6
    then some 0xB1
    else if page usage == page_consumer && id usage == 0xB7
    then some 0xB2
    else none

unfoldable pub keycode_to_hid_usage : ℕ → Option HidUsage
unfolding from_native to_hid_usage
keycode_to_hid_usage vk_code = Option.map to_hid_usage (from_native vk_code)
