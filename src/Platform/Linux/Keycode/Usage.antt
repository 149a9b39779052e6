-- ===== src/Platform/Linux/Keycode/Usage.antt =====
-- src/platform/linux/keycode.rs: the key codes and the key identities.
use keymapper_rs.Prelude.{ℕ, Option, some}
use mathlib.Core.Option
use keymapper_rs.Common.HidUsage.{HidUsage}
use keymapper_rs.Platform.Linux.Keycode.{Keycode, as_native, from_native}

unfoldable pub from_hid_usage : HidUsage → Option Keycode
from_hid_usage HidUsage.left_control = some Keycode.left_control
from_hid_usage HidUsage.right_control = some Keycode.right_control
from_hid_usage HidUsage.left_shift = some Keycode.left_shift
from_hid_usage HidUsage.right_shift = some Keycode.right_shift
from_hid_usage HidUsage.left_alt = some Keycode.left_alt
from_hid_usage HidUsage.right_alt = some Keycode.right_alt
from_hid_usage HidUsage.left_command = some Keycode.left_command
from_hid_usage HidUsage.right_command = some Keycode.right_command
from_hid_usage HidUsage.caps_lock = some Keycode.caps_lock
from_hid_usage HidUsage.tab = some Keycode.tab
from_hid_usage HidUsage.space = some Keycode.space
from_hid_usage HidUsage.return = some Keycode.return
from_hid_usage HidUsage.backspace = some Keycode.backspace
from_hid_usage HidUsage.delete = some Keycode.delete
from_hid_usage HidUsage.escape = some Keycode.escape
from_hid_usage HidUsage.up_arrow = some Keycode.up_arrow
from_hid_usage HidUsage.down_arrow = some Keycode.down_arrow
from_hid_usage HidUsage.left_arrow = some Keycode.left_arrow
from_hid_usage HidUsage.right_arrow = some Keycode.right_arrow
from_hid_usage HidUsage.page_up = some Keycode.page_up
from_hid_usage HidUsage.page_down = some Keycode.page_down
from_hid_usage HidUsage.home = some Keycode.home
from_hid_usage HidUsage.end = some Keycode.end
from_hid_usage HidUsage.print_screen = some Keycode.print_screen
from_hid_usage HidUsage.scroll_lock = some Keycode.scroll_lock
from_hid_usage HidUsage.pause = some Keycode.pause
from_hid_usage HidUsage.insert = some Keycode.insert
from_hid_usage HidUsage.menu = some Keycode.menu
from_hid_usage HidUsage.f1 = some Keycode.f1
from_hid_usage HidUsage.f2 = some Keycode.f2
from_hid_usage HidUsage.f3 = some Keycode.f3
from_hid_usage HidUsage.f4 = some Keycode.f4
from_hid_usage HidUsage.f5 = some Keycode.f5
from_hid_usage HidUsage.f6 = some Keycode.f6
from_hid_usage HidUsage.f7 = some Keycode.f7
from_hid_usage HidUsage.f8 = some Keycode.f8
from_hid_usage HidUsage.f9 = some Keycode.f9
from_hid_usage HidUsage.f10 = some Keycode.f10
from_hid_usage HidUsage.f11 = some Keycode.f11
from_hid_usage HidUsage.f12 = some Keycode.f12
from_hid_usage HidUsage.key_a = some Keycode.key_a
from_hid_usage HidUsage.key_b = some Keycode.key_b
from_hid_usage HidUsage.key_c = some Keycode.key_c
from_hid_usage HidUsage.key_d = some Keycode.key_d
from_hid_usage HidUsage.key_e = some Keycode.key_e
from_hid_usage HidUsage.key_f = some Keycode.key_f
from_hid_usage HidUsage.key_g = some Keycode.key_g
from_hid_usage HidUsage.key_h = some Keycode.key_h
from_hid_usage HidUsage.key_i = some Keycode.key_i
from_hid_usage HidUsage.key_j = some Keycode.key_j
from_hid_usage HidUsage.key_k = some Keycode.key_k
from_hid_usage HidUsage.key_l = some Keycode.key_l
from_hid_usage HidUsage.key_m = some Keycode.key_m
from_hid_usage HidUsage.key_n = some Keycode.key_n
from_hid_usage HidUsage.key_o = some Keycode.key_o
from_hid_usage HidUsage.key_p = some Keycode.key_p
from_hid_usage HidUsage.key_q = some Keycode.key_q
from_hid_usage HidUsage.key_r = some Keycode.key_r
from_hid_usage HidUsage.key_s = some Keycode.key_s
from_hid_usage HidUsage.key_t = some Keycode.key_t
from_hid_usage HidUsage.key_u = some Keycode.key_u
from_hid_usage HidUsage.key_v = some Keycode.key_v
from_hid_usage HidUsage.key_w = some Keycode.key_w
from_hid_usage HidUsage.key_x = some Keycode.key_x
from_hid_usage HidUsage.key_y = some Keycode.key_y
from_hid_usage HidUsage.key_z = some Keycode.key_z
from_hid_usage HidUsage.number1 = some Keycode.number1
from_hid_usage HidUsage.number2 = some Keycode.number2
from_hid_usage HidUsage.number3 = some Keycode.number3
from_hid_usage HidUsage.number4 = some Keycode.number4
from_hid_usage HidUsage.number5 = some Keycode.number5
from_hid_usage HidUsage.number6 = some Keycode.number6
from_hid_usage HidUsage.number7 = some Keycode.number7
from_hid_usage HidUsage.number8 = some Keycode.number8
from_hid_usage HidUsage.number9 = some Keycode.number9
from_hid_usage HidUsage.number0 = some Keycode.number0
from_hid_usage HidUsage.numpad0 = some Keycode.numpad0
from_hid_usage HidUsage.numpad1 = some Keycode.numpad1
from_hid_usage HidUsage.numpad2 = some Keycode.numpad2
from_hid_usage HidUsage.numpad3 = some Keycode.numpad3
from_hid_usage HidUsage.numpad4 = some Keycode.numpad4
from_hid_usage HidUsage.numpad5 = some Keycode.numpad5
from_hid_usage HidUsage.numpad6 = some Keycode.numpad6
from_hid_usage HidUsage.numpad7 = some Keycode.numpad7
from_hid_usage HidUsage.numpad8 = some Keycode.numpad8
from_hid_usage HidUsage.numpad9 = some Keycode.numpad9
from_hid_usage HidUsage.numpad_decimal = some Keycode.numpad_decimal
from_hid_usage HidUsage.numpad_multiply = some Keycode.numpad_multiply
from_hid_usage HidUsage.numpad_plus = some Keycode.numpad_plus
from_hid_usage HidUsage.numpad_divide = some Keycode.numpad_divide
from_hid_usage HidUsage.numpad_enter = some Keycode.numpad_enter
from_hid_usage HidUsage.numpad_minus = some Keycode.numpad_minus
from_hid_usage HidUsage.num_lock = some Keycode.num_lock
from_hid_usage HidUsage.numpad_equal = some Keycode.numpad_equal
from_hid_usage HidUsage.minus = some Keycode.minus
from_hid_usage HidUsage.equal = some Keycode.equal
from_hid_usage HidUsage.bracket_left = some Keycode.bracket_left
from_hid_usage HidUsage.bracket_right = some Keycode.bracket_right
from_hid_usage HidUsage.backslash = some Keycode.backslash
from_hid_usage HidUsage.semicolon = some Keycode.semicolon
from_hid_usage HidUsage.quote = some Keycode.quote
from_hid_usage HidUsage.grave = some Keycode.grave
from_hid_usage HidUsage.comma = some Keycode.comma
from_hid_usage HidUsage.slash = some Keycode.slash
from_hid_usage HidUsage.period = some Keycode.period
from_hid_usage HidUsage.iso_extra = some Keycode.iso_extra
from_hid_usage HidUsage.play_pause = some Keycode.play_pause
from_hid_usage HidUsage.volume_up = some Keycode.volume_up
from_hid_usage HidUsage.volume_down = some Keycode.volume_down
from_hid_usage HidUsage.mute = some Keycode.mute
from_hid_usage HidUsage.next_track = some Keycode.next_track
from_hid_usage HidUsage.previous_track = some Keycode.previous_track
from_hid_usage HidUsage.stop = some Keycode.stop
from_hid_usage HidUsage.brightness_up = some Keycode.brightness_up
from_hid_usage HidUsage.brightness_down = some Keycode.brightness_down

unfoldable pub to_hid_usage : Keycode → HidUsage
to_hid_usage Keycode.left_control = HidUsage.left_control
to_hid_usage Keycode.right_control = HidUsage.right_control
to_hid_usage Keycode.left_shift = HidUsage.left_shift
to_hid_usage Keycode.right_shift = HidUsage.right_shift
to_hid_usage Keycode.left_alt = HidUsage.left_alt
to_hid_usage Keycode.right_alt = HidUsage.right_alt
to_hid_usage Keycode.left_command = HidUsage.left_command
to_hid_usage Keycode.right_command = HidUsage.right_command
to_hid_usage Keycode.caps_lock = HidUsage.caps_lock
to_hid_usage Keycode.tab = HidUsage.tab
to_hid_usage Keycode.space = HidUsage.space
to_hid_usage Keycode.return = HidUsage.return
to_hid_usage Keycode.backspace = HidUsage.backspace
to_hid_usage Keycode.delete = HidUsage.delete
to_hid_usage Keycode.escape = HidUsage.escape
to_hid_usage Keycode.up_arrow = HidUsage.up_arrow
to_hid_usage Keycode.down_arrow = HidUsage.down_arrow
to_hid_usage Keycode.left_arrow = HidUsage.left_arrow
to_hid_usage Keycode.right_arrow = HidUsage.right_arrow
to_hid_usage Keycode.page_up = HidUsage.page_up
to_hid_usage Keycode.page_down = HidUsage.page_down
to_hid_usage Keycode.home = HidUsage.home
to_hid_usage Keycode.end = HidUsage.end
to_hid_usage Keycode.print_screen = HidUsage.print_screen
to_hid_usage Keycode.scroll_lock = HidUsage.scroll_lock
to_hid_usage Keycode.pause = HidUsage.pause
to_hid_usage Keycode.insert = HidUsage.insert
to_hid_usage Keycode.menu = HidUsage.menu
to_hid_usage Keycode.f1 = HidUsage.f1
to_hid_usage Keycode.f2 = HidUsage.f2
to_hid_usage Keycode.f3 = HidUsage.f3
to_hid_usage Keycode.f4 = HidUsage.f4
to_hid_usage Keycode.f5 = HidUsage.f5
to_hid_usage Keycode.f6 = HidUsage.f6
to_hid_usage Keycode.f7 = HidUsage.f7
to_hid_usage Keycode.f8 = HidUsage.f8
to_hid_usage Keycode.f9 = HidUsage.f9
to_hid_usage Keycode.f10 = HidUsage.f10
to_hid_usage Keycode.f11 = HidUsage.f11
to_hid_usage Keycode.f12 = HidUsage.f12
to_hid_usage Keycode.key_a = HidUsage.key_a
to_hid_usage Keycode.key_b = HidUsage.key_b
to_hid_usage Keycode.key_c = HidUsage.key_c
to_hid_usage Keycode.key_d = HidUsage.key_d
to_hid_usage Keycode.key_e = HidUsage.key_e
to_hid_usage Keycode.key_f = HidUsage.key_f
to_hid_usage Keycode.key_g = HidUsage.key_g
to_hid_usage Keycode.key_h = HidUsage.key_h
to_hid_usage Keycode.key_i = HidUsage.key_i
to_hid_usage Keycode.key_j = HidUsage.key_j
to_hid_usage Keycode.key_k = HidUsage.key_k
to_hid_usage Keycode.key_l = HidUsage.key_l
to_hid_usage Keycode.key_m = HidUsage.key_m
to_hid_usage Keycode.key_n = HidUsage.key_n
to_hid_usage Keycode.key_o = HidUsage.key_o
to_hid_usage Keycode.key_p = HidUsage.key_p
to_hid_usage Keycode.key_q = HidUsage.key_q
to_hid_usage Keycode.key_r = HidUsage.key_r
to_hid_usage Keycode.key_s = HidUsage.key_s
to_hid_usage Keycode.key_t = HidUsage.key_t
to_hid_usage Keycode.key_u = HidUsage.key_u
to_hid_usage Keycode.key_v = HidUsage.key_v
to_hid_usage Keycode.key_w = HidUsage.key_w
to_hid_usage Keycode.key_x = HidUsage.key_x
to_hid_usage Keycode.key_y = HidUsage.key_y
to_hid_usage Keycode.key_z = HidUsage.key_z
to_hid_usage Keycode.number1 = HidUsage.number1
to_hid_usage Keycode.number2 = HidUsage.number2
to_hid_usage Keycode.number3 = HidUsage.number3
to_hid_usage Keycode.number4 = HidUsage.number4
to_hid_usage Keycode.number5 = HidUsage.number5
to_hid_usage Keycode.number6 = HidUsage.number6
to_hid_usage Keycode.number7 = HidUsage.number7
to_hid_usage Keycode.number8 = HidUsage.number8
to_hid_usage Keycode.number9 = HidUsage.number9
to_hid_usage Keycode.number0 = HidUsage.number0
to_hid_usage Keycode.numpad0 = HidUsage.numpad0
to_hid_usage Keycode.numpad1 = HidUsage.numpad1
to_hid_usage Keycode.numpad2 = HidUsage.numpad2
to_hid_usage Keycode.numpad3 = HidUsage.numpad3
to_hid_usage Keycode.numpad4 = HidUsage.numpad4
to_hid_usage Keycode.numpad5 = HidUsage.numpad5
to_hid_usage Keycode.numpad6 = HidUsage.numpad6
to_hid_usage Keycode.numpad7 = HidUsage.numpad7
to_hid_usage Keycode.numpad8 = HidUsage.numpad8
to_hid_usage Keycode.numpad9 = HidUsage.numpad9
to_hid_usage Keycode.numpad_decimal = HidUsage.numpad_decimal
to_hid_usage Keycode.numpad_multiply = HidUsage.numpad_multiply
to_hid_usage Keycode.numpad_plus = HidUsage.numpad_plus
to_hid_usage Keycode.numpad_divide = HidUsage.numpad_divide
to_hid_usage Keycode.numpad_enter = HidUsage.numpad_enter
to_hid_usage Keycode.numpad_minus = HidUsage.numpad_minus
to_hid_usage Keycode.num_lock = HidUsage.num_lock
to_hid_usage Keycode.numpad_equal = HidUsage.numpad_equal
to_hid_usage Keycode.minus = HidUsage.minus
to_hid_usage Keycode.equal = HidUsage.equal
to_hid_usage Keycode.bracket_left = HidUsage.bracket_left
to_hid_usage Keycode.bracket_right = HidUsage.bracket_right
to_hid_usage Keycode.backslash = HidUsage.backslash
to_hid_usage Keycode.semicolon = HidUsage.semicolon
to_hid_usage Keycode.quote = HidUsage.quote
to_hid_usage Keycode.grave = HidUsage.grave
to_hid_usage Keycode.comma = HidUsage.comma
to_hid_usage Keycode.slash = HidUsage.slash
to_hid_usage Keycode.period = HidUsage.period
to_hid_usage Keycode.iso_extra = HidUsage.iso_extra
to_hid_usage Keycode.play_pause = HidUsage.play_pause
to_hid_usage Keycode.volume_up = HidUsage.volume_up
to_hid_usage Keycode.volume_down = HidUsage.volume_down
to_hid_usage Keycode.mute = HidUsage.mute
to_hid_usage Keycode.next_track = HidUsage.next_track
to_hid_usage Keycode.previous_track = HidUsage.previous_track
to_hid_usage Keycode.stop = HidUsage.stop
to_hid_usage Keycode.brightness_up = HidUsage.brightness_up
to_hid_usage Keycode.brightness_down = HidUsage.brightness_down

unfoldable pub hid_usage_to_keycode : HidUsage → Option ℕ
unfolding from_hid_usage as_native
hid_usage_to_keycode usage = Option.map as_native (from_hid_usage usage)

unfoldable pub keycode_to_hid_usage : ℕ → Option HidUsage
unfolding from_native to_hid_usage
keycode_to_hid_usage code = Option.map to_hid_usage (from_native code)
