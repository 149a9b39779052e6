-- ===== src/Platform/Windows/Keycode.antt =====
-- src/platform/windows/keycode.rs: the virtual-key codes and the key identities.
pub mod Native
pub mod Names
pub mod RoundTrip
use keymapper_rs.Prelude.{ℕ, Option, none, some, ◌==◌, not, ◌&&◌, if◌then◌else◌}
use keymapper_rs.Common.HidUsage.{HidUsage, page, id, page_keyboard, page_consumer}

pub data Key : Type 0 where
  left_control right_control left_shift right_shift left_alt right_alt left_command : Key
  right_command menu caps_lock tab space return backspace delete escape up_arrow : Key
  down_arrow left_arrow right_arrow page_up page_down home end print_screen insert pause : Key
  f1 f2 f3 f4 f5 f6 f7 f8 f9 f10 f11 f12 key_a key_b key_c key_d key_e key_f key_g key_h : Key
  key_i key_j key_k key_l key_m key_n key_o key_p key_q key_r key_s key_t key_u key_v : Key
  key_w key_x key_y key_z number1 number2 number3 number4 number5 number6 number7 number8 : Key
  number9 number0 numpad0 numpad1 numpad2 numpad3 numpad4 numpad5 numpad6 numpad7 numpad8 : Key
  numpad9 numpad_decimal numpad_multiply numpad_plus numpad_divide numpad_enter : Key
  numpad_minus num_lock minus equal bracket_left bracket_right backslash semicolon quote : Key
  comma period slash grave iso_extra play_pause volume_up volume_down mute next_track : Key
  previous_track stop : Key

-- `self as u16`.
unfoldable pub as_native : Key → ℕ
as_native left_control = 0xA2
as_native right_control = 0xA3
as_native left_shift = 0xA0
as_native right_shift = 0xA1
as_native left_alt = 0xA4
as_native right_alt = 0xA5
as_native left_command = 0x5B
as_native right_command = 0x5C
as_native menu = 0x5D
as_native caps_lock = 0x14
as_native tab = 0x09
as_native space = 0x20
as_native return = 0x0D
as_native backspace = 0x08
as_native delete = 0x2E
as_native escape = 0x1B
as_native up_arrow = 0x26
as_native down_arrow = 0x28
as_native left_arrow = 0x25
as_native right_arrow = 0x27
as_native page_up = 0x21
as_native page_down = 0x22
as_native home = 0x23
as_native end = 0x24
as_native print_screen = 0x2C
as_native insert = 0x2D
as_native pause = 0x13
as_native f1 = 0x70
as_native f2 = 0x71
as_native f3 = 0x72
as_native f4 = 0x73
as_native f5 = 0x74
as_native f6 = 0x75
as_native f7 = 0x76
as_native f8 = 0x77
as_native f9 = 0x78
as_native f10 = 0x79
as_native f11 = 0x7A
as_native f12 = 0x7B
as_native key_a = 0x41
as_native key_b = 0x42
as_native key_c = 0x43
as_native key_d = 0x44
as_native key_e = 0x45
as_native key_f = 0x46
as_native key_g = 0x47
as_native key_h = 0x48
as_native key_i = 0x49
as_native key_j = 0x4A
as_native key_k = 0x4B
as_native key_l = 0x4C
as_native key_m = 0x4D
as_native key_n = 0x4E
as_native key_o = 0x4F
as_native key_p = 0x50
as_native key_q = 0x51
as_native key_r = 0x52
as_native key_s = 0x53
as_native key_t = 0x54
as_native key_u = 0x55
as_native key_v = 0x56
as_native key_w = 0x57
as_native key_x = 0x58
as_native key_y = 0x59
as_native key_z = 0x5A
as_native number1 = 0x31
as_native number2 = 0x32
as_native number3 = 0x33
as_native number4 = 0x34
as_native number5 = 0x35
as_native number6 = 0x36
as_native number7 = 0x37
as_native number8 = 0x38
as_native number9 = 0x39
as_native number0 = 0x30
as_native numpad0 = 0x60
as_native numpad1 = 0x61
as_native numpad2 = 0x62
as_native numpad3 = 0x63
as_native numpad4 = 0x64
as_native numpad5 = 0x65
as_native numpad6 = 0x66
as_native numpad7 = 0x67
as_native numpad8 = 0x68
as_native numpad9 = 0x69
as_native numpad_decimal = 0x6E
as_native numpad_multiply = 0x6A
as_native numpad_plus = 0x6B
as_native numpad_divide = 0x6F
as_native numpad_enter = 0x92
as_native numpad_minus = 0x6D
as_native num_lock = 0x90
as_native minus = 0xBD
as_native equal = 0xBB
as_native bracket_left = 0xDB
as_native bracket_right = 0xDD
as_native backslash = 0xDC
as_native semicolon = 0xBA
as_native quote = 0xDE
as_native comma = 0xBC
as_native period = 0xBE
as_native slash = 0xBF
as_native grave = 0xC0
as_native iso_extra = 0xE2
as_native play_pause = 0xB3
as_native volume_up = 0xAF
as_native volume_down = 0xAE
as_native mute = 0xAD
as_native next_track = 0xB0
as_native previous_track = 0xB1
as_native stop = 0xB2

-- The arms of `from_hid_usage`.
unfoldable pub native_key : HidUsage → Option Key
native_key HidUsage.left_control = some left_control
native_key HidUsage.right_control = some right_control
native_key HidUsage.left_shift = some left_shift
native_key HidUsage.right_shift = some right_shift
native_key HidUsage.left_alt = some left_alt
native_key HidUsage.right_alt = some right_alt
native_key HidUsage.left_command = some left_command
native_key HidUsage.right_command = some right_command
native_key HidUsage.menu = some menu
native_key HidUsage.caps_lock = some caps_lock
native_key HidUsage.tab = some tab
native_key HidUsage.space = some space
native_key HidUsage.return = some return
native_key HidUsage.backspace = some backspace
native_key HidUsage.delete = some delete
native_key HidUsage.escape = some escape
native_key HidUsage.up_arrow = some up_arrow
native_key HidUsage.down_arrow = some down_arrow
native_key HidUsage.left_arrow = some left_arrow
native_key HidUsage.right_arrow = some right_arrow
native_key HidUsage.page_up = some page_up
native_key HidUsage.page_down = some page_down
native_key HidUsage.home = some home
native_key HidUsage.end = some end
native_key HidUsage.print_screen = some print_screen
native_key HidUsage.insert = some insert
native_key HidUsage.pause = some pause
native_key HidUsage.f1 = some f1
native_key HidUsage.f2 = some f2
native_key HidUsage.f3 = some f3
native_key HidUsage.f4 = some f4
native_key HidUsage.f5 = some f5
native_key HidUsage.f6 = some f6
native_key HidUsage.f7 = some f7
native_key HidUsage.f8 = some f8
native_key HidUsage.f9 = some f9
native_key HidUsage.f10 = some f10
native_key HidUsage.f11 = some f11
native_key HidUsage.f12 = some f12
native_key HidUsage.key_a = some key_a
native_key HidUsage.key_b = some key_b
native_key HidUsage.key_c = some key_c
native_key HidUsage.key_d = some key_d
native_key HidUsage.key_e = some key_e
native_key HidUsage.key_f = some key_f
native_key HidUsage.key_g = some key_g
native_key HidUsage.key_h = some key_h
native_key HidUsage.key_i = some key_i
native_key HidUsage.key_j = some key_j
native_key HidUsage.key_k = some key_k
native_key HidUsage.key_l = some key_l
native_key HidUsage.key_m = some key_m
native_key HidUsage.key_n = some key_n
native_key HidUsage.key_o = some key_o
native_key HidUsage.key_p = some key_p
native_key HidUsage.key_q = some key_q
native_key HidUsage.key_r = some key_r
native_key HidUsage.key_s = some key_s
native_key HidUsage.key_t = some key_t
native_key HidUsage.key_u = some key_u
native_key HidUsage.key_v = some key_v
native_key HidUsage.key_w = some key_w
native_key HidUsage.key_x = some key_x
native_key HidUsage.key_y = some key_y
native_key HidUsage.key_z = some key_z
native_key HidUsage.number1 = some number1
native_key HidUsage.number2 = some number2
native_key HidUsage.number3 = some number3
native_key HidUsage.number4 = some number4
native_key HidUsage.number5 = some number5
native_key HidUsage.number6 = some number6
native_key HidUsage.number7 = some number7
native_key HidUsage.number8 = some number8
native_key HidUsage.number9 = some number9
native_key HidUsage.number0 = some number0
native_key HidUsage.numpad0 = some numpad0
native_key HidUsage.numpad1 = some numpad1
native_key HidUsage.numpad2 = some numpad2
native_key HidUsage.numpad3 = some numpad3
native_key HidUsage.numpad4 = some numpad4
native_key HidUsage.numpad5 = some numpad5
native_key HidUsage.numpad6 = some numpad6
native_key HidUsage.numpad7 = some numpad7
native_key HidUsage.numpad8 = some numpad8
native_key HidUsage.numpad9 = some numpad9
native_key HidUsage.numpad_decimal = some numpad_decimal
native_key HidUsage.numpad_multiply = some numpad_multiply
native_key HidUsage.numpad_plus = some numpad_plus
native_key HidUsage.numpad_divide = some numpad_divide
native_key HidUsage.numpad_enter = some numpad_enter
native_key HidUsage.numpad_minus = some numpad_minus
native_key HidUsage.num_lock = some num_lock
native_key HidUsage.minus = some minus
native_key HidUsage.equal = some equal
native_key HidUsage.bracket_left = some bracket_left
native_key HidUsage.bracket_right = some bracket_right
native_key HidUsage.backslash = some backslash
native_key HidUsage.semicolon = some semicolon
native_key HidUsage.quote = some quote
native_key HidUsage.comma = some comma
native_key HidUsage.period = some period
native_key HidUsage.slash = some slash
native_key HidUsage.grave = some grave
native_key HidUsage.iso_extra = some iso_extra
native_key _ = none

unfoldable pub from_hid_usage : HidUsage → Option Key
unfolding native_key page
from_hid_usage usage = if not (page usage == page_keyboard) then none else native_key usage

unfoldable pub to_hid_usage : Key → HidUsage
to_hid_usage left_control = HidUsage.left_control
to_hid_usage right_control = HidUsage.right_control
to_hid_usage left_shift = HidUsage.left_shift
to_hid_usage right_shift = HidUsage.right_shift
to_hid_usage left_alt = HidUsage.left_alt
to_hid_usage right_alt = HidUsage.right_alt
to_hid_usage left_command = HidUsage.left_command
to_hid_usage right_command = HidUsage.right_command
to_hid_usage menu = HidUsage.menu
to_hid_usage caps_lock = HidUsage.caps_lock
to_hid_usage tab = HidUsage.tab
to_hid_usage space = HidUsage.space
to_hid_usage return = HidUsage.return
to_hid_usage backspace = HidUsage.backspace
to_hid_usage delete = HidUsage.delete
to_hid_usage escape = HidUsage.escape
to_hid_usage up_arrow = HidUsage.up_arrow
to_hid_usage down_arrow = HidUsage.down_arrow
to_hid_usage left_arrow = HidUsage.left_arrow
to_hid_usage right_arrow = HidUsage.right_arrow
to_hid_usage page_up = HidUsage.page_up
to_hid_usage page_down = HidUsage.page_down
to_hid_usage home = HidUsage.home
to_hid_usage end = HidUsage.end
to_hid_usage print_screen = HidUsage.print_screen
to_hid_usage insert = HidUsage.insert
to_hid_usage pause = HidUsage.pause
to_hid_usage f1 = HidUsage.f1
to_hid_usage f2 = HidUsage.f2
to_hid_usage f3 = HidUsage.f3
to_hid_usage f4 = HidUsage.f4
to_hid_usage f5 = HidUsage.f5
to_hid_usage f6 = HidUsage.f6
to_hid_usage f7 = HidUsage.f7
to_hid_usage f8 = HidUsage.f8
to_hid_usage f9 = HidUsage.f9
to_hid_usage f10 = HidUsage.f10
to_hid_usage f11 = HidUsage.f11
to_hid_usage f12 = HidUsage.f12
to_hid_usage key_a = HidUsage.key_a
to_hid_usage key_b = HidUsage.key_b
to_hid_usage key_c = HidUsage.key_c
to_hid_usage key_d = HidUsage.key_d
to_hid_usage key_e = HidUsage.key_e
to_hid_usage key_f = HidUsage.key_f
to_hid_usage key_g = HidUsage.key_g
to_hid_usage key_h = HidUsage.key_h
to_hid_usage key_i = HidUsage.key_i
to_hid_usage key_j = HidUsage.key_j
to_hid_usage key_k = HidUsage.key_k
to_hid_usage key_l = HidUsage.key_l
to_hid_usage key_m = HidUsage.key_m
to_hid_usage key_n = HidUsage.key_n
to_hid_usage key_o = HidUsage.key_o
to_hid_usage key_p = HidUsage.key_p
to_hid_usage key_q = HidUsage.key_q
to_hid_usage key_r = HidUsage.key_r
to_hid_usage key_s = HidUsage.key_s
to_hid_usage key_t = HidUsage.key_t
to_hid_usage key_u = HidUsage.key_u
to_hid_usage key_v = HidUsage.key_v
to_hid_usage key_w = HidUsage.key_w
to_hid_usage key_x = HidUsage.key_x
to_hid_usage key_y = HidUsage.key_y
to_hid_usage key_z = HidUsage.key_z
to_hid_usage number1 = HidUsage.number1
to_hid_usage number2 = HidUsage.number2
to_hid_usage number3 = HidUsage.number3
to_hid_usage number4 = HidUsage.number4
to_hid_usage number5 = HidUsage.number5
to_hid_usage number6 = HidUsage.number6
to_hid_usage number7 = HidUsage.number7
to_hid_usage number8 = HidUsage.number8
to_hid_usage number9 = HidUsage.number9
to_hid_usage number0 = HidUsage.number0
to_hid_usage numpad0 = HidUsage.numpad0
to_hid_usage numpad1 = HidUsage.numpad1
to_hid_usage numpad2 = HidUsage.numpad2
to_hid_usage numpad3 = HidUsage.numpad3
to_hid_usage numpad4 = HidUsage.numpad4
to_hid_usage numpad5 = HidUsage.numpad5
to_hid_usage numpad6 = HidUsage.numpad6
to_hid_usage numpad7 = HidUsage.numpad7
to_hid_usage numpad8 = HidUsage.numpad8
to_hid_usage numpad9 = HidUsage.numpad9
to_hid_usage numpad_decimal = HidUsage.numpad_decimal
to_hid_usage numpad_multiply = HidUsage.numpad_multiply
to_hid_usage numpad_plus = HidUsage.numpad_plus
to_hid_usage numpad_divide = HidUsage.numpad_divide
to_hid_usage numpad_enter = HidUsage.numpad_enter
to_hid_usage numpad_minus = HidUsage.numpad_minus
to_hid_usage num_lock = HidUsage.num_lock
to_hid_usage minus = HidUsage.minus
to_hid_usage equal = HidUsage.equal
to_hid_usage bracket_left = HidUsage.bracket_left
to_hid_usage bracket_right = HidUsage.bracket_right
to_hid_usage backslash = HidUsage.backslash
to_hid_usage semicolon = HidUsage.semicolon
to_hid_usage quote = HidUsage.quote
to_hid_usage comma = HidUsage.comma
to_hid_usage period = HidUsage.period
to_hid_usage slash = HidUsage.slash
to_hid_usage grave = HidUsage.grave
to_hid_usage iso_extra = HidUsage.iso_extra
to_hid_usage play_pause = HidUsage.play_pause
to_hid_usage volume_up = HidUsage.volume_up
to_hid_usage volume_down = HidUsage.volume_down
to_hid_usage mute = HidUsage.mute
to_hid_usage next_track = HidUsage.next_track
to_hid_usage previous_track = HidUsage.previous_track
to_hid_usage stop = HidUsage.stop
