-- ===== src/Platform/Linux/Keycode.antt =====
-- src/platform/linux/keycode.rs: the evdev key codes, generated from one table of the key identities
-- and their codes.
pub mod Usage
pub mod RoundTrip
use keymapper_rs.Prelude.{ℕ, List, [], ◌∷◌, Option, map_get, ℕ_discrete}

pub data Keycode : Type 0 where
  left_control right_control left_shift right_shift left_alt right_alt left_command : Keycode
  right_command caps_lock tab space return backspace delete escape up_arrow down_arrow : Keycode
  left_arrow right_arrow page_up page_down home end print_screen scroll_lock pause : Keycode
  insert menu f1 f2 f3 f4 f5 f6 f7 f8 f9 f10 f11 f12 key_a key_b key_c key_d key_e : Keycode
  key_f key_g key_h key_i key_j key_k key_l key_m key_n key_o key_p key_q key_r key_s : Keycode
  key_t key_u key_v key_w key_x key_y key_z number1 number2 number3 number4 number5 : Keycode
  number6 number7 number8 number9 number0 numpad0 numpad1 numpad2 numpad3 numpad4 : Keycode
  numpad5 numpad6 numpad7 numpad8 numpad9 numpad_decimal numpad_multiply numpad_plus : Keycode
  numpad_divide numpad_enter numpad_minus num_lock numpad_equal minus equal : Keycode
  bracket_left bracket_right backslash semicolon quote grave comma slash period : Keycode
  iso_extra play_pause volume_up volume_down mute next_track previous_track stop : Keycode
  brightness_up brightness_down : Keycode

-- `self as u16`.
unfoldable pub as_native : Keycode → ℕ
as_native left_control = 29
as_native right_control = 97
as_native left_shift = 42
as_native right_shift = 54
as_native left_alt = 56
as_native right_alt = 100
as_native left_command = 125
as_native right_command = 126
as_native caps_lock = 58
as_native tab = 15
as_native space = 57
as_native return = 28
as_native backspace = 14
as_native delete = 111
as_native escape = 1
as_native up_arrow = 103
as_native down_arrow = 108
as_native left_arrow = 105
as_native right_arrow = 106
as_native page_up = 104
as_native page_down = 109
as_native home = 102
as_native end = 107
as_native print_screen = 99
as_native scroll_lock = 70
as_native pause = 119
as_native insert = 110
as_native menu = 358
as_native f1 = 59
as_native f2 = 60
as_native f3 = 61
as_native f4 = 62
as_native f5 = 63
as_native f6 = 64
as_native f7 = 65
as_native f8 = 66
as_native f9 = 67
as_native f10 = 68
as_native f11 = 87
as_native f12 = 88
as_native key_a = 30
as_native key_b = 48
as_native key_c = 46
as_native key_d = 32
as_native key_e = 18
as_native key_f = 33
as_native key_g = 34
as_native key_h = 35
as_native key_i = 23
as_native key_j = 36
as_native key_k = 37
as_native key_l = 38
as_native key_m = 50
as_native key_n = 49
as_native key_o = 24
as_native key_p = 25
as_native key_q = 16
as_native key_r = 19
as_native key_s = 31
as_native key_t = 20
as_native key_u = 22
as_native key_v = 47
as_native key_w = 17
as_native key_x = 45
as_native key_y = 21
as_native key_z = 44
as_native number1 = 2
as_native number2 = 3
as_native number3 = 4
as_native number4 = 5
as_native number5 = 6
as_native number6 = 7
as_native number7 = 8
as_native number8 = 9
as_native number9 = 10
as_native number0 = 11
as_native numpad0 = 82
as_native numpad1 = 79
as_native numpad2 = 80
as_native numpad3 = 81
as_native numpad4 = 75
as_native numpad5 = 76
as_native numpad6 = 77
as_native numpad7 = 71
as_native numpad8 = 72
as_native numpad9 = 73
as_native numpad_decimal = 83
as_native numpad_multiply = 55
as_native numpad_plus = 78
as_native numpad_divide = 98
as_native numpad_enter = 96
as_native numpad_minus = 74
as_native num_lock = 69
as_native numpad_equal = 117
as_native minus = 12
as_native equal = 13
as_native bracket_left = 26
as_native bracket_right = 27
as_native backslash = 43
as_native semicolon = 39
as_native quote = 40
as_native grave = 41
as_native comma = 51
as_native slash = 53
as_native period = 52
as_native iso_extra = 86
as_native play_pause = 164
as_native volume_up = 115
as_native volume_down = 114
as_native mute = 113
as_native next_track = 163
as_native previous_track = 165
as_native stop = 166
as_native brightness_up = 225
as_native brightness_down = 224

-- The arms of the generated `match` on a code, in the order of the table.
unfoldable pub native_arms : List (ℕ × Keycode)
native_arms =
    (29, left_control)
    ∷ (97, right_control)
    ∷ (42, left_shift)
    ∷ (54, right_shift)
    ∷ (56, left_alt)
    ∷ (100, right_alt)
    ∷ (125, left_command)
    ∷ (126, right_command)
    ∷ (58, caps_lock)
    ∷ (15, tab)
    ∷ (57, space)
    ∷ (28, return)
    ∷ (14, backspace)
    ∷ (111, delete)
    ∷ (1, escape)
    ∷ (103, up_arrow)
    ∷ (108, down_arrow)
    ∷ (105, left_arrow)
    ∷ (106, right_arrow)
    ∷ (104, page_up)
    ∷ (109, page_down)
    ∷ (102, home)
    ∷ (107, end)
    ∷ (99, print_screen)
    ∷ (70, scroll_lock)
    ∷ (119, pause)
    ∷ (110, insert)
    ∷ (358, menu)
    ∷ (59, f1)
    ∷ (60, f2)
    ∷ (61, f3)
    ∷ (62, f4)
    ∷ (63, f5)
    ∷ (64, f6)
    ∷ (65, f7)
    ∷ (66, f8)
    ∷ (67, f9)
    ∷ (68, f10)
    ∷ (87, f11)
    ∷ (88, f12)
    ∷ (30, key_a)
    ∷ (48, key_b)
    ∷ (46, key_c)
    ∷ (32, key_d)
    ∷ (18, key_e)
    ∷ (33, key_f)
    ∷ (34, key_g)
    ∷ (35, key_h)
    ∷ (23, key_i)
    ∷ (36, key_j)
    ∷ (37, key_k)
    ∷ (38, key_l)
    ∷ (50, key_m)
    ∷ (49, key_n)
    ∷ (24, key_o)
    ∷ (25, key_p)
    ∷ (16, key_q)
    ∷ (19, key_r)
    ∷ (31, key_s)
    ∷ (20, key_t)
    ∷ (22, key_u)
    ∷ (47, key_v)
    ∷ (17, key_w)
    ∷ (45, key_x)
    ∷ (21, key_y)
    ∷ (44, key_z)
    ∷ (2, number1)
    ∷ (3, number2)
    ∷ (4, number3)
    ∷ (5, number4)
    ∷ (6, number5)
    ∷ (7, number6)
    ∷ (8, number7)
    ∷ (9, number8)
    ∷ (10, number9)
    ∷ (11, number0)
    ∷ (82, numpad0)
    ∷ (79, numpad1)
    ∷ (80, numpad2)
    ∷ (81, numpad3)
    ∷ (75, numpad4)
    ∷ (76, numpad5)
    ∷ (77, numpad6)
    ∷ (71, numpad7)
    ∷ (72, numpad8)
    ∷ (73, numpad9)
    ∷ (83, numpad_decimal)
    ∷ (55, numpad_multiply)
    ∷ (78, numpad_plus)
    ∷ (98, numpad_divide)
    ∷ (96, numpad_enter)
    ∷ (74, numpad_minus)
    ∷ (69, num_lock)
    ∷ (117, numpad_equal)
    ∷ (12, minus)
    ∷ (13, equal)
    ∷ (26, bracket_left)
    ∷ (27, bracket_right)
    ∷ (43, backslash)
    ∷ (39, semicolon)
    ∷ (40, quote)
    ∷ (41, grave)
    ∷ (51, comma)
    ∷ (53, slash)
    ∷ (52, period)
    ∷ (86, iso_extra)
    ∷ (164, play_pause)
    ∷ (115, volume_up)
    ∷ (114, volume_down)
    ∷ (113, mute)
    ∷ (163, next_track)
    ∷ (165, previous_track)
    ∷ (166, stop)
    ∷ (225, brightness_up)
    ∷ (224, brightness_down)
    ∷ []

unfoldable pub from_native : ℕ → Option Keycode
unfolding native_arms map_get ℕ_discrete
from_native code = map_get ℕ_discrete code native_arms
