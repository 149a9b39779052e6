-- ===== src/Common/HidUsage.antt =====
-- src/common/hid_usage.rs: the key identities, generated from one table of variants, codes, names and
-- aliases. A variant `A` of one letter is spelled `key_a`.
pub mod Codes
pub mod Names
use keymapper_rs.Prelude.{
  ℕ, ◌+◌, ◌*◌, ◌/◌, ◌%◌, ◌^◌, Bool, true, false, ◌||◌, List, [], ◌∷◌, Option, none, some, ◌==◌,
  bit_or, if◌then◌else◌, not,
}
use mathlib.Core.Option
use keymapper_rs.Common.Str.{Str, bytes, str_eq}
use keymapper_rs.Common.Modifier.{from_hid_id, role_bit}

pub data HidUsage : Type 0 where
  left_control right_control left_shift right_shift left_alt right_alt left_command : HidUsage
  right_command caps_lock tab space return backspace delete escape up_arrow down_arrow : HidUsage
  left_arrow right_arrow page_up page_down home end print_screen scroll_lock pause : HidUsage
  insert menu f1 f2 f3 f4 f5 f6 f7 f8 f9 f10 f11 f12 key_a key_b key_c key_d key_e : HidUsage
  key_f key_g key_h key_i key_j key_k key_l key_m key_n key_o key_p key_q key_r key_s : HidUsage
  key_t key_u key_v key_w key_x key_y key_z number1 number2 number3 number4 number5 : HidUsage
  number6 number7 number8 number9 number0 numpad0 numpad1 numpad2 numpad3 numpad4 : HidUsage
  numpad5 numpad6 numpad7 numpad8 numpad9 numpad_decimal numpad_multiply numpad_plus : HidUsage
  numpad_divide numpad_enter numpad_minus num_lock numpad_equal minus equal : HidUsage
  bracket_left bracket_right backslash semicolon quote grave comma slash period : HidUsage
  iso_extra play_pause volume_up volume_down mute next_track previous_track stop : HidUsage
  brightness_up brightness_down : HidUsage

-- The discriminant, `(page << 16) | id`.
unfoldable pub code : HidUsage → ℕ
code left_control = 0x0700E0
code right_control = 0x0700E4
code left_shift = 0x0700E1
code right_shift = 0x0700E5
code left_alt = 0x0700E2
code right_alt = 0x0700E6
code left_command = 0x0700E3
code right_command = 0x0700E7
code caps_lock = 0x070039
code tab = 0x07002B
code space = 0x07002C
code return = 0x070028
code backspace = 0x07002A
code delete = 0x07004C
code escape = 0x070029
code up_arrow = 0x070052
code down_arrow = 0x070051
code left_arrow = 0x070050
code right_arrow = 0x07004F
code page_up = 0x07004B
code page_down = 0x07004E
code home = 0x07004A
code end = 0x07004D
code print_screen = 0x070046
code scroll_lock = 0x070047
code pause = 0x070048
code insert = 0x070049
code menu = 0x070065
code f1 = 0x07003A
code f2 = 0x07003B
code f3 = 0x07003C
code f4 = 0x07003D
code f5 = 0x07003E
code f6 = 0x07003F
code f7 = 0x070040
code f8 = 0x070041
code f9 = 0x070042
code f10 = 0x070043
code f11 = 0x070044
code f12 = 0x070045
code key_a = 0x070004
code key_b = 0x070005
code key_c = 0x070006
code key_d = 0x070007
code key_e = 0x070008
code key_f = 0x070009
code key_g = 0x07000A
code key_h = 0x07000B
code key_i = 0x07000C
code key_j = 0x07000D
code key_k = 0x07000E
code key_l = 0x07000F
code key_m = 0x070010
code key_n = 0x070011
code key_o = 0x070012
code key_p = 0x070013
code key_q = 0x070014
code key_r = 0x070015
code key_s = 0x070016
code key_t = 0x070017
code key_u = 0x070018
code key_v = 0x070019
code key_w = 0x07001A
code key_x = 0x07001B
code key_y = 0x07001C
code key_z = 0x07001D
code number1 = 0x07001E
code number2 = 0x07001F
code number3 = 0x070020
code number4 = 0x070021
code number5 = 0x070022
code number6 = 0x070023
code number7 = 0x070024
code number8 = 0x070025
code number9 = 0x070026
code number0 = 0x070027
code numpad0 = 0x070062
code numpad1 = 0x070059
code numpad2 = 0x07005A
code numpad3 = 0x07005B
code numpad4 = 0x07005C
code numpad5 = 0x07005D
code numpad6 = 0x07005E
code numpad7 = 0x07005F
code numpad8 = 0x070060
code numpad9 = 0x070061
code numpad_decimal = 0x070063
code numpad_multiply = 0x070055
code numpad_plus = 0x070057
code numpad_divide = 0x070054
code numpad_enter = 0x070058
code numpad_minus = 0x070056
code num_lock = 0x070053
code numpad_equal = 0x070067
code minus = 0x07002D
code equal = 0x07002E
code bracket_left = 0x07002F
code bracket_right = 0x070030
code backslash = 0x070031
code semicolon = 0x070033
code quote = 0x070034
code grave = 0x070035
code comma = 0x070036
code slash = 0x070038
code period = 0x070037
code iso_extra = 0x070064
code play_pause = 0x0C00CD
code volume_up = 0x0C00E9
code volume_down = 0x0C00EA
code mute = 0x0C00E2
code next_track = 0x0C00B5
code previous_track = 0x0C00B6
code stop = 0x0C00B7
code brightness_up = 0x0C006F
code brightness_down = 0x0C0070

-- `HidUsage::ALL`, in the order of the table.
unfoldable pub all : List HidUsage
all =
    left_control ∷ right_control ∷ left_shift ∷ right_shift ∷ left_alt ∷ right_alt ∷ left_command
    ∷ right_command ∷ caps_lock ∷ tab ∷ space ∷ return ∷ backspace ∷ delete ∷ escape ∷ up_arrow
    ∷ down_arrow ∷ left_arrow ∷ right_arrow ∷ page_up ∷ page_down ∷ home ∷ end ∷ print_screen
    ∷ scroll_lock ∷ pause ∷ insert ∷ menu ∷ f1 ∷ f2 ∷ f3 ∷ f4 ∷ f5 ∷ f6 ∷ f7 ∷ f8 ∷ f9 ∷ f10 ∷ f11
    ∷ f12 ∷ key_a ∷ key_b ∷ key_c ∷ key_d ∷ key_e ∷ key_f ∷ key_g ∷ key_h ∷ key_i ∷ key_j ∷ key_k
    ∷ key_l ∷ key_m ∷ key_n ∷ key_o ∷ key_p ∷ key_q ∷ key_r ∷ key_s ∷ key_t ∷ key_u ∷ key_v ∷ key_w
    ∷ key_x ∷ key_y ∷ key_z ∷ number1 ∷ number2 ∷ number3 ∷ number4 ∷ number5 ∷ number6 ∷ number7
    ∷ number8 ∷ number9 ∷ number0 ∷ numpad0 ∷ numpad1 ∷ numpad2 ∷ numpad3 ∷ numpad4 ∷ numpad5
    ∷ numpad6 ∷ numpad7 ∷ numpad8 ∷ numpad9 ∷ numpad_decimal ∷ numpad_multiply ∷ numpad_plus
    ∷ numpad_divide ∷ numpad_enter ∷ numpad_minus ∷ num_lock ∷ numpad_equal ∷ minus ∷ equal
    ∷ bracket_left ∷ bracket_right ∷ backslash ∷ semicolon ∷ quote ∷ grave ∷ comma ∷ slash ∷ period
    ∷ iso_extra ∷ play_pause ∷ volume_up ∷ volume_down ∷ mute ∷ next_track ∷ previous_track ∷ stop
    ∷ brightness_up ∷ brightness_down ∷ []

-- The arms of a generated `match` are tried in the order of the table.
find_code : ℕ → List HidUsage → Option HidUsage
find_code c [] = none
find_code c (u ∷ us) = if code u == c then some u else find_code c us

unfoldable pub from_code : ℕ → Option HidUsage
unfolding find_code code all
from_code c = find_code c all

abbrev pub page_keyboard : ℕ
page_keyboard = 0x07

abbrev pub page_consumer : ℕ
page_consumer = 0x0C

-- `(self as u32 >> 16) as u16`.
unfoldable pub page : HidUsage → ℕ
unfolding code
page u = code u / 2 ^ 16 % 2 ^ 16

-- `(self as u32 & 0xFFFF) as u16`.
unfoldable pub id : HidUsage → ℕ
unfolding code
id u = code u % 2 ^ 16

unfoldable pub keyboard : ℕ → Option HidUsage
unfolding from_code
keyboard i = from_code (bit_or (page_keyboard * 2 ^ 16) i)

unfoldable pub consumer : ℕ → Option HidUsage
unfolding from_code
consumer i = from_code (bit_or (page_consumer * 2 ^ 16) i)

unfoldable pub hid_usage_to_modifier_bit : HidUsage → Option ℕ
unfolding page id from_hid_id role_bit
hid_usage_to_modifier_bit u =
    if not (page u == page_keyboard) then none else Option.map role_bit (from_hid_id (id u))

-- The derived `==` compares discriminants.
unfoldable pub usage_eq : HidUsage → HidUsage → Bool
usage_eq u v = code u == code v

unfoldable pub as_str : HidUsage → Str
as_str left_control = bytes "LeftControl"
as_str right_control = bytes "RightControl"
as_str left_shift = bytes "LeftShift"
as_str right_shift = bytes "RightShift"
as_str left_alt = bytes "LeftAlt"
as_str right_alt = bytes "RightAlt"
as_str left_command = bytes "LeftCommand"
as_str right_command = bytes "RightCommand"
as_str caps_lock = bytes "CapsLock"
as_str tab = bytes "Tab"
as_str space = bytes "Space"
as_str return = bytes "Return"
as_str backspace = bytes "Backspace"
as_str delete = bytes "Delete"
as_str escape = bytes "Escape"
as_str up_arrow = bytes "UpArrow"
as_str down_arrow = bytes "DownArrow"
as_str left_arrow = bytes "LeftArrow"
as_str right_arrow = bytes "RightArrow"
as_str page_up = bytes "PageUp"
as_str page_down = bytes "PageDown"
as_str home = bytes "Home"
as_str end = bytes "End"
as_str print_screen = bytes "PrintScreen"
as_str scroll_lock = bytes "ScrollLock"
as_str pause = bytes "Pause"
as_str insert = bytes "Insert"
as_str menu = bytes "Menu"
as_str f1 = bytes "F1"
as_str f2 = bytes "F2"
as_str f3 = bytes "F3"
as_str f4 = bytes "F4"
as_str f5 = bytes "F5"
as_str f6 = bytes "F6"
as_str f7 = bytes "F7"
as_str f8 = bytes "F8"
as_str f9 = bytes "F9"
as_str f10 = bytes "F10"
as_str f11 = bytes "F11"
as_str f12 = bytes "F12"
as_str key_a = bytes "A"
as_str key_b = bytes "B"
as_str key_c = bytes "C"
as_str key_d = bytes "D"
as_str key_e = bytes "E"
as_str key_f = bytes "F"
as_str key_g = bytes "G"
as_str key_h = bytes "H"
as_str key_i = bytes "I"
as_str key_j = bytes "J"
as_str key_k = bytes "K"
as_str key_l = bytes "L"
as_str key_m = bytes "M"
as_str key_n = bytes "N"
as_str key_o = bytes "O"
as_str key_p = bytes "P"
as_str key_q = bytes "Q"
as_str key_r = bytes "R"
as_str key_s = bytes "S"
as_str key_t = bytes "T"
as_str key_u = bytes "U"
as_str key_v = bytes "V"
as_str key_w = bytes "W"
as_str key_x = bytes "X"
as_str key_y = bytes "Y"
as_str key_z = bytes "Z"
as_str number1 = bytes "1"
as_str number2 = bytes "2"
as_str number3 = bytes "3"
as_str number4 = bytes "4"
as_str number5 = bytes "5"
as_str number6 = bytes "6"
as_str number7 = bytes "7"
as_str number8 = bytes "8"
as_str number9 = bytes "9"
as_str number0 = bytes "0"
as_str numpad0 = bytes "Numpad0"
as_str numpad1 = bytes "Numpad1"
as_str numpad2 = bytes "Numpad2"
as_str numpad3 = bytes "Numpad3"
as_str numpad4 = bytes "Numpad4"
as_str numpad5 = bytes "Numpad5"
as_str numpad6 = bytes "Numpad6"
as_str numpad7 = bytes "Numpad7"
as_str numpad8 = bytes "Numpad8"
as_str numpad9 = bytes "Numpad9"
as_str numpad_decimal = bytes "NumpadDecimal"
as_str numpad_multiply = bytes "NumpadMultiply"
as_str numpad_plus = bytes "NumpadPlus"
as_str numpad_divide = bytes "NumpadDivide"
as_str numpad_enter = bytes "NumpadEnter"
as_str numpad_minus = bytes "NumpadMinus"
as_str num_lock = bytes "NumLock"
as_str numpad_equal = bytes "NumpadEqual"
as_str minus = bytes "Minus"
as_str equal = bytes "Equal"
as_str bracket_left = bytes "BracketLeft"
as_str bracket_right = bytes "BracketRight"
as_str backslash = bytes "Backslash"
as_str semicolon = bytes "Semicolon"
as_str quote = bytes "Quote"
as_str grave = bytes "Grave"
as_str comma = bytes "Comma"
as_str slash = bytes "Slash"
as_str period = bytes "Period"
as_str iso_extra = bytes "IsoExtra"
as_str play_pause = bytes "PlayPause"
as_str volume_up = bytes "VolumeUp"
as_str volume_down = bytes "VolumeDown"
as_str mute = bytes "Mute"
as_str next_track = bytes "NextTrack"
as_str previous_track = bytes "PreviousTrack"
as_str stop = bytes "Stop"
as_str brightness_up = bytes "BrightnessUp"
as_str brightness_down = bytes "BrightnessDown"

-- The further names that the parser accepts.
unfoldable pub aliases : HidUsage → List Str
aliases left_control = bytes "Ctrl" ∷ bytes "LeftCtrl" ∷ []
aliases right_control = bytes "RightCtrl" ∷ []
aliases left_shift = bytes "Shift" ∷ []
aliases left_alt = bytes "Alt" ∷ bytes "Option" ∷ bytes "LeftOption" ∷ []
aliases right_alt = bytes "RightOption" ∷ []
aliases left_command = bytes "Command" ∷ bytes "Cmd" ∷ bytes "Super" ∷ bytes "LeftCmd" ∷ []
aliases right_command = bytes "RightCmd" ∷ []
aliases caps_lock = bytes "Caps" ∷ []
aliases return = bytes "Enter" ∷ []
aliases escape = bytes "Esc" ∷ []
aliases up_arrow = bytes "Up" ∷ []
aliases down_arrow = bytes "Down" ∷ []
aliases left_arrow = bytes "Left" ∷ []
aliases right_arrow = bytes "Right" ∷ []
aliases page_up = bytes "PgUp" ∷ []
aliases page_down = bytes "PgDn" ∷ []
aliases print_screen = bytes "PrtSc" ∷ bytes "SysRq" ∷ []
aliases scroll_lock = bytes "Scroll" ∷ []
aliases pause = bytes "Break" ∷ []
aliases insert = bytes "Ins" ∷ []
aliases menu = bytes "ContextMenu" ∷ bytes "Application" ∷ []
aliases number1 = bytes "Number1" ∷ []
aliases number2 = bytes "Number2" ∷ []
aliases number3 = bytes "Number3" ∷ []
aliases number4 = bytes "Number4" ∷ []
aliases number5 = bytes "Number5" ∷ []
aliases number6 = bytes "Number6" ∷ []
aliases number7 = bytes "Number7" ∷ []
aliases number8 = bytes "Number8" ∷ []
aliases number9 = bytes "Number9" ∷ []
aliases number0 = bytes "Number0" ∷ []
aliases numpad_multiply = bytes "KP_Multiply" ∷ []
aliases numpad_plus = bytes "KP_Add" ∷ []
aliases numpad_divide = bytes "KP_Divide" ∷ []
aliases numpad_enter = bytes "KP_Enter" ∷ []
aliases numpad_minus = bytes "KP_Subtract" ∷ []
aliases num_lock = bytes "NumpadClear" ∷ []
aliases iso_extra = bytes "NonUSBackslash" ∷ []
aliases play_pause = bytes "Play" ∷ []
aliases volume_up = bytes "VolUp" ∷ []
aliases volume_down = bytes "VolDown" ∷ []
aliases mute = bytes "VolMute" ∷ []
aliases next_track = bytes "ScanNext" ∷ []
aliases previous_track = bytes "ScanPrev" ∷ []
aliases stop = bytes "MediaStop" ∷ []
aliases _ = []

str_elem : Str → List Str → Bool
unfolding str_eq
str_elem s [] = false
str_elem s (t ∷ ts) = str_eq s t || str_elem s ts

find_name : Str → List HidUsage → Option HidUsage
unfolding str_elem as_str aliases
find_name s [] = none
find_name s (u ∷ us) = if str_elem s (as_str u ∷ aliases u) then some u else find_name s us

-- `TryFrom<&str>`; the error, a message that quotes the name, is `none`.
unfoldable pub try_from : Str → Option HidUsage
unfolding find_name all
try_from s = find_name s all
