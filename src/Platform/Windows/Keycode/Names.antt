-- ===== src/Platform/Windows/Keycode/Names.antt =====
-- src/platform/windows/keycode.rs: the names of the keys and their parser.
use keymapper_rs.Prelude.{◌≡◌, refl, List, [], ◌∷◌, Option, some, map_get}
use keymapper_rs.Common.Str.{Str, bytes, Str-discrete}
use keymapper_rs.Platform.Windows.Keycode.{Key}

unfoldable pub as_str : Key → Str
as_str Key.left_control = bytes "LeftControl"
as_str Key.right_control = bytes "RightControl"
as_str Key.left_shift = bytes "LeftShift"
as_str Key.right_shift = bytes "RightShift"
as_str Key.left_alt = bytes "LeftAlt"
as_str Key.right_alt = bytes "RightAlt"
as_str Key.left_command = bytes "LeftCommand"
as_str Key.right_command = bytes "RightCommand"
as_str Key.menu = bytes "Menu"
as_str Key.caps_lock = bytes "CapsLock"
as_str Key.tab = bytes "Tab"
as_str Key.space = bytes "Space"
as_str Key.return = bytes "Return"
as_str Key.backspace = bytes "Backspace"
as_str Key.delete = bytes "Delete"
as_str Key.escape = bytes "Escape"
as_str Key.up_arrow = bytes "UpArrow"
as_str Key.down_arrow = bytes "DownArrow"
as_str Key.left_arrow = bytes "LeftArrow"
as_str Key.right_arrow = bytes "RightArrow"
as_str Key.page_up = bytes "PageUp"
as_str Key.page_down = bytes "PageDown"
as_str Key.home = bytes "Home"
as_str Key.end = bytes "End"
as_str Key.print_screen = bytes "PrintScreen"
as_str Key.insert = bytes "Insert"
as_str Key.pause = bytes "Pause"
as_str Key.f1 = bytes "F1"
as_str Key.f2 = bytes "F2"
as_str Key.f3 = bytes "F3"
as_str Key.f4 = bytes "F4"
as_str Key.f5 = bytes "F5"
as_str Key.f6 = bytes "F6"
as_str Key.f7 = bytes "F7"
as_str Key.f8 = bytes "F8"
as_str Key.f9 = bytes "F9"
as_str Key.f10 = bytes "F10"
as_str Key.f11 = bytes "F11"
as_str Key.f12 = bytes "F12"
as_str Key.key_a = bytes "A"
as_str Key.key_b = bytes "B"
as_str Key.key_c = bytes "C"
as_str Key.key_d = bytes "D"
as_str Key.key_e = bytes "E"
as_str Key.key_f = bytes "F"
as_str Key.key_g = bytes "G"
as_str Key.key_h = bytes "H"
as_str Key.key_i = bytes "I"
as_str Key.key_j = bytes "J"
as_str Key.key_k = bytes "K"
as_str Key.key_l = bytes "L"
as_str Key.key_m = bytes "M"
as_str Key.key_n = bytes "N"
as_str Key.key_o = bytes "O"
as_str Key.key_p = bytes "P"
as_str Key.key_q = bytes "Q"
as_str Key.key_r = bytes "R"
as_str Key.key_s = bytes "S"
as_str Key.key_t = bytes "T"
as_str Key.key_u = bytes "U"
as_str Key.key_v = bytes "V"
as_str Key.key_w = bytes "W"
as_str Key.key_x = bytes "X"
as_str Key.key_y = bytes "Y"
as_str Key.key_z = bytes "Z"
as_str Key.number1 = bytes "1"
as_str Key.number2 = bytes "2"
as_str Key.number3 = bytes "3"
as_str Key.number4 = bytes "4"
as_str Key.number5 = bytes "5"
as_str Key.number6 = bytes "6"
as_str Key.number7 = bytes "7"
as_str Key.number8 = bytes "8"
as_str Key.number9 = bytes "9"
as_str Key.number0 = bytes "0"
as_str Key.numpad0 = bytes "Numpad0"
as_str Key.numpad1 = bytes "Numpad1"
as_str Key.numpad2 = bytes "Numpad2"
as_str Key.numpad3 = bytes "Numpad3"
as_str Key.numpad4 = bytes "Numpad4"
as_str Key.numpad5 = bytes "Numpad5"
as_str Key.numpad6 = bytes "Numpad6"
as_str Key.numpad7 = bytes "Numpad7"
as_str Key.numpad8 = bytes "Numpad8"
as_str Key.numpad9 = bytes "Numpad9"
as_str Key.numpad_decimal = bytes "NumpadDecimal"
as_str Key.numpad_multiply = bytes "NumpadMultiply"
as_str Key.numpad_plus = bytes "NumpadPlus"
as_str Key.numpad_divide = bytes "NumpadDivide"
as_str Key.numpad_enter = bytes "NumpadEnter"
as_str Key.numpad_minus = bytes "NumpadMinus"
as_str Key.num_lock = bytes "NumLock"
as_str Key.minus = bytes "Minus"
as_str Key.equal = bytes "Equal"
as_str Key.bracket_left = bytes "BracketLeft"
as_str Key.bracket_right = bytes "BracketRight"
as_str Key.backslash = bytes "Backslash"
as_str Key.semicolon = bytes "Semicolon"
as_str Key.quote = bytes "Quote"
as_str Key.comma = bytes "Comma"
as_str Key.period = bytes "Period"
as_str Key.slash = bytes "Slash"
as_str Key.grave = bytes "Grave"
as_str Key.iso_extra = bytes "IsoExtra"
as_str Key.play_pause = bytes "PlayPause"
as_str Key.volume_up = bytes "VolumeUp"
as_str Key.volume_down = bytes "VolumeDown"
as_str Key.mute = bytes "Mute"
as_str Key.next_track = bytes "NextTrack"
as_str Key.previous_track = bytes "PreviousTrack"
as_str Key.stop = bytes "Stop"

-- The arms of `try_from_str`, in order, each alternative of a pattern by itself.
unfoldable pub name_arms : List (Str × Key)
name_arms =
    (bytes "Ctrl", Key.left_control)
    ∷ (bytes "Shift", Key.left_shift)
    ∷ (bytes "Alt", Key.left_alt)
    ∷ (bytes "Option", Key.left_alt)
    ∷ (bytes "Command", Key.left_command)
    ∷ (bytes "Cmd", Key.left_command)
    ∷ (bytes "Super", Key.left_command)
    ∷ (bytes "Win", Key.left_command)
    ∷ (bytes "LeftControl", Key.left_control)
    ∷ (bytes "LeftCtrl", Key.left_control)
    ∷ (bytes "RightControl", Key.right_control)
    ∷ (bytes "RightCtrl", Key.right_control)
    ∷ (bytes "LeftShift", Key.left_shift)
    ∷ (bytes "RightShift", Key.right_shift)
    ∷ (bytes "LeftAlt", Key.left_alt)
    ∷ (bytes "LeftOption", Key.left_alt)
    ∷ (bytes "RightAlt", Key.right_alt)
    ∷ (bytes "RightOption", Key.right_alt)
    ∷ (bytes "LeftCommand", Key.left_command)
    ∷ (bytes "LeftCmd", Key.left_command)
    ∷ (bytes "LeftWin", Key.left_command)
    ∷ (bytes "RightCommand", Key.right_command)
    ∷ (bytes "RightCmd", Key.right_command)
    ∷ (bytes "RightWin", Key.right_command)
    ∷ (bytes "Menu", Key.menu)
    ∷ (bytes "ContextMenu", Key.menu)
    ∷ (bytes "Application", Key.menu)
    ∷ (bytes "CapsLock", Key.caps_lock)
    ∷ (bytes "Caps", Key.caps_lock)
    ∷ (bytes "Tab", Key.tab)
    ∷ (bytes "Space", Key.space)
    ∷ (bytes "Return", Key.return)
    ∷ (bytes "Enter", Key.return)
    ∷ (bytes "Backspace", Key.backspace)
    ∷ (bytes "Delete", Key.delete)
    ∷ (bytes "Escape", Key.escape)
    ∷ (bytes "Esc", Key.escape)
    ∷ (bytes "UpArrow", Key.up_arrow)
    ∷ (bytes "Up", Key.up_arrow)
    ∷ (bytes "DownArrow", Key.down_arrow)
    ∷ (bytes "Down", Key.down_arrow)
    ∷ (bytes "LeftArrow", Key.left_arrow)
    ∷ (bytes "Left", Key.left_arrow)
    ∷ (bytes "RightArrow", Key.right_arrow)
    ∷ (bytes "Right", Key.right_arrow)
    ∷ (bytes "PageUp", Key.page_up)
    ∷ (bytes "PgUp", Key.page_up)
    ∷ (bytes "PageDown", Key.page_down)
    ∷ (bytes "PgDn", Key.page_down)
    ∷ (bytes "Home", Key.home)
    ∷ (bytes "End", Key.end)
    ∷ (bytes "PrintScreen", Key.print_screen)
    ∷ (bytes "PrtSc", Key.print_screen)
    ∷ (bytes "SysRq", Key.print_screen)
    ∷ (bytes "Insert", Key.insert)
    ∷ (bytes "Ins", Key.insert)
    ∷ (bytes "Pause", Key.pause)
    ∷ (bytes "Break", Key.pause)
    ∷ (bytes "F1", Key.f1)
    ∷ (bytes "F2", Key.f2)
    ∷ (bytes "F3", Key.f3)
    ∷ (bytes "F4", Key.f4)
    ∷ (bytes "F5", Key.f5)
    ∷ (bytes "F6", Key.f6)
    ∷ (bytes "F7", Key.f7)
    ∷ (bytes "F8", Key.f8)
    ∷ (bytes "F9", Key.f9)
    ∷ (bytes "F10", Key.f10)
    ∷ (bytes "F11", Key.f11)
    ∷ (bytes "F12", Key.f12)
    ∷ (bytes "A", Key.key_a)
    ∷ (bytes "B", Key.key_b)
    ∷ (bytes "C", Key.key_c)
    ∷ (bytes "D", Key.key_d)
    ∷ (bytes "E", Key.key_e)
    ∷ (bytes "F", Key.key_f)
    ∷ (bytes "G", Key.key_g)
    ∷ (bytes "H", Key.key_h)
    ∷ (bytes "I", Key.key_i)
    ∷ (bytes "J", Key.key_j)
    ∷ (bytes "K", Key.key_k)
    ∷ (bytes "L", Key.key_l)
    ∷ (bytes "M", Key.key_m)
    ∷ (bytes "N", Key.key_n)
    ∷ (bytes "O", Key.key_o)
    ∷ (bytes "P", Key.key_p)
    ∷ (bytes "Q", Key.key_q)
    ∷ (bytes "R", Key.key_r)
    ∷ (bytes "S", Key.key_s)
    ∷ (bytes "T", Key.key_t)
    ∷ (bytes "U", Key.key_u)
    ∷ (bytes "V", Key.key_v)
    ∷ (bytes "W", Key.key_w)
    ∷ (bytes "X", Key.key_x)
    ∷ (bytes "Y", Key.key_y)
    ∷ (bytes "Z", Key.key_z)
    ∷ (bytes "1", Key.number1)
    ∷ (bytes "Number1", Key.number1)
    ∷ (bytes "2", Key.number2)
    ∷ (bytes "Number2", Key.number2)
    ∷ (bytes "3", Key.number3)
    ∷ (bytes "Number3", Key.number3)
    ∷ (bytes "4", Key.number4)
    ∷ (bytes "Number4", Key.number4)
    ∷ (bytes "5", Key.number5)
    ∷ (bytes "Number5", Key.number5)
    ∷ (bytes "6", Key.number6)
    ∷ (bytes "Number6", Key.number6)
    ∷ (bytes "7", Key.number7)
    ∷ (bytes "Number7", Key.number7)
    ∷ (bytes "8", Key.number8)
    ∷ (bytes "Number8", Key.number8)
    ∷ (bytes "9", Key.number9)
    ∷ (bytes "Number9", Key.number9)
    ∷ (bytes "0", Key.number0)
    ∷ (bytes "Number0", Key.number0)
    ∷ (bytes "Numpad0", Key.numpad0)
    ∷ (bytes "Numpad1", Key.numpad1)
    ∷ (bytes "Numpad2", Key.numpad2)
    ∷ (bytes "Numpad3", Key.numpad3)
    ∷ (bytes "Numpad4", Key.numpad4)
    ∷ (bytes "Numpad5", Key.numpad5)
    ∷ (bytes "Numpad6", Key.numpad6)
    ∷ (bytes "Numpad7", Key.numpad7)
    ∷ (bytes "Numpad8", Key.numpad8)
    ∷ (bytes "Numpad9", Key.numpad9)
    ∷ (bytes "NumpadDecimal", Key.numpad_decimal)
    ∷ (bytes "NumpadMultiply", Key.numpad_multiply)
    ∷ (bytes "NumpadPlus", Key.numpad_plus)
    ∷ (bytes "NumpadDivide", Key.numpad_divide)
    ∷ (bytes "NumpadEnter", Key.numpad_enter)
    ∷ (bytes "NumpadMinus", Key.numpad_minus)
    ∷ (bytes "NumLock", Key.num_lock)
    ∷ (bytes "NumpadClear", Key.num_lock)
    ∷ (bytes "Minus", Key.minus)
    ∷ (bytes "Equal", Key.equal)
    ∷ (bytes "BracketLeft", Key.bracket_left)
    ∷ (bytes "BracketRight", Key.bracket_right)
    ∷ (bytes "Backslash", Key.backslash)
    ∷ (bytes "Semicolon", Key.semicolon)
    ∷ (bytes "Quote", Key.quote)
    ∷ (bytes "Comma", Key.comma)
    ∷ (bytes "Period", Key.period)
    ∷ (bytes "Slash", Key.slash)
    ∷ (bytes "Grave", Key.grave)
    ∷ (bytes "IsoExtra", Key.iso_extra)
    ∷ (bytes "PlayPause", Key.play_pause)
    ∷ (bytes "Play", Key.play_pause)
    ∷ (bytes "VolumeUp", Key.volume_up)
    ∷ (bytes "VolUp", Key.volume_up)
    ∷ (bytes "VolumeDown", Key.volume_down)
    ∷ (bytes "VolDown", Key.volume_down)
    ∷ (bytes "Mute", Key.mute)
    ∷ (bytes "VolMute", Key.mute)
    ∷ (bytes "NextTrack", Key.next_track)
    ∷ (bytes "ScanNext", Key.next_track)
    ∷ (bytes "PreviousTrack", Key.previous_track)
    ∷ (bytes "ScanPrev", Key.previous_track)
    ∷ (bytes "Stop", Key.stop)
    ∷ (bytes "MediaStop", Key.stop)
    ∷ []

unfoldable pub try_from_str : Str → Option Key
unfolding name_arms map_get Str-discrete
try_from_str name = map_get Str-discrete name name_arms

-- Every key is parsed back from its name.
pub try_from_str-as_str : (k : Key) → try_from_str (as_str k) ≡ some k
unfolding try_from_str as_str
try_from_str-as_str Key.left_control = refl
try_from_str-as_str _ = refl
