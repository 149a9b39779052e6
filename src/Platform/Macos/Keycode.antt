-- ===== src/Platform/Macos/Keycode.antt =====
-- src/platform/macos/keycode.rs: the virtual key codes of CoreGraphics events.
pub mod Known
use keymapper_rs.Prelude.{ℕ, List, [], ◌∷◌, Option, none, some, map_get, ℕ_discrete}
use keymapper_rs.Common.HidUsage.{HidUsage, keyboard}

-- The arms of `cg_keycode_to_hid_usage`, in order.
unfoldable pub code_arms : List (ℕ × ℕ)
code_arms =
    (0, 0x04)
    ∷ (1, 0x16)
    ∷ (2, 0x07)
    ∷ (3, 0x09)
    ∷ (4, 0x0B)
    ∷ (5, 0x0A)
    ∷ (6, 0x1D)
    ∷ (7, 0x1B)
    ∷ (8, 0x06)
    ∷ (9, 0x19)
    ∷ (10, 0x64)
    ∷ (11, 0x05)
    ∷ (12, 0x14)
    ∷ (13, 0x1A)
    ∷ (14, 0x08)
    ∷ (15, 0x15)
    ∷ (16, 0x1C)
    ∷ (17, 0x17)
    ∷ (31, 0x12)
    ∷ (32, 0x18)
    ∷ (34, 0x0C)
    ∷ (35, 0x13)
    ∷ (37, 0x0F)
    ∷ (38, 0x0D)
    ∷ (40, 0x0E)
    ∷ (41, 0x33)
    ∷ (45, 0x11)
    ∷ (46, 0x10)
    ∷ (18, 0x1E)
    ∷ (19, 0x1F)
    ∷ (20, 0x20)
    ∷ (21, 0x21)
    ∷ (23, 0x22)
    ∷ (22, 0x23)
    ∷ (26, 0x24)
    ∷ (28, 0x25)
    ∷ (25, 0x26)
    ∷ (29, 0x27)
    ∷ (36, 0x28)
    ∷ (51, 0x2A)
    ∷ (117, 0x4C)
    ∷ (53, 0x29)
    ∷ (48, 0x2B)
    ∷ (49, 0x2C)
    ∷ (59, 0xE0)
    ∷ (62, 0xE4)
    ∷ (56, 0xE1)
    ∷ (60, 0xE5)
    ∷ (58, 0xE2)
    ∷ (61, 0xE6)
    ∷ (55, 0xE3)
    ∷ (54, 0xE7)
    ∷ (57, 0x39)
    ∷ (115, 0x4A)
    ∷ (116, 0x4B)
    ∷ (119, 0x4D)
    ∷ (121, 0x4E)
    ∷ (126, 0x52)
    ∷ (125, 0x51)
    ∷ (123, 0x50)
    ∷ (124, 0x4F)
    ∷ (107, 0x47)
    ∷ (110, 0x65)
    ∷ (114, 0x49)
    ∷ (122, 0x3A)
    ∷ (120, 0x3B)
    ∷ (99, 0x3C)
    ∷ (118, 0x3D)
    ∷ (96, 0x3E)
    ∷ (97, 0x3F)
    ∷ (98, 0x40)
    ∷ (100, 0x41)
    ∷ (101, 0x42)
    ∷ (109, 0x43)
    ∷ (103, 0x44)
    ∷ (111, 0x45)
    ∷ (27, 0x2D)
    ∷ (24, 0x2E)
    ∷ (33, 0x2F)
    ∷ (30, 0x30)
    ∷ (42, 0x31)
    ∷ (39, 0x34)
    ∷ (50, 0x35)
    ∷ (43, 0x36)
    ∷ (47, 0x37)
    ∷ (44, 0x38)
    ∷ (65, 0x63)
    ∷ (67, 0x55)
    ∷ (69, 0x57)
    ∷ (71, 0x53)
    ∷ (75, 0x54)
    ∷ (76, 0x58)
    ∷ (78, 0x56)
    ∷ (81, 0x67)
    ∷ (82, 0x62)
    ∷ (83, 0x59)
    ∷ (84, 0x5A)
    ∷ (85, 0x5B)
    ∷ (86, 0x5C)
    ∷ (87, 0x5D)
    ∷ (88, 0x5E)
    ∷ (89, 0x5F)
    ∷ (90, 0x60)
    ∷ (91, 0x61)
    ∷ []

unfoldable pub cg_keycode_to_hid_usage : ℕ → Option ℕ
unfolding code_arms map_get ℕ_discrete
cg_keycode_to_hid_usage code = map_get ℕ_discrete code code_arms

-- `and_then(HidUsage::keyboard)`.
unfoldable pub keyboard_usage : Option ℕ → Option HidUsage
unfolding keyboard
keyboard_usage none = none
keyboard_usage (some id) = keyboard id

unfoldable pub keycode_to_hid_usage : ℕ → Option HidUsage
unfolding cg_keycode_to_hid_usage keyboard_usage
keycode_to_hid_usage code = keyboard_usage (cg_keycode_to_hid_usage code)
