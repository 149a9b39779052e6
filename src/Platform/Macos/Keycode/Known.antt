-- ===== src/Platform/Macos/Keycode/Known.antt =====
-- src/platform/macos/keycode.rs: the usages of the key codes.
use keymapper_rs.Prelude.{
  ℕ, ◌≡◌, refl, ap, sym, ◌∙◌, Bool, true, false, ◌&&◌, Option, none, some, arith, ◌==◌, ==_iff,
  map_get-entries_pass, ℕ_discrete, entries_pass, List, [], ◌∷◌, if◌then◌else◌,
}
use keymapper_rs.Common.HidUsage.{HidUsage, id, page, page_keyboard, keyboard}
use keymapper_rs.Platform.Macos.Keycode.{
  code_arms, cg_keycode_to_hid_usage, keyboard_usage, keycode_to_hid_usage,
}

-- The code of an id, by the arms read backwards.
abbrev code_of : ℕ → List (ℕ × ℕ) → ℕ
code_of i [] = 0
code_of i ((code, j) ∷ arms) = if i == j then code else code_of i arms

-- The id is that of a key of the keyboard page.
abbrev is_known : ℕ → Option HidUsage → Bool
is_known i none = false
is_known i (some u) = id u == i && page u == page_keyboard

arms_known : entries_pass ℕ_discrete (λ code i. is_known i (keyboard i)) code_arms ≡ true
unfolding entries_pass code_arms keyboard id page
arms_known = refl

arms_injective : entries_pass ℕ_discrete (λ code i. code_of i code_arms == code) code_arms ≡ true
unfolding entries_pass code_arms
arms_injective = refl

known_usage :
    (i : ℕ) (o : Option HidUsage)
    → is_known i o ≡ true
    → (u : HidUsage) × (o ≡ some u) × (id u ≡ i) × (page u ≡ page_keyboard)
known_usage i none h = cc
known_usage i (some u) h = (u, refl, ground (arith, h), ground (arith, h))

-- Every key code that has a usage id is that of a key of the keyboard page with this id, and no two
-- key codes have the same id.
pub keycode_to_hid_usage_known :
    (code i : ℕ)
    → cg_keycode_to_hid_usage code ≡ some i
    → ((u : HidUsage) × (keycode_to_hid_usage code ≡ some u)
        × (id u ≡ i)
        × (page u ≡ page_keyboard))
      × ((other : ℕ) → cg_keycode_to_hid_usage other ≡ some i → other ≡ code)
unfolding cg_keycode_to_hid_usage keycode_to_hid_usage keyboard_usage
keycode_to_hid_usage_known code i h =
    let (u, found, same_id, on_page) = known_usage i (keyboard i) (
      map_get-entries_pass ℕ_discrete (λ code i. is_known i (keyboard i)) code_arms code i
        arms_known h) in
    (
      (u, ap keyboard_usage h ∙ found, same_id, on_page),
      λ other h'. sym (code_found other h') ∙ code_found code h,
    )
  where
    code_found : (c : ℕ) → cg_keycode_to_hid_usage c ≡ some i → code_of i code_arms ≡ c
    code_found c g = (==_iff (code_of i code_arms) c).0 (
        map_get-entries_pass ℕ_discrete (λ code i. code_of i code_arms == code) code_arms c i
          arms_injective g)
