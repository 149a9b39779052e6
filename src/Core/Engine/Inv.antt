-- ===== src/Core/Engine/Inv.antt =====
-- The invariant of the engine, for a keyboard on which each key always reports the same usage.
use keymapper_rs.Prelude.{List, ℕ, ◌<◌, ◌≡◌, ◌⊎◌, true, false, Option, some, contains, map_get}
use keymapper_rs.Bits.{has}
use keymapper_rs.Common.HidUsage.{HidUsage, hid_usage_to_modifier_bit}
use keymapper_rs.Core.Tracker.Held.{Distinct}
use keymapper_rs.Core.Engine.{MappingEngine}

module _ {ℓ} {K : Type ℓ} (dec : Discrete K) (usage_of : K → HidUsage) where
  -- The modifier bit of a physical key.
  abbrev pub bit_of : K → Option ℕ
  bit_of k = hid_usage_to_modifier_bit (usage_of k)

  -- A key that is down has the modifier bit `i`.
  abbrev pub PressedBit : List K → ℕ → Type ℓ
  PressedBit pressed i = (k : K) × (contains dec k pressed ≡ true) × (bit_of k ≡ some i)

  -- A key that is down and was not swallowed has the modifier bit `i`.
  abbrev pub ForwardedBit : List K → List K → ℕ → Type ℓ
  ForwardedBit pressed swallowed i =
      (k : K) × (contains dec k pressed ≡ true)
      × (contains dec k swallowed ≡ false)
      × (bit_of k ≡ some i)

  -- An entry of the map of held outputs has the bit `i`.
  abbrev pub HeldBit : List (K × ℕ) → ℕ → Type ℓ
  HeldBit held i = (k : K) × (m : ℕ) × (map_get dec k held ≡ some m) × (has m i ≡ true)

  pub record Inv (e : MappingEngine K) : Type ℓ where
    -- Every set bit of the lookup state is that of a key that is down, or is held by an output.
    pub state_bits :
        (i : ℕ)
        → i < 8
        → has e.modifier_state i ≡ true
        → PressedBit e.tracker.pressed_keys i ⊎ HeldBit e.tracker.held_output_modifiers i
    -- Every forwarded or consumed bit is that of a key that is down and was passed through.
    pub forwarded_bits :
        (i : ℕ)
        → i < 8
        → has e.tracker.forwarded_modifiers i ≡ true
        → ForwardedBit e.tracker.pressed_keys e.tracker.swallowed_keys i
    pub consumed_bits :
        (i : ℕ)
        → i < 8
        → has e.tracker.consumed_modifiers i ≡ true
        → ForwardedBit e.tracker.pressed_keys e.tracker.swallowed_keys i
    -- No modifier is both forwarded and consumed.
    pub apart :
        (i : ℕ)
        → i < 8
        → has e.tracker.forwarded_modifiers i ≡ true
        → has e.tracker.consumed_modifiers i ≡ false
    -- Only keys that are down are swallowed, and only swallowed keys hold outputs.
    pub swallowed_pressed :
        (k : K)
        → contains dec k e.tracker.swallowed_keys ≡ true
        → contains dec k e.tracker.pressed_keys ≡ true
    pub held_swallowed :
        (k : K) (m : ℕ)
        → map_get dec k e.tracker.held_output_modifiers ≡ some m
        → contains dec k e.tracker.swallowed_keys ≡ true
    pub distinct : Distinct dec e.tracker.held_output_modifiers
