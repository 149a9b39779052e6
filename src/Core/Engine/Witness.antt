-- ===== src/Core/Engine/Witness.antt =====
-- How the witnesses of the invariant survive a change of the key sets, and the single bits of the
-- lookup state.
use keymapper_rs.Prelude.{
  ℕ, ◌^◌, ◌<◌, ◌≡◌, ◌≢◌, ap, ◌⊎◌, inl, List, true, false, Option, none, some, arith, contains,
  insert, remove, contains-insert, contains-remove,
}
use keymapper_rs.Bits.{has, has-bit_or, has_clear, has-pow}
use keymapper_rs.Common.HidUsage.{HidUsage}
use keymapper_rs.Core.Engine.{set_bit_of, clear_bit_of}
use keymapper_rs.Core.Engine.Inv.{bit_of, PressedBit, ForwardedBit}

pub has-set_bit_of :
    (b : Option ℕ) (state i : ℕ)
    → has (set_bit_of b state) i ≡ true
    → (has state i ≡ true) ⊎ (b ≡ some i)
unfolding set_bit_of
has-set_bit_of none state i h = inl h
has-set_bit_of (some bit) state i h = ground (arith, has-bit_or state (2 ^ bit) i, has-pow bit i)

pub has-clear_bit_of :
    (b : Option ℕ) (state i : ℕ)
    → i < 8
    → has (clear_bit_of b state) i ≡ true
    → (has state i ≡ true) × (b ≢ some i)
unfolding clear_bit_of
has-clear_bit_of none state i below h = (h, λ e. cc)
has-clear_bit_of (some bit) state i below h =
    ground (arith, has_clear state (2 ^ bit) i below, has-pow bit i)

module _ {ℓ} {K : Type ℓ} (dec : Discrete K) (usage_of : K → HidUsage) where
  pub PressedBit-remove :
      (key : K) (pressed : List K) (i : ℕ)
      → bit_of dec usage_of key ≢ some i
      → PressedBit dec usage_of pressed i
      → PressedBit dec usage_of (remove dec key pressed) i
  PressedBit-remove key pressed i ne (k, down, bit) =
      (k, ground (arith, contains-remove dec k key pressed), bit)

  pub PressedBit-insert :
      (key : K) (pressed : List K) (i : ℕ)
      → PressedBit dec usage_of pressed i
      → PressedBit dec usage_of (insert dec key pressed) i
  PressedBit-insert key pressed i (k, down, bit) =
      (k, ground (arith, contains-insert dec k key pressed), bit)

  pub ForwardedBit-remove :
      (key : K) (pressed swallowed : List K) (i : ℕ)
      → bit_of dec usage_of key ≢ some i
      → ForwardedBit dec usage_of pressed swallowed i
      → ForwardedBit dec usage_of (remove dec key pressed) swallowed i
  ForwardedBit-remove key pressed swallowed i ne (k, down, through, bit) =
      (k, ground (arith, contains-remove dec k key pressed), through, bit)

  -- The removed key was swallowed, so it is not the one that was passed through.
  pub ForwardedBit-remove_swallowed :
      (key : K) (pressed swallowed : List K) (i : ℕ)
      → contains dec key swallowed ≡ true
      → ForwardedBit dec usage_of pressed swallowed i
      → ForwardedBit dec usage_of (remove dec key pressed) (remove dec key swallowed) i
  ForwardedBit-remove_swallowed key pressed swallowed i sw (k, down, through, bit) = (
    k,
    ground (
      arith,
      contains-remove dec k key pressed,
      ap (λ (x : K). contains dec x swallowed) {x = k} {y = key},
    ),
    ground (arith, contains-remove dec k key swallowed),
    bit,
  )

  pub ForwardedBit-insert :
      (key : K) (pressed swallowed : List K) (i : ℕ)
      → ForwardedBit dec usage_of pressed swallowed i
      → ForwardedBit dec usage_of (insert dec key pressed) swallowed i
  ForwardedBit-insert key pressed swallowed i (k, down, through, bit) =
      (k, ground (arith, contains-insert dec k key pressed), through, bit)

  -- A key that was not down before is not the one that was passed through.
  pub ForwardedBit-swallow :
      (key : K) (pressed swallowed : List K) (i : ℕ)
      → contains dec key pressed ≡ false
      → ForwardedBit dec usage_of pressed swallowed i
      → ForwardedBit dec usage_of (insert dec key pressed) (insert dec key swallowed) i
  ForwardedBit-swallow key pressed swallowed i up (k, down, through, bit) = (
    k,
    ground (arith, contains-insert dec k key pressed),
    ground (
      arith,
      contains-insert dec k key swallowed,
      ap (λ (x : K). contains dec x pressed) {x = k} {y = key},
    ),
    bit,
  )
