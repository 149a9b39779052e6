-- ===== src/Core/Tracker.antt =====
-- src/keymap_core/engine.rs, `KeyTracker`: the fate of each pressed key, and the masks of the
-- forwarded, the consumed and the held output modifiers.
pub mod Held
pub mod Release
use keymapper_rs.Prelude.{
  ℕ, ◌^◌, List, [], ◌∷◌, Option, none, some, bit_and, bit_or, ◌==◌, if◌then◌else◌, contains, remove,
  map_get, map_remove, map_upsert,
}
use mathlib.Core.Option
use keymapper_rs.Bits.{bit_not}
use keymapper_rs.Common.HidUsage.{HidUsage, hid_usage_to_modifier_bit}

pub record KeyTracker {ℓ} (K : Type ℓ) : Type ℓ where
  pub pressed_keys : List K
  pub swallowed_keys : List K
  pub held_output_modifiers : List (K × ℕ)
  pub forwarded_modifiers : ℕ
  pub consumed_modifiers : ℕ
  pub stale_keys : List K

-- The fate of a key-up; that it is forwarded is the absence of a fate.
pub data ReleaseFate : Type 0 where
  swallow : ℕ → ReleaseFate
  consumed : ReleaseFate

module _ {ℓ} {K : Type ℓ} where
  unfoldable pub default : KeyTracker K
  default = record {
    pressed_keys = [];
    swallowed_keys = [];
    held_output_modifiers = [];
    forwarded_modifiers = 0;
    consumed_modifiers = 0;
    stale_keys = [];
  }

  unfoldable pub record_forwarded_down : KeyTracker K → ℕ → KeyTracker K
  record_forwarded_down t bit =
      let mask = 2 ^ bit in
      record t {
        forwarded_modifiers = bit_or t.forwarded_modifiers mask;
        consumed_modifiers = bit_and t.consumed_modifiers (bit_not mask);
      }

  -- The closure that `consume_triggered` passes to `retain`: what stays of the map, and the bits
  -- that were hit, added to `held`.
  unfoldable pub consume_held : ℕ → List (K × ℕ) → ℕ → List (K × ℕ) × ℕ
  consume_held modifiers [] held = ([], held)
  consume_held modifiers ((k, mask) ∷ rest) held =
      let hit = bit_and mask modifiers in
      let mask' = bit_and mask (bit_not hit) in
      let kept = consume_held modifiers rest (bit_or held hit) in
      (if mask' == 0 then kept.0 else (k, mask') ∷ kept.0, kept.1)

  -- The tracker, with the pair `(released, held)` of masks.
  unfoldable pub consume_triggered : KeyTracker K → ℕ → KeyTracker K × (ℕ × ℕ)
  consume_triggered t modifiers =
      let forwarded = bit_and modifiers t.forwarded_modifiers in
      let kept = consume_held modifiers t.held_output_modifiers 0 in
      (
        record t {
          forwarded_modifiers = bit_and t.forwarded_modifiers (bit_not forwarded);
          consumed_modifiers = bit_or t.consumed_modifiers forwarded;
          held_output_modifiers = kept.0;
        },
        (bit_or forwarded kept.1, kept.1),
      )

  -- The part of `release` for a key that was not swallowed, by the modifier bit of its usage.
  unfoldable pub release_forwarded : KeyTracker K → Option ℕ → KeyTracker K × Option ReleaseFate
  release_forwarded t none = (t, none)
  release_forwarded t (some bit) =
      let mask = 2 ^ bit in
      if bit_and t.consumed_modifiers mask == 0
      then (record t { forwarded_modifiers = bit_and t.forwarded_modifiers (bit_not mask) }, none)
      else (
        record t { consumed_modifiers = bit_and t.consumed_modifiers (bit_not mask) },
        some consumed,
      )

module _ {ℓ} {K : Type ℓ} (dec : Discrete K) where
  unfoldable pub hold_output_modifiers : KeyTracker K → K → ℕ → KeyTracker K
  hold_output_modifiers t key mask = if mask == 0 then t else record t {
    held_output_modifiers = map_upsert dec key (λ m. bit_or m mask) mask t.held_output_modifiers;
  }

  unfoldable pub release : KeyTracker K → K → HidUsage → KeyTracker K × Option ReleaseFate
  unfolding release_forwarded
  release t key usage =
      if contains dec key t.swallowed_keys
      then (
        record t {
          swallowed_keys = remove dec key t.swallowed_keys;
          held_output_modifiers = map_remove dec key t.held_output_modifiers;
        },
        some (swallow (Option.get_or (map_get dec key t.held_output_modifiers) 0)),
      )
      else release_forwarded t (hid_usage_to_modifier_bit usage)
