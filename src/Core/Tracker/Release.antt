-- ===== src/Core/Tracker/Release.antt =====
-- `release`, branch by branch.
use keymapper_rs.Prelude.{
  ℕ, ◌^◌, ◌≡◌, true, false, none, some, bit_and, ◌==◌, contains, remove, map_get, map_remove,
}
use mathlib.Core.Option
use keymapper_rs.Bits.{bit_not}
use keymapper_rs.Common.HidUsage.{HidUsage, hid_usage_to_modifier_bit}
use keymapper_rs.Core.Tracker.{KeyTracker, ReleaseFate, release, release_forwarded}

module _ {ℓ} {K : Type ℓ} (t : KeyTracker K) (bit : ℕ) where
  pub release_unconsumed :
      (bit_and t.consumed_modifiers (2 ^ bit) == 0) ≡ true
      → release_forwarded t (some bit) ≡ (
        record t { forwarded_modifiers = bit_and t.forwarded_modifiers (bit_not (2 ^ bit)) },
        none,
      )
  unfolding release_forwarded
  release_unconsumed h = rw h

  pub release_consumed :
      (bit_and t.consumed_modifiers (2 ^ bit) == 0) ≡ false
      → release_forwarded t (some bit) ≡ (
        record t { consumed_modifiers = bit_and t.consumed_modifiers (bit_not (2 ^ bit)) },
        some ReleaseFate.consumed,
      )
  unfolding release_forwarded
  release_consumed h = rw h

module _ {ℓ} {K : Type ℓ} (dec : Discrete K) (t : KeyTracker K) (key : K) (usage : HidUsage) where
  pub release_swallowed :
      contains dec key t.swallowed_keys ≡ true
      → release dec t key usage ≡ (
        record t {
          swallowed_keys = remove dec key t.swallowed_keys;
          held_output_modifiers = map_remove dec key t.held_output_modifiers;
        },
        some (ReleaseFate.swallow (Option.get_or (map_get dec key t.held_output_modifiers) 0)),
      )
  unfolding release
  release_swallowed h = rw h

  pub release_through :
      contains dec key t.swallowed_keys ≡ false
      → release dec t key usage ≡ release_forwarded t (hid_usage_to_modifier_bit usage)
  unfolding release
  release_through h = rw h
