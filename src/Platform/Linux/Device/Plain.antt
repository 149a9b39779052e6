-- ===== src/Platform/Linux/Device/Plain.antt =====
-- src/keymap_core/engine.rs: an engine on which no rule takes effect.
use keymapper_rs.Prelude.{
  ℕ, ◌^◌, ◌≡◌, refl, ap, ◌∙◌, Bool, true, false, Option, none, some, arith, ◌==◌, bit_and, contains,
  remove, contains-remove, ℕ_discrete, Bool-cases, inl, inr,
}
use keymapper_rs.Bits.{bit_not, empty_bit_and}
use keymapper_rs.Common.Str.{Str}
use keymapper_rs.Common.HidUsage.{HidUsage, hid_usage_to_modifier_bit}
use keymapper_rs.Core.Lookup.{Lookup}
use keymapper_rs.Core.Tracker.{release, release_forwarded, record_forwarded_down}
use keymapper_rs.Core.Engine.{
  MappingEngine, Decision, decide, decide_up, decide_down, decide_fresh, answer, forward_down,
  resolve, or_else, settle, clear_bit_of, clear_stale_key, clear_stale, mark_down,
}

-- No rule has taken effect, and no key was held at the grab.
pub record IsPlain (e : MappingEngine ℕ) : Type 0 where
  pub no_swallowed : (k : ℕ) → contains ℕ_discrete k e.tracker.swallowed_keys ≡ false
  pub no_stale : (k : ℕ) → contains ℕ_discrete k e.tracker.stale_keys ≡ false
  pub no_consumed : e.tracker.consumed_modifiers ≡ 0

-- A lookup without rules.
abbrev pub Silent : Lookup → Type 0
Silent lookup =
    (usage : HidUsage) (modifiers : ℕ) (device_id : Option Str)
    → (lookup.for_active_app usage modifiers device_id ≡ none)
      × (lookup.global usage modifiers device_id ≡ none)

forward_down-IsPlain :
    (e : MappingEngine ℕ) (bit : Option ℕ) → IsPlain e → IsPlain (forward_down e bit)
unfolding forward_down record_forwarded_down
forward_down-IsPlain e none plain = plain
forward_down-IsPlain e (some bit) plain = record {
  no_swallowed = plain.no_swallowed;
  no_stale = plain.no_stale;
  no_consumed =
      ap (λ m. bit_and m (bit_not (2 ^ bit))) plain.no_consumed ∙ empty_bit_and (bit_not (2 ^ bit));
}

-- A decision passes the event through, and the engine stays as plain.
pub record IsPassed (result : MappingEngine ℕ × Decision) : Type 0 where
  pub passed : result.1 ≡ Decision.pass
  pub plain : IsPlain (result.0)

decide_down-IsPassed :
    (lookup : Lookup) (e : MappingEngine ℕ) (key : ℕ) (usage : HidUsage) (device_id : Option Str)
    → Silent lookup
    → IsPlain e
    → IsPassed (decide_down ℕ_discrete lookup e key usage device_id true)
unfolding decide_down decide_fresh answer resolve or_else contains
decide_down-IsPassed lookup e key usage device_id silent plain =
    elim (Bool-cases (contains ℕ_discrete key e.tracker.pressed_keys)) [
      | inl repeated ↦
          rw (repeated, plain.no_swallowed key, plain.no_stale key, decide_down)
            (record { passed = refl; plain = plain })
      | inr fresh ↦
          let (no_app, no_global) = silent usage e.modifier_state device_id in
          rw (fresh, no_app, no_global, decide_down, decide_fresh, resolve)
            (record {
              passed = refl;
              plain =
                  forward_down-IsPlain
                    (mark_down ℕ_discrete e key (hid_usage_to_modifier_bit usage))
                    (hid_usage_to_modifier_bit usage)
                    (record {
                      no_swallowed = plain.no_swallowed;
                      no_stale = plain.no_stale;
                      no_consumed = plain.no_consumed;
                    });
            })
    ]

removed_stale :
    (e : MappingEngine ℕ) (key : ℕ)
    → IsPlain e
    → (k : ℕ) → contains ℕ_discrete k (remove ℕ_discrete key e.tracker.stale_keys) ≡ false
removed_stale e key plain k =
    ground (arith, contains-remove ℕ_discrete k key e.tracker.stale_keys, plain.no_stale k)

pub clear_stale_key-IsPlain :
    (e : MappingEngine ℕ) (key : ℕ) → IsPlain e → IsPlain (clear_stale_key ℕ_discrete e key)
unfolding clear_stale_key clear_stale
clear_stale_key-IsPlain e key plain = record {
  no_swallowed = plain.no_swallowed;
  no_stale = removed_stale e key plain;
  no_consumed = plain.no_consumed;
}

decide_up-IsPassed :
    (e : MappingEngine ℕ) (key : ℕ) (usage : HidUsage)
    → IsPlain e
    → IsPassed (decide_up ℕ_discrete e key usage)
unfolding decide_up release release_forwarded settle
decide_up-IsPassed e key usage plain =
    elim (Bool-cases (contains ℕ_discrete key e.tracker.pressed_keys)) [
      | inr up ↦ rw (up, decide_up) (record { passed = refl; plain = plain })
      | inl down ↦
          rw (down, plain.no_swallowed key, decide_up, release)
            (through (hid_usage_to_modifier_bit usage))
    ]
  where
    through :
        (bit : Option ℕ)
        → let t = record (e.tracker) {
          pressed_keys = remove ℕ_discrete key e.tracker.pressed_keys;
          stale_keys = remove ℕ_discrete key e.tracker.stale_keys;
        } in
          IsPassed (
            settle
              (clear_bit_of (hid_usage_to_modifier_bit usage) e.modifier_state)
              (release_forwarded t bit))
    through none = record {
      passed = refl;
      plain = record {
        no_swallowed = plain.no_swallowed;
        no_stale = removed_stale e key plain;
        no_consumed = plain.no_consumed;
      };
    }
    through (some bit) =
        let unconsumed : (bit_and e.tracker.consumed_modifiers (2 ^ bit) == 0) ≡ true =
          ap (λ m. bit_and m (2 ^ bit) == 0) plain.no_consumed
          ∙ ap (λ m. m == 0) (empty_bit_and (2 ^ bit)) in
        rw (unconsumed, release_forwarded)
          (record {
            passed = refl;
            plain = record {
              no_swallowed = plain.no_swallowed;
              no_stale = removed_stale e key plain;
              no_consumed = plain.no_consumed;
            };
          })

pub decide-IsPassed :
    (lookup : Lookup) (e : MappingEngine ℕ) (key : ℕ) (usage : HidUsage) (is_down : Bool)
    (device_id : Option Str)
    → Silent lookup
    → IsPlain e
    → IsPassed (decide ℕ_discrete lookup e key usage is_down device_id true)
unfolding decide
decide-IsPassed lookup e key usage true device_id silent plain =
    decide_down-IsPassed lookup e key usage device_id silent plain
decide-IsPassed lookup e key usage false device_id silent plain =
    decide_up-IsPassed e key usage plain
