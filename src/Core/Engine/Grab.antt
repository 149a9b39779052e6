-- ===== src/Core/Engine/Grab.antt =====
-- src/keymap_core/engine.rs, the notes on keys that are held when the stream of events starts, and
-- the invariant.
use keymapper_rs.Prelude.{
  ℕ, ◌^◌, ◌<◌, ◌≡◌, ◌≢◌, refl, sym, ap, subst, ◌∙◌, inl, inr, List, true, false, Option, none, some,
  contains, insert, remove, bit_and,
}
use keymapper_rs.Bits.{has, bit_not, empty_bit_and, has-zero}
use keymapper_rs.Common.HidUsage.{HidUsage}
use keymapper_rs.Core.Tracker.{record_forwarded_down}
use keymapper_rs.Core.Engine.{
  MappingEngine, set_bit_of, clear_bit_of, forward_down, mark_stale, note_held, note_held_key,
  note_stale_key, clear_stale, clear_stale_key, unnote_held, unnote_held_key,
}
use keymapper_rs.Core.Engine.Inv.{Inv, bit_of}
use keymapper_rs.Core.Engine.Witness.{has-clear_bit_of, PressedBit-remove, ForwardedBit-remove}
use keymapper_rs.Core.Engine.Down.{raised, forward_down-Inv}

module _ {ℓ} {K : Type ℓ} (dec : Discrete K) (usage_of : K → HidUsage) where
  -- The invariant, before any rule has taken effect.
  pub record IsStarted (e : MappingEngine K) : Type ℓ where
    pub inv : Inv dec usage_of e
    pub no_swallowed : (k : K) → contains dec k e.tracker.swallowed_keys ≡ false
    pub no_consumed : e.tracker.consumed_modifiers ≡ 0

  -- The invariant does not read the stale marks.
  pub restaled :
      (e : MappingEngine K) (state : ℕ) (stale : List K)
      → state ≡ e.modifier_state
      → Inv dec usage_of e
      → Inv dec usage_of
          (record { modifier_state = state; tracker = record (e.tracker) { stale_keys = stale } })
  restaled e state stale eq inv = record {
    state_bits = λ i below h. inv.state_bits i below (subst (λ m. has m i ≡ true) eq h);
    forwarded_bits = inv.forwarded_bits;
    consumed_bits = inv.consumed_bits;
    apart = inv.apart;
    swallowed_pressed = inv.swallowed_pressed;
    held_swallowed = inv.held_swallowed;
    distinct = inv.distinct;
  }

  pub note_held_key-IsStarted :
      (e : MappingEngine K) (key : K)
      → contains dec key e.tracker.pressed_keys ≡ false
      → IsStarted e
      → IsStarted (note_held_key dec e key (usage_of key))
  unfolding note_held_key note_held mark_stale forward_down record_forwarded_down raised set_bit_of
  note_held_key-IsStarted e key up s = go (bit_of dec usage_of key) refl
    where
      go :
          (b : Option ℕ)
          → bit_of dec usage_of key ≡ b
          → IsStarted (
              note_held dec
                (record e {
                  tracker = record (e.tracker) {
                    pressed_keys = insert dec key e.tracker.pressed_keys;
                  };
                })
                key
                b)
      go none eq = record {
        inv =
            restaled (raised dec usage_of e key s.inv up) e.modifier_state _
              (sym (ap (λ b. set_bit_of b e.modifier_state) eq))
              (forward_down-Inv dec usage_of e key s.inv up none eq);
        no_swallowed = s.no_swallowed;
        no_consumed = s.no_consumed;
      }
      go (some bit) eq = record {
        inv =
            restaled (forward_down (raised dec usage_of e key s.inv up) (some bit)) _ _
              (sym (ap (λ b. set_bit_of b e.modifier_state) eq))
              (forward_down-Inv dec usage_of e key s.inv up (some bit) eq);
        no_swallowed = s.no_swallowed;
        no_consumed =
            ap (λ m. bit_and m (bit_not (2 ^ bit))) s.no_consumed
            ∙ empty_bit_and (bit_not (2 ^ bit));
      }

  pub note_stale_key-IsStarted :
      (e : MappingEngine K) (key : K) → IsStarted e → IsStarted (note_stale_key dec e key)
  unfolding note_stale_key mark_stale
  note_stale_key-IsStarted e key s = record {
    inv = restaled e _ _ refl s.inv;
    no_swallowed = s.no_swallowed;
    no_consumed = s.no_consumed;
  }

  pub clear_stale_key-IsStarted :
      (e : MappingEngine K) (key : K) → IsStarted e → IsStarted (clear_stale_key dec e key)
  unfolding clear_stale_key clear_stale
  clear_stale_key-IsStarted e key s = record {
    inv = restaled e _ _ refl s.inv;
    no_swallowed = s.no_swallowed;
    no_consumed = s.no_consumed;
  }

  -- Neither a set bit nor a pressed key depends on a key that is lifted with its bit.
  lifted :
      (e : MappingEngine K) (key : K) (b : Option ℕ) (stale : List K) (forwarded : ℕ)
      → bit_of dec usage_of key ≡ b
      → IsStarted e
      → ((i : ℕ)
          → i < 8
          → has forwarded i ≡ true
          → (has e.tracker.forwarded_modifiers i ≡ true) × (b ≢ some i))
      → IsStarted (record {
        modifier_state = clear_bit_of b e.modifier_state;
        tracker = record (e.tracker) {
          pressed_keys = remove dec key e.tracker.pressed_keys;
          forwarded_modifiers = forwarded;
          stale_keys = stale;
        };
      })
  lifted e key b stale forwarded eq s fewer = record {
    inv = record {
      state_bits = λ i below h.
          let (set, other) = has-clear_bit_of b e.modifier_state i below h in
          elim (s.inv.state_bits i below set) [
            | inl p ↦ inl (
                PressedBit-remove dec usage_of key e.tracker.pressed_keys i
                  (λ h'. other (sym eq ∙ h')) p)
            | inr p ↦ inr p
          ];
      forwarded_bits = λ i below h.
          let (set, other) = fewer i below h in
          ForwardedBit-remove dec usage_of key e.tracker.pressed_keys e.tracker.swallowed_keys i
            (λ h'. other (sym eq ∙ h')) (s.inv.forwarded_bits i below set);
      consumed_bits = λ i below h. cc (h, ap (λ m. has m i) s.no_consumed, has-zero i);
      apart = λ i below h. ap (λ m. has m i) s.no_consumed ∙ has-zero i;
      swallowed_pressed = λ k h. cc (h, s.no_swallowed k);
      held_swallowed = s.inv.held_swallowed;
      distinct = s.inv.distinct;
    };
    no_swallowed = s.no_swallowed;
    no_consumed = s.no_consumed;
  }

  pub unnote_held_key-IsStarted :
      (e : MappingEngine K) (key : K)
      → IsStarted e
      → IsStarted (unnote_held_key dec e key (usage_of key))
  unfolding unnote_held_key unnote_held clear_stale clear_bit_of
  unnote_held_key-IsStarted e key s = go (bit_of dec usage_of key) refl
    where
      go :
          (b : Option ℕ)
          → bit_of dec usage_of key ≡ b
          → IsStarted (
              unnote_held dec
                (record e {
                  tracker = record (e.tracker) {
                    pressed_keys = remove dec key e.tracker.pressed_keys;
                  };
                })
                key
                b)
      go none eq =
          lifted e key none _ e.tracker.forwarded_modifiers eq s (λ i below h. (h, λ e. cc))
      go (some bit) eq =
          lifted e key (some bit) _ _ eq s
            (λ i below h. has-clear_bit_of (some bit) e.tracker.forwarded_modifiers i below h)
