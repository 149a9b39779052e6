-- ===== src/Core/Engine/Keys.antt =====
-- Which keys are down and which are swallowed after a decision.
use keymapper_rs.Core.Engine.{mark_down}
use keymapper_rs.Prelude.{
  ℕ, ◌≡◌, refl, ap, ◌∙◌, inl, inr, List, Bool, true, false, not, ◌&&◌, ◌||◌, Option, none, some,
  arith, same, contains, contains-insert, contains-remove, Bool-cases, if◌then◌else◌,
}
use keymapper_rs.Common.Str.{Str}
use keymapper_rs.Common.HidUsage.{HidUsage, hid_usage_to_modifier_bit}
use keymapper_rs.Core.Rules.{NativeKey}
use keymapper_rs.Core.Lookup.{Lookup}
use keymapper_rs.Core.Tracker.{
  KeyTracker, ReleaseFate, consume_triggered, record_forwarded_down, release, release_forwarded,
}
use keymapper_rs.Core.Tracker.Release.{release_swallowed, release_through}
use keymapper_rs.Core.Engine.{
  MappingEngine, Decision, forward_down, fire, resolve, answer, decide_fresh, decide_down,
  decide_up, decide, settle,
}
use keymapper_rs.Core.Engine.Hold.{hold_outputs-Grows}

abbrev pub is_emit : Decision → Bool
is_emit (Decision.emit released outputs) = true
is_emit _ = false

abbrev pub is_swallow : Decision → Bool
is_swallow (Decision.swallow released) = true
is_swallow _ = false

module _ {ℓ} {K : Type ℓ} (dec : Discrete K) where
  abbrev pub is_down_in : MappingEngine K → K → Bool
  is_down_in e k = contains dec k e.tracker.pressed_keys

  abbrev pub is_swallowed_in : MappingEngine K → K → Bool
  is_swallowed_in e k = contains dec k e.tracker.swallowed_keys

  forward_down_keys :
      (e : MappingEngine K) (b : Option ℕ)
      → ((forward_down e b).tracker.pressed_keys ≡ e.tracker.pressed_keys)
        × ((forward_down e b).tracker.swallowed_keys ≡ e.tracker.swallowed_keys)
  unfolding forward_down record_forwarded_down
  forward_down_keys e none = (refl, refl)
  forward_down_keys e (some bit) = (refl, refl)

  -- The answer to a fresh key-down swallows the key exactly when it emits.
  answer_keys :
      (e : MappingEngine K) (key : K) (b : Option ℕ) (modifiers : ℕ)
      (found : Option (List NativeKey))
      → let r = answer dec e key b modifiers found in
        (r.0.tracker.pressed_keys ≡ e.tracker.pressed_keys)
        × ((k : K)
            → is_swallowed_in r.0 k ≡ ((is_emit r.1 && same dec k key) || is_swallowed_in e k))
  unfolding answer fire consume_triggered
  answer_keys e key b modifiers none =
      ((forward_down_keys e b).0, λ k. ap (contains dec k) (forward_down_keys e b).1)
  answer_keys e key b modifiers (some outputs) =
      let grown = hold_outputs-Grows dec _ key outputs 0 in
      (
        grown.pressed,
        λ k.
            ap (contains dec k) grown.swallowed
            ∙ contains-insert dec k key e.tracker.swallowed_keys,
      )

  settle_keys :
      (state : ℕ) (r : KeyTracker K × Option ReleaseFate) → (settle state r).0.tracker ≡ r.0
  unfolding settle
  settle_keys state (t, some (ReleaseFate.swallow released)) = refl
  settle_keys state (t, some ReleaseFate.consumed) = refl
  settle_keys state (t, none) = refl

  release_forwarded_keys :
      (t : KeyTracker K) (b : Option ℕ)
      → ((release_forwarded t b).0.pressed_keys ≡ t.pressed_keys)
        × ((release_forwarded t b).0.swallowed_keys ≡ t.swallowed_keys)
  unfolding release_forwarded
  release_forwarded_keys t none = (refl, refl)
  release_forwarded_keys t (some bit) = ground arith

  release_keys :
      (t : KeyTracker K) (key : K) (usage : HidUsage)
      → ((release dec t key usage).0.pressed_keys ≡ t.pressed_keys)
        × ((k : K)
            → contains dec k (release dec t key usage).0.swallowed_keys
              ≡ (not (same dec k key) && contains dec k t.swallowed_keys))
  release_keys t key usage = elim (Bool-cases (contains dec key t.swallowed_keys)) [
    | inl sw ↦
        rw (release_swallowed dec t key usage sw)
          (refl, λ k. contains-remove dec k key t.swallowed_keys)
    | inr through ↦ rw (release_through dec t key usage through) (
      (release_forwarded_keys t _).0,
      λ k.
          ap (contains dec k) (release_forwarded_keys t _).1
          ∙ ground
              (arith, through, ap (λ (x : K). contains dec x t.swallowed_keys) {x = k} {y = key}),
    )
  ]

  pub decide_up_keys :
      (e : MappingEngine K) (key : K) (usage : HidUsage)
      → is_down_in e key ≡ true
      → (k : K)
      → let r = decide_up dec e key usage in
        (is_down_in r.0 k ≡ (not (same dec k key) && is_down_in e k))
        × (is_swallowed_in r.0 k ≡ (not (same dec k key) && is_swallowed_in e k))
  unfolding decide_up
  decide_up_keys e key usage down k =
      rw (down, decide_up)
        (
          ap (λ (t : KeyTracker K). contains dec k t.pressed_keys) (settle_keys _ _)
              ∙ ap (contains dec k) (release_keys _ key usage).0
              ∙ contains-remove dec k key e.tracker.pressed_keys,
          ap (λ (t : KeyTracker K). contains dec k t.swallowed_keys) (settle_keys _ _)
              ∙ (release_keys _ key usage).1 k,
        )

  -- A fresh key-down marks the key as down, and swallows it exactly when it emits.
  pub decide_fresh_keys :
      (lookup : Lookup) (e : MappingEngine K) (key : K) (usage : HidUsage) (device_id : Option Str)
      (reachable : Bool) (k : K)
      → let r = decide_fresh dec lookup e key usage device_id reachable in
        (is_down_in r.0 k ≡ (same dec k key || is_down_in e k))
        × (is_swallowed_in r.0 k ≡ ((is_emit r.1 && same dec k key) || is_swallowed_in e k))
  unfolding decide_fresh
  decide_fresh_keys lookup e key usage device_id false k =
      (contains-insert dec k key e.tracker.pressed_keys, refl)
  decide_fresh_keys lookup e key usage device_id true k = (
    ap (contains dec k)
          (answer_keys (mark_down dec e key (hid_usage_to_modifier_bit usage)) key
            (hid_usage_to_modifier_bit usage) e.modifier_state
            (resolve lookup usage e.modifier_state device_id)).0
        ∙ contains-insert dec k key e.tracker.pressed_keys,
    (answer_keys (mark_down dec e key (hid_usage_to_modifier_bit usage)) key
          (hid_usage_to_modifier_bit usage) e.modifier_state
          (resolve lookup usage e.modifier_state device_id)).1
        k,
  )

  -- After a decision a key is down if the event pressed it, up if the event released it, and
  -- otherwise as before.
  pub decide_pressed :
      (lookup : Lookup) (e : MappingEngine K) (key : K) (usage : HidUsage) (is_down : Bool)
      (device_id : Option Str) (reachable : Bool) (k : K)
      → is_down_in (decide dec lookup e key usage is_down device_id reachable).0 k
        ≡ (if same dec k key then is_down else is_down_in e k)
  unfolding decide
  decide_pressed lookup e key usage true device_id reachable k =
      elim (Bool-cases (is_down_in e key)) [
        | inl repeat ↦
            rw (repeat, decide_down) (ground (arith, repeat, ap (is_down_in e) {x = k} {y = key}))
        | inr fresh ↦
            rw (fresh, decide_down)
              (ground (arith, (decide_fresh_keys lookup e key usage device_id reachable k).0))
      ]
  decide_pressed lookup e key usage false device_id reachable k =
      elim (Bool-cases (is_down_in e key)) [
        | inl down ↦ ground (arith, (decide_up_keys e key usage down k).0)
        | inr up ↦ rw (up, decide_up) (ground (arith, up, ap (is_down_in e) {x = k} {y = key}))
      ]
