-- ===== src/Core/Engine/Pairing.antt =====
-- src/keymap_core/engine.rs: the fate of a key-up and that of its key-down.
use keymapper_rs.Prelude.{
  ℕ, ◌≡◌, ◌≢◌, refl, ap, sym, ◌∙◌, ◌⊎◌, inl, inr, List, [], ◌∷◌, Bool, true, false, Option, none,
  some, arith, same_self, Bool-cases, All,
}
use keymapper_rs.Common.Str.{Str}
use keymapper_rs.Common.HidUsage.{HidUsage, hid_usage_to_modifier_bit}
use keymapper_rs.Core.Lookup.{Lookup}
use keymapper_rs.Core.Tracker.{KeyTracker, release_forwarded}
use keymapper_rs.Core.Tracker.Release.{release_swallowed, release_through}
use keymapper_rs.Core.Engine.{MappingEngine, decide, decide_down, decide_up, settle, clear_bit_of}
use keymapper_rs.Core.Engine.Inv.{Inv}
use keymapper_rs.Core.Engine.Keys.{
  is_down_in, is_swallowed_in, is_emit, is_swallow, decide_pressed, decide_fresh_keys,
  decide_up_keys,
}
use keymapper_rs.Core.Engine.Run.{Event, step, run}

module _ {ℓ} {K : Type ℓ} (dec : Discrete K) (usage_of : K → HidUsage) where
  -- The event is not a key-up of the key.
  abbrev pub Holds : K → Event K → Type ℓ
  Holds k ev = (ev.is_down ≡ true) ⊎ (ev.key ≢ k)

  decide_down_swallowed :
      (lookup : Lookup) (e : MappingEngine K) (key : K) (usage : HidUsage) (device_id : Option Str)
      (reachable : Bool) (k : K)
      → is_down_in dec e k ≡ true
      → is_swallowed_in dec (decide_down dec lookup e key usage device_id reachable).0 k
        ≡ is_swallowed_in dec e k
  unfolding decide_down
  decide_down_swallowed lookup e key usage device_id reachable k down =
      elim (Bool-cases (is_down_in dec e key)) [
        | inl repeat ↦ rw (repeat, decide_down) refl
        | inr fresh ↦
            rw (fresh, decide_down)
              (ground (
                arith,
                (decide_fresh_keys dec lookup e key usage device_id reachable k).1,
                down,
                fresh,
                ap (is_down_in dec e) {x = k} {y = key},
              ))
      ]

  decide_swallowed :
      (lookup : Lookup) (e : MappingEngine K) (key : K) (usage : HidUsage) (is_down : Bool)
      (device_id : Option Str) (reachable : Bool) (k : K)
      → is_down_in dec e k ≡ true
      → (is_down ≡ true) ⊎ (key ≢ k)
      → is_swallowed_in dec (decide dec lookup e key usage is_down device_id reachable).0 k
        ≡ is_swallowed_in dec e k
  unfolding decide
  decide_swallowed lookup e key usage true device_id reachable k down h =
      decide_down_swallowed lookup e key usage device_id reachable k down
  decide_swallowed lookup e key usage false device_id reachable k down h =
      elim (Bool-cases (is_down_in dec e key)) [
        | inl pressed ↦ ground (arith, (decide_up_keys dec e key usage pressed k).1, h)
        | inr up ↦ rw (up, decide_up) refl
      ]

  -- An event that is not its key-up leaves a key that is down as it is.
  step-Holds :
      (e : MappingEngine K) (ev : Event K) (k : K)
      → Holds k ev
      → is_down_in dec e k ≡ true
      → (is_down_in dec (step dec usage_of e ev).0 k ≡ true)
        × (is_swallowed_in dec (step dec usage_of e ev).0 k ≡ is_swallowed_in dec e k)
  step-Holds e ev k holds down = (
    ground (
      arith,
      down,
      holds,
      decide_pressed dec ev.lookup e ev.key (usage_of ev.key) ev.is_down ev.device_id ev.reachable
          k,
    ),
    decide_swallowed ev.lookup e ev.key (usage_of ev.key) ev.is_down ev.device_id ev.reachable k
        down holds,
  )

  run-Holds :
      (e : MappingEngine K) (evs : List (Event K)) (k : K)
      → All (Holds k) evs
      → is_down_in dec e k ≡ true
      → (is_down_in dec (run dec usage_of e evs) k ≡ true)
        × (is_swallowed_in dec (run dec usage_of e evs) k ≡ is_swallowed_in dec e k)
  unfolding run
  run-Holds e [] k h down = (down, refl)
  run-Holds e (ev ∷ evs) k (h, hs) down =
      let (down', sw) = step-Holds e ev k h down in
      let (down'', sw') = run-Holds (step dec usage_of e ev).0 evs k hs down' in (down'', sw' ∙ sw)

  settle_swallow :
      (state : ℕ) (t : KeyTracker K) (b : Option ℕ)
      → is_swallow (settle state (release_forwarded t b)).1 ≡ false
  unfolding settle release_forwarded
  settle_swallow state t none = refl
  settle_swallow state t (some bit) = ground arith

  -- A key that is down is swallowed on its key-up exactly when its key-down was.
  decide_up_swallow :
      (e : MappingEngine K) (key : K) (usage : HidUsage)
      → is_down_in dec e key ≡ true
      → is_swallow (decide_up dec e key usage).1 ≡ is_swallowed_in dec e key
  unfolding decide_up
  decide_up_swallow e key usage down =
      rw (down, decide_up)
        (elim (Bool-cases (is_swallowed_in dec e key)) [
          | inl sw ↦
              ap
                (λ r.
                  is_swallow
                    (settle (clear_bit_of (hid_usage_to_modifier_bit usage) e.modifier_state) r).1)
                (release_swallowed dec _ key usage sw)
              ∙ sym sw
          | inr through ↦
              ap
                (λ r.
                  is_swallow
                    (settle (clear_bit_of (hid_usage_to_modifier_bit usage) e.modifier_state) r).1)
                (release_through dec _ key usage through)
              ∙ settle_swallow _ _ (hid_usage_to_modifier_bit usage)
              ∙ sym through
        ])

  step_down :
      (e : MappingEngine K) (ev : Event K)
      → Inv dec usage_of e
      → is_down_in dec e ev.key ≡ false
      → ev.is_down ≡ true
      → (is_down_in dec (step dec usage_of e ev).0 ev.key ≡ true)
        × (is_swallowed_in dec (step dec usage_of e ev).0 ev.key
            ≡ is_emit (step dec usage_of e ev).1)
  unfolding decide decide_down
  step_down e ev inv fresh is_down =
      let keys =
        decide_fresh_keys dec ev.lookup e ev.key (usage_of ev.key) ev.device_id ev.reachable
          ev.key in
      rw (is_down, decide)
        (rw (fresh, decide_down)
          (
            ground (arith, keys.0, same_self dec ev.key),
            ground (arith, keys.1, same_self dec ev.key, fresh, inv.swallowed_pressed ev.key),
          ))

  -- A key-up is swallowed exactly when the key-down was mapped: if the invariant holds and a key that
  -- was up goes down, then
  -- any events follow that do not release it (repeats of the key, other keys, reloaded rules, an
  -- emitter that comes or goes), and then it goes up, the decision for the key-up is a swallow if
  -- the decision for the key-down was an emission, and otherwise it is not.
  pub press-release_paired :
      (e : MappingEngine K) (down up : Event K) (evs : List (Event K))
      → Inv dec usage_of e
      → is_down_in dec e down.key ≡ false
      → down.is_down ≡ true
      → up.is_down ≡ false
      → up.key ≡ down.key
      → All (Holds down.key) evs
      → is_swallow (step dec usage_of (run dec usage_of (step dec usage_of e down).0 evs) up).1
        ≡ is_emit (step dec usage_of e down).1
  unfolding decide
  press-release_paired e down up evs inv fresh is_down is_up same_key hold =
      let (now_down, fate) = step_down e down inv fresh is_down in
      let (still_down, kept) = run-Holds (step dec usage_of e down).0 evs down.key hold now_down in
      let last = run dec usage_of (step dec usage_of e down).0 evs in
      rw (is_up, same_key, decide)
        (decide_up_swallow last down.key (usage_of down.key) still_down ∙ kept ∙ fate)
