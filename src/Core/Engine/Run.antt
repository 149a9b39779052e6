-- ===== src/Core/Engine/Run.antt =====
-- Histories of key events, from a fresh engine. The rules may be reloaded between two events, and
-- the emitter may become reachable or unreachable.
use keymapper_rs.Prelude.{
  ℕ, ◌<◌, ◌≡◌, refl, ap, ◌∙◌, inl, inr, List, [], ◌∷◌, Bool, false, Option, none, arith, same,
  contains, Bool-cases, Option-cases, if◌then◌else◌, map_get,
}
use keymapper_rs.Bits.{has, has-zero}
use keymapper_rs.Common.Str.{Str}
use keymapper_rs.Common.HidUsage.{HidUsage}
use keymapper_rs.Core.Lookup.{Lookup}
use keymapper_rs.Core.Engine.{MappingEngine, Decision, decide, new}
use keymapper_rs.Core.Engine.Inv.{Inv}
use keymapper_rs.Core.Engine.Down.{decide-Inv}
use keymapper_rs.Core.Engine.Keys.{is_down_in, decide_pressed}

pub record Event {ℓ} (K : Type ℓ) : Type ℓ where
  pub lookup : Lookup
  pub key : K
  pub is_down : Bool
  pub device_id : Option Str
  pub reachable : Bool

module _ {ℓ} {K : Type ℓ} (dec : Discrete K) (usage_of : K → HidUsage) where
  abbrev pub step : MappingEngine K → Event K → MappingEngine K × Decision
  step e ev = decide dec ev.lookup e ev.key (usage_of ev.key) ev.is_down ev.device_id ev.reachable

  unfoldable pub run : MappingEngine K → List (Event K) → MappingEngine K
  run e [] = e
  run e (ev ∷ evs) = run (step e ev).0 evs

  pub new-Inv : Inv dec usage_of new
  unfolding new map_get
  new-Inv = record {
    state_bits = λ i below h. cc (h, has-zero i);
    forwarded_bits = λ i below h. cc (h, has-zero i);
    consumed_bits = λ i below h. cc (h, has-zero i);
    apart = λ i below h. has-zero i;
    swallowed_pressed = λ k h. h;
    held_swallowed = λ k m h. cc;
    distinct = tt;
  }

  pub run-Inv :
      (e : MappingEngine K) (evs : List (Event K))
      → Inv dec usage_of e
      → Inv dec usage_of (run e evs)
  unfolding run
  run-Inv e [] inv = inv
  run-Inv e (ev ∷ evs) inv =
      run-Inv (step e ev).0 evs
        (decide-Inv dec usage_of ev.lookup e ev.key ev.is_down ev.device_id ev.reachable inv)

  -- After every history of key events, whatever the rules, each set bit of the lookup state is that
  -- of a key that is down or is held by the output of a swallowed key, each forwarded or consumed
  -- modifier is that of a key that is down and was passed through, no modifier is both, and only
  -- keys that are down are swallowed.
  pub run-new-Inv : (evs : List (Event K)) → Inv dec usage_of (run new evs)
  run-new-Inv evs = run-Inv new evs new-Inv

  -- Whether the last event of the key, if it has one, was a key-down.
  unfoldable pub last_is_down : Bool → K → List (Event K) → Bool
  last_is_down before k [] = before
  last_is_down before k (ev ∷ evs) =
      last_is_down (if same dec k ev.key then ev.is_down else before) k evs

  new_up : (k : K) → is_down_in dec new k ≡ false
  unfolding new contains
  new_up k = refl

  run_pressed :
      (e : MappingEngine K) (evs : List (Event K)) (k : K)
      → is_down_in dec (run e evs) k ≡ last_is_down (is_down_in dec e k) k evs
  unfolding run last_is_down
  run_pressed e [] k = refl
  run_pressed e (ev ∷ evs) k =
      run_pressed (step e ev).0 evs k
      ∙ ap (λ b. last_is_down b k evs)
          (decide_pressed dec ev.lookup e ev.key (usage_of ev.key) ev.is_down ev.device_id
            ev.reachable k)

  -- Nothing is left of an engine whose keys are all up.
  pub record IsClear (e : MappingEngine K) : Type ℓ where
    pub state : (i : ℕ) → i < 8 → has e.modifier_state i ≡ false
    pub forwarded : (i : ℕ) → i < 8 → has e.tracker.forwarded_modifiers i ≡ false
    pub consumed : (i : ℕ) → i < 8 → has e.tracker.consumed_modifiers i ≡ false
    pub swallowed : (k : K) → contains dec k e.tracker.swallowed_keys ≡ false
    pub held : (k : K) → map_get dec k e.tracker.held_output_modifiers ≡ none

  -- If every key is up, no modifier is active, forwarded or consumed, no key is swallowed and no
  -- output is held.
  released-IsClear :
      (e : MappingEngine K)
      → Inv dec usage_of e
      → ((k : K) → is_down_in dec e k ≡ false)
      → IsClear e
  released-IsClear e inv up = record {
    state = λ i below. elim (Bool-cases (has e.modifier_state i)) [
      | inl set ↦ elim (inv.state_bits i below set) [
        | inl (k, down, bit) ↦ cc (down, up k)
        | inr (k, m, entry, bit) ↦ cc (inv.swallowed_pressed k (inv.held_swallowed k m entry), up k)
      ]
      | inr clear ↦ clear
    ];
    forwarded = λ i below. elim (Bool-cases (has e.tracker.forwarded_modifiers i)) [
      | inl set ↦ let (k, down, through, bit) = inv.forwarded_bits i below set in cc (down, up k)
      | inr clear ↦ clear
    ];
    consumed = λ i below. elim (Bool-cases (has e.tracker.consumed_modifiers i)) [
      | inl set ↦ let (k, down, through, bit) = inv.consumed_bits i below set in cc (down, up k)
      | inr clear ↦ clear
    ];
    swallowed = λ k. ground (arith, inv.swallowed_pressed k, up k);
    held = λ k. elim (Option-cases (map_get dec k e.tracker.held_output_modifiers)) [
      | inl empty ↦ empty
      | inr (m, entry) ↦ cc (inv.swallowed_pressed k (inv.held_swallowed k m entry), up k)
    ];
  }

  -- No modifier gets stuck: after a history in which the last event of every key is a key-up, no
  -- modifier is active, forwarded or consumed, no key is swallowed and no output is held.
  pub run-new-IsClear :
      (evs : List (Event K)) → ((k : K) → last_is_down false k evs ≡ false) → IsClear (run new evs)
  run-new-IsClear evs up =
      released-IsClear (run new evs) (run-new-Inv evs)
        (λ k. run_pressed new evs k ∙ rw (new_up k) (up k))
