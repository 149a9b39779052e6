-- ===== src/Examples/Engine.antt =====
-- A keyboard whose key 1 is the left shift, key 2 is A and every other key is B, and one rule: the
-- left shift with A gives the left control, which is held.
use keymapper_rs.Prelude.{
  ℕ, ◌≡◌, refl, inl, List, [], ◌∷◌, true, false, none, arith, ◌==◌, if◌then◌else◌, ℕ_discrete,
  contains, insert,
}
use keymapper_rs.Bits.{has}
use keymapper_rs.Common.HidUsage.{HidUsage, usage_eq, code, hid_usage_to_modifier_bit}
use keymapper_rs.Core.Rules.{NativeKey, CompiledRule}
use keymapper_rs.Core.Lookup.{Lookup, find_match}
use keymapper_rs.Core.Engine.{MappingEngine, Decision, decide, new, set_bit_of}
use keymapper_rs.Core.Tracker.{record_forwarded_down, consume_triggered, consume_held}
use keymapper_rs.Core.Engine.Inv.{Inv}
use keymapper_rs.Core.Engine.Down.{decide-Inv}
use keymapper_rs.Core.Engine.Keys.{is_emit, is_swallow, is_down_in}
use keymapper_rs.Core.Engine.Run.{
  Event, step, run, run-new-Inv, last_is_down, IsClear, run-new-IsClear,
}
use keymapper_rs.Core.Engine.Pairing.{press-release_paired}
use keymapper_rs.Core.Engine.CleanTap.{IsCleanTap, decide-IsCleanTap}
use keymapper_rs.Core.Emission.{InputFate, ConsumedReleaseFate, push_release, emission_plan}
use keymapper_rs.Core.Emission.Held.{holds_bit, press-release_plan}

abbrev usage_of : ℕ → HidUsage
usage_of n =
    if n == 1 then HidUsage.left_shift else if n == 2 then HidUsage.key_a else HidUsage.key_b

abbrev control : NativeKey
control = record { modifiers = 0; usage = HidUsage.left_control }

abbrev rule : CompiledRule
rule = record { usage = HidUsage.key_a; modifiers = 2; outputs = control ∷ []; keyboards = none }

abbrev rules : Lookup
rules = record {
  for_app = λ app usage modifiers device_id. none;
  for_active_app = λ usage modifiers device_id. none;
  global = λ usage modifiers device_id. find_match (rule ∷ []) usage modifiers (λ f. true);
}

abbrev press : ℕ → Event ℕ
press k = record { lookup = rules; key = k; is_down = true; device_id = none; reachable = true }

abbrev lift : ℕ → Event ℕ
lift k = record { lookup = rules; key = k; is_down = false; device_id = none; reachable = true }

abbrev shifted : MappingEngine ℕ
shifted = run ℕ_discrete usage_of new (press 1 ∷ [])

abbrev history : List (Event ℕ)
history = press 1 ∷ press 2 ∷ press 3 ∷ lift 2 ∷ lift 1 ∷ lift 3 ∷ []

history_ends_up : (k : ℕ) → last_is_down ℕ_discrete usage_of false k history ≡ false
unfolding last_is_down
history_ends_up k = ground arith

run-new-Inv_example : Inv ℕ_discrete usage_of (run ℕ_discrete usage_of new history)
run-new-Inv_example = run-new-Inv ℕ_discrete usage_of history

run-new-IsClear_example : IsClear ℕ_discrete usage_of (run ℕ_discrete usage_of new history)
run-new-IsClear_example = run-new-IsClear ℕ_discrete usage_of history history_ends_up

decide-Inv_example :
    Inv ℕ_discrete usage_of (decide ℕ_discrete rules shifted 2 (usage_of 2) true none true).0
decide-Inv_example =
    decide-Inv ℕ_discrete usage_of rules shifted 2 true none true
      (run-new-Inv ℕ_discrete usage_of (press 1 ∷ []))

fresh_a : is_down_in ℕ_discrete shifted 2 ≡ false
unfolding run new decide contains find_match usage_eq code hid_usage_to_modifier_bit
    record_forwarded_down insert ℕ_discrete
fresh_a = refl

press-release_paired_example :
    is_swallow
      (step ℕ_discrete usage_of
        (run ℕ_discrete usage_of (step ℕ_discrete usage_of shifted (press 2)).0 (press 3 ∷ []))
        (lift 2)).1
    ≡ is_emit (step ℕ_discrete usage_of shifted (press 2)).1
press-release_paired_example =
    press-release_paired ℕ_discrete usage_of shifted (press 2) (lift 2) (press 3 ∷ [])
      (run-new-Inv ℕ_discrete usage_of (press 1 ∷ [])) fresh_a refl refl refl (inl refl, tt)

shifted_a :
    (decide ℕ_discrete rules shifted 2 (usage_of 2) true none true).1
    ≡ Decision.emit 2 (control ∷ [])
unfolding run new decide contains find_match usage_eq code hid_usage_to_modifier_bit
    record_forwarded_down insert ℕ_discrete set_bit_of consume_triggered consume_held
shifted_a = refl

decide-IsCleanTap_example :
    IsCleanTap ℕ_discrete shifted 2
      (decide ℕ_discrete rules shifted 2 (usage_of 2) true none true).0
      2
decide-IsCleanTap_example =
    decide-IsCleanTap ℕ_discrete usage_of rules shifted 2 none true 2 (control ∷ [])
      (run-new-Inv ℕ_discrete usage_of (press 1 ∷ [])) fresh_a shifted_a

abbrev after_a : MappingEngine ℕ × Decision
after_a = decide ℕ_discrete rules shifted 2 (usage_of 2) true none true

emitted : is_emit after_a.1 ≡ true
unfolding run new decide contains find_match usage_eq code hid_usage_to_modifier_bit
    record_forwarded_down insert ℕ_discrete set_bit_of
emitted = refl

press-release_plan_example :
    (m : ℕ) × (emission_plan
        (decide ℕ_discrete rules after_a.0 2 (usage_of 2) false none true).1
        ConsumedReleaseFate.swallow
      ≡ record { input = InputFate.swallow; actions = push_release m [] })
    × ((i : ℕ)
        → has m i ≡ holds_bit i (emission_plan after_a.1 ConsumedReleaseFate.swallow).actions)
press-release_plan_example =
    press-release_plan ℕ_discrete usage_of rules shifted 2 none true ConsumedReleaseFate.swallow
      (run-new-Inv ℕ_discrete usage_of (press 1 ∷ [])) fresh_a emitted
