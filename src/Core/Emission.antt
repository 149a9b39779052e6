-- ===== src/Core/Emission.antt =====
-- src/keymap_core/emission.rs: what the backends do with a decision.
pub mod Held
use keymapper_rs.Prelude.{ℕ, List, [], ◌∷◌, none, some, ◌==◌, if◌then◌else◌}
use keymapper_rs.Core.Rules.{NativeKey}
use keymapper_rs.Core.Engine.{Decision, output_held_mask}

pub data EmitAction : Type 0 where
  release_consumed : ℕ → EmitAction
  tap : NativeKey → EmitAction
  hold : NativeKey → EmitAction

pub data InputFate : Type 0 where
  forward swallow silent : InputFate

pub data ConsumedReleaseFate : Type 0 where
  swallow pass_through : ConsumedReleaseFate

pub record EmissionPlan : Type 0 where
  pub input : InputFate
  pub actions : List EmitAction

-- `if release != 0 { actions.push(ReleaseConsumed(release)) }`, before the rest.
unfoldable pub push_release : ℕ → List EmitAction → List EmitAction
push_release released actions =
    if released == 0 then actions else release_consumed released ∷ actions

unfoldable pub output_action : NativeKey → EmitAction
output_action output = elim (output_held_mask output) [ some _ ↦ hold output | none ↦ tap output ]

unfoldable pub output_actions : List NativeKey → List EmitAction
unfolding output_action
output_actions [] = []
output_actions (output ∷ outputs) = output_action output ∷ output_actions outputs

unfoldable pub emission_plan : Decision → ConsumedReleaseFate → EmissionPlan
unfolding push_release output_actions
emission_plan Decision.pass c = record { input = InputFate.forward; actions = [] }
emission_plan (Decision.emit released outputs) c = record {
  input = InputFate.silent;
  actions = push_release released (output_actions outputs);
}
emission_plan (Decision.swallow released) c = record {
  input = InputFate.swallow;
  actions = push_release released [];
}
emission_plan Decision.consumed_release ConsumedReleaseFate.swallow = record {
  input = InputFate.swallow;
  actions = [];
}
emission_plan Decision.consumed_release ConsumedReleaseFate.pass_through = record {
  input = InputFate.forward;
  actions = [];
}
