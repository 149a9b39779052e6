-- ===== src/Platform/Windows/Hook.antt =====
-- src/platform/windows/mapping.rs: the budget for sleeping within the keyboard hook, and the ledger of
-- the emitted keys. An instant is a number of nanoseconds, which each operation is given; a duration
-- since a later instant is 0.
pub mod Budget
pub mod Ledger
pub mod Fresh
use keymapper_rs.Prelude.{
  ℕ, ◌+◌, ◌-◌, Bool, true, false, not, ◌&&◌, List, [], ◌∷◌, ◌++◌, Option, none, some, ◌==◌, ltb,
  min, if◌then◌else◌,
}

abbrev pub hook_sleep_budget : ℕ
hook_sleep_budget = 100000000

abbrev pub tag_match_window : ℕ
tag_match_window = 50000000

-- `start` is when the running callback of the hook began, if one runs.
unfoldable pub bounded_sleep : (start : Option ℕ) (now : ℕ) (duration : ℕ) → Option ℕ
bounded_sleep none now duration = some duration
bounded_sleep (some start) now duration =
    let elapsed = now - start in
    if not (ltb elapsed hook_sleep_budget)
    then none
    else some (min duration (hook_sleep_budget - elapsed))

-- The instant after the sleep. `thread::sleep` lasts at least as long as it is asked to, so what it
-- lasts beyond that is given as `overshoot`.
unfoldable pub hook_sleep : (start : Option ℕ) (now : ℕ) (duration : ℕ) (overshoot : ℕ) → ℕ
unfolding bounded_sleep
hook_sleep start now duration overshoot = elim (bounded_sleep start now duration) [
  | none ↦ now
  | some sleep_for ↦ now + sleep_for + overshoot
]

pub record Entry : Type 0 where
  pub vk : ℕ
  pub is_down : Bool
  pub at : ℕ

pub record PendingOutputLedger : Type 0 where
  pub entries : List Entry

unfoldable pub empty_ledger : PendingOutputLedger
empty_ledger = record { entries = [] }

-- `retain` with the match window.
unfoldable pub retain_fresh : ℕ → List Entry → List Entry
retain_fresh now [] = []
retain_fresh now (entry ∷ entries) =
    let rest = retain_fresh now entries in
    if ltb (now - entry.at) tag_match_window then entry ∷ rest else rest

-- `==` on `bool`.
abbrev pub same_direction : Bool → Bool → Bool
same_direction true d = d
same_direction false d = not d

abbrev pub is_match : ℕ → Bool → Entry → Bool
is_match vk is_down entry = entry.vk == vk && same_direction entry.is_down is_down

-- The entries without the first match, if there is one: `position` and `remove`.
unfoldable pub remove_match : ℕ → Bool → List Entry → Option (List Entry)
remove_match vk is_down [] = none
remove_match vk is_down (entry ∷ entries) =
    let rest = remove_match vk is_down entries in
    if is_match vk is_down entry
    then some entries
    else elim rest [ none ↦ none | some others ↦ some (entry ∷ others) ]

unfoldable pub record_output : PendingOutputLedger → ℕ → Bool → ℕ → PendingOutputLedger
unfolding retain_fresh
record_output ledger vk is_down now = record {
  entries = retain_fresh now ledger.entries ++ record { vk = vk; is_down = is_down; at = now } ∷ [];
}

unfoldable pub check_and_consume : PendingOutputLedger → ℕ → Bool → ℕ → PendingOutputLedger × Bool
unfolding retain_fresh remove_match
check_and_consume ledger vk is_down now =
    let fresh = retain_fresh now ledger.entries in
    elim (remove_match vk is_down fresh) [
      | none ↦ (record { entries = fresh }, false)
      | some others ↦ (record { entries = others }, true)
    ]
