-- ===== src/Examples/Windows.antt =====
-- The keyboard hook of Windows.
use keymapper_rs.Prelude.{◌-◌, ◌≤◌, ◌≡◌, refl, true, List, [], ◌∷◌, none, some, All}
use keymapper_rs.Platform.Windows.Hook.{
  PendingOutputLedger, empty_ledger, bounded_sleep, hook_sleep, hook_sleep_budget, retain_fresh,
  remove_match, check_and_consume,
}
use keymapper_rs.Platform.Windows.Hook.Budget.{
  Pause, callback, IsBounded, total, callback-hook_sleep,
}
use keymapper_rs.Platform.Windows.Hook.Ledger.{
  Use, emitted, seen, accepted, emissions, accepted-emissions,
}
use keymapper_rs.Platform.Windows.Hook.Fresh.{IsChecked, check_and_consume-IsChecked}

-- Four pauses of 40 ms after 5 ms of work each. The first lasts 3 ms longer, the third is cut, and the
-- last is left out.
abbrev pauses : List Pause
pauses =
    record { work = 5000000; duration = 40000000; overshoot = 3000000 }
    ∷ record { work = 5000000; duration = 40000000; overshoot = 0 }
    ∷ record { work = 5000000; duration = 40000000; overshoot = 1 }
    ∷ record { work = 5000000; duration = 40000000; overshoot = 0 }
    ∷ []

cut_short :
    callback 1000 1000 pauses
    ≡ record { at = 5001000; duration = 40000000; sleep_for = some 40000000 }
      ∷ record { at = 53001000; duration = 40000000; sleep_for = some 40000000 }
      ∷ record { at = 98001000; duration = 40000000; sleep_for = some 2000000 }
      ∷ record { at = 105001001; duration = 40000000; sleep_for = none }
      ∷ []
unfolding hook_sleep bounded_sleep
cut_short = refl

callback-hook_sleep_example :
    All
      (λ sleep. IsBounded (sleep.at - 1000) sleep.duration sleep.sleep_for)
      (callback 1000 1000 pauses)
    × (total (callback 1000 1000 pauses) ≤ hook_sleep_budget)
callback-hook_sleep_example = callback-hook_sleep 1000 pauses

-- An old emission of A and a fresh one.
abbrev two_emissions : PendingOutputLedger
two_emissions = record {
  entries =
      record { vk = 0x41; is_down = true; at = 0 }
      ∷ record { vk = 0x41; is_down = true; at = 60000000 }
      ∷ [];
}

only_fresh : check_and_consume two_emissions 0x41 true 70000000 ≡ (record { entries = [] }, true)
unfolding check_and_consume retain_fresh remove_match
only_fresh = refl

check_and_consume-IsChecked_example :
    IsChecked 0x41 true 70000000 two_emissions.entries
      (check_and_consume two_emissions 0x41 true 70000000)
check_and_consume-IsChecked_example = check_and_consume-IsChecked two_emissions 0x41 true 70000000

-- The second event of a single emission is forged.
abbrev replay : List Use
replay = emitted 0x41 true 0 ∷ seen 0x41 true 10 ∷ seen 0x41 true 20 ∷ []

accepted-emissions_example : accepted 0x41 true empty_ledger replay ≤ emissions 0x41 true replay
accepted-emissions_example = accepted-emissions 0x41 true replay
