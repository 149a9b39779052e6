-- ===== src/Platform/Windows/Hook/Fresh.antt =====
-- src/platform/windows/mapping.rs: a check of the ledger, by the age, key and direction of its entries.
use keymapper_rs.Prelude.{
  ℕ, ◌+◌, ◌<◌, ◌≡◌, refl, sym, ap₂, ◌∙◌, Bool, true, false, not, ◌&&◌, List, [], ◌∷◌, Option, none,
  some, arith, ltb, ◌==◌, Bool-cases, inl, inr, All,
}
use keymapper_rs.Platform.Windows.Hook.{
  Entry, PendingOutputLedger, retain_fresh, is_match, remove_match, check_and_consume,
}
use keymapper_rs.Platform.Windows.Hook.Ledger.{one_if}

-- An entry expires 50 ms after it is made.
abbrev pub IsFresh : ℕ → Entry → Type 0
IsFresh now entry = now < entry.at + 50000000

-- The key `v` in the direction `d` is the key `vk` in the direction `is_down`.
abbrev pub is_same : (vk : ℕ) (is_down : Bool) (v : ℕ) (d : Bool) → Bool
is_same vk true v d = v == vk && d
is_same vk false v d = v == vk && not d

-- The entries of a key in a direction that are not expired.
abbrev pub fresh_count : ℕ → Bool → ℕ → List Entry → ℕ
fresh_count vk is_down now [] = 0
fresh_count vk is_down now (entry ∷ entries) =
    one_if (ltb now (entry.at + 50000000) && is_same vk is_down entry.vk entry.is_down)
    + fresh_count vk is_down now entries

-- A check of the entries at the instant `now`.
pub record IsChecked (vk : ℕ) (is_down : Bool) (now : ℕ) (entries : List Entry)
    (result : PendingOutputLedger × Bool) : Type 0 where
  pub accepts : result.1 ≡ ltb 0 (fresh_count vk is_down now entries)
  pub takes :
      (v : ℕ) (d : Bool)
      → fresh_count v d now (result.0).entries + one_if (result.1 && is_same v d vk is_down)
        ≡ fresh_count v d now entries
  pub expires : All (IsFresh now) (result.0).entries

fresh_count-retain_fresh :
    (vk : ℕ) (is_down : Bool) (now : ℕ) (entries : List Entry)
    → fresh_count vk is_down now (retain_fresh now entries) ≡ fresh_count vk is_down now entries
unfolding retain_fresh
fresh_count-retain_fresh vk is_down now [] = refl
fresh_count-retain_fresh vk is_down now (entry ∷ entries) =
    ground (arith, fresh_count-retain_fresh vk is_down now entries)

retain_fresh-IsFresh :
    (now : ℕ) (entries : List Entry) → All (IsFresh now) (retain_fresh now entries)
unfolding retain_fresh
retain_fresh-IsFresh now [] = tt
retain_fresh-IsFresh now (entry ∷ entries) = ground (arith, retain_fresh-IsFresh now entries)

-- A match is an entry of the key and direction.
is_match-is_same :
    (vk : ℕ) (is_down : Bool) (entry : Entry)
    → is_match vk is_down entry ≡ is_same vk is_down entry.vk entry.is_down
is_match-is_same vk true entry = elim (Bool-cases entry.is_down) [
  | inl down ↦ ground (arith, down)
  | inr up ↦ ground (arith, up)
]
is_match-is_same vk false entry = elim (Bool-cases entry.is_down) [
  | inl down ↦ ground (arith, down)
  | inr up ↦ ground (arith, up)
]

is_same→eq :
    (vk : ℕ) (is_down : Bool) (v : ℕ) (d : Bool)
    → is_same vk is_down v d ≡ true
    → (v ≡ vk) × (d ≡ is_down)
is_same→eq vk true v true h = (ground (arith, h), refl)
is_same→eq vk true v false h = ground (arith, h)
is_same→eq vk false v true h = ground (arith, h)
is_same→eq vk false v false h = (ground (arith, h), refl)

-- What is left of fresh entries when the first match is removed.
abbrev IsTaken : ℕ → Bool → ℕ → List Entry → Option (List Entry) → Type 0
IsTaken vk is_down now entries none = fresh_count vk is_down now entries ≡ 0
IsTaken vk is_down now entries (some others) =
    ((v : ℕ) (d : Bool)
      → fresh_count v d now others + one_if (is_same v d vk is_down) ≡ fresh_count v d now entries)
    × All (IsFresh now) others

remove_match-IsTaken :
    (vk : ℕ) (is_down : Bool) (now : ℕ) (entries : List Entry)
    → All (IsFresh now) entries
    → IsTaken vk is_down now entries (remove_match vk is_down entries)
unfolding remove_match
remove_match-IsTaken vk is_down now [] fresh = refl
remove_match-IsTaken vk is_down now (entry ∷ entries) (young, fresh) =
    elim (Bool-cases (is_match vk is_down entry)) [
      | inl first ↦
          let (same_vk, same_d) =
            is_same→eq vk is_down entry.vk entry.is_down
              (sym (is_match-is_same vk is_down entry) ∙ first) in
          rw (first, remove_match)
            (
              λ v d. ground (arith, young, ap₂ (λ a b. one_if (is_same v d a b)) same_vk same_d),
              fresh,
            )
      | inr later ↦
          rw (later, remove_match)
            (go (remove_match vk is_down entries)
              (remove_match-IsTaken vk is_down now entries fresh)
              (sym (is_match-is_same vk is_down entry) ∙ later))
    ]
  where
    go :
        (o : Option (List Entry))
        → IsTaken vk is_down now entries o
        → is_same vk is_down entry.vk entry.is_down ≡ false
        → IsTaken vk is_down now
            (entry ∷ entries)
            (elim o [ none ↦ none | some others ↦ some (entry ∷ others) ])
    go none none_left other = ground (arith, none_left, other)
    go (some others) (one, kept) other = (λ v d. omega (arith, one v d), (young, kept))

is_same_refl : (vk : ℕ) (is_down : Bool) → is_same vk is_down vk is_down ≡ true
is_same_refl vk true = ground arith
is_same_refl vk false = ground arith

-- A tagged event is taken for an own one exactly when an emission of its key in its direction is in
-- the ledger that is less than 50 ms old. Then one such emission is taken from the ledger. The
-- unexpired emissions of every other key or direction stay as many as they were, and no expired one
-- stays.
pub check_and_consume-IsChecked :
    (ledger : PendingOutputLedger) (vk : ℕ) (is_down : Bool) (now : ℕ)
    → IsChecked vk is_down now ledger.entries (check_and_consume ledger vk is_down now)
unfolding check_and_consume
check_and_consume-IsChecked ledger vk is_down now =
    go (remove_match vk is_down (retain_fresh now ledger.entries)) (
      remove_match-IsTaken vk is_down now (retain_fresh now ledger.entries)
        (retain_fresh-IsFresh now ledger.entries))
  where
    same :
        (v : ℕ) (d : Bool)
        → fresh_count v d now (retain_fresh now ledger.entries) ≡ fresh_count v d now ledger.entries
    same v d = fresh_count-retain_fresh v d now ledger.entries

    go :
        (o : Option (List Entry))
        → IsTaken vk is_down now (retain_fresh now ledger.entries) o
        → IsChecked vk is_down now ledger.entries (elim o [
          | none ↦ (record { entries = retain_fresh now ledger.entries }, false)
          | some others ↦ (record { entries = others }, true)
        ])
    go none none_left = record {
      accepts = ground (arith, none_left, same vk is_down);
      takes = λ v d. omega (arith, same v d);
      expires = retain_fresh-IsFresh now ledger.entries;
    }
    go (some others) (one, kept) = record {
      accepts = ground (arith, one vk is_down, same vk is_down, is_same_refl vk is_down);
      takes = λ v d. one v d ∙ same v d;
      expires = kept;
    }
