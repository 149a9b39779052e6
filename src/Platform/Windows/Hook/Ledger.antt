-- ===== src/Platform/Windows/Hook/Ledger.antt =====
-- src/platform/windows/mapping.rs: the ledger of the emitted keys.
use keymapper_rs.Prelude.{
  ℕ, suc, ◌+◌, ◌≤◌, ◌≡◌, refl, ap₂, subst, Bool, true, false, ◌&&◌, List, [], ◌∷◌, ◌++◌, Option,
  none, some, arith, ltb, Bool-cases, inl, inr, if◌then◌else◌,
}
use keymapper_rs.Platform.Windows.Hook.{
  Entry, PendingOutputLedger, empty_ledger, retain_fresh, is_match, remove_match, record_output,
  check_and_consume, same_direction,
}

-- The entries of a key and direction.
unfoldable pub count : ℕ → Bool → List Entry → ℕ
count vk is_down [] = 0
count vk is_down (entry ∷ entries) =
    if is_match vk is_down entry then suc (count vk is_down entries) else count vk is_down entries

count-append :
    (vk : ℕ) (is_down : Bool) (xs ys : List Entry)
    → count vk is_down (xs ++ ys) ≡ count vk is_down xs + count vk is_down ys
unfolding count
count-append vk is_down [] ys = omega arith
count-append vk is_down (x ∷ xs) ys = ground (arith, count-append vk is_down xs ys)

count-retain_fresh :
    (vk : ℕ) (is_down : Bool) (now : ℕ) (entries : List Entry)
    → count vk is_down (retain_fresh now entries) ≤ count vk is_down entries
unfolding count retain_fresh
count-retain_fresh vk is_down now [] = omega arith
count-retain_fresh vk is_down now (entry ∷ entries) =
    ground (arith, count-retain_fresh vk is_down now entries)

-- What is left of the entries.
abbrev IsRemoved : ℕ → Bool → List Entry → Option (List Entry) → Type 0
IsRemoved vk is_down entries none = count vk is_down entries ≡ 0
IsRemoved vk is_down entries (some others) =
    (count vk is_down entries ≡ suc (count vk is_down others))
    × ((v : ℕ) (d : Bool) → count v d others ≤ count v d entries)

-- Removing the first match takes one from its count, and nothing from the others'.
count-remove_match :
    (vk : ℕ) (is_down : Bool) (entries : List Entry)
    → (o : Option (List Entry)) → remove_match vk is_down entries ≡ o
    → IsRemoved vk is_down entries o
unfolding count remove_match
count-remove_match vk is_down [] o h = subst (IsRemoved vk is_down []) h refl
count-remove_match vk is_down (entry ∷ entries) o h =
    subst (IsRemoved vk is_down (entry ∷ entries)) h
      (elim (Bool-cases (is_match vk is_down entry)) [
        | inl first ↦ rw (first, remove_match) (rw (first, count) refl, λ v d. counted_less v d)
        | inr later ↦
            rw (later, remove_match)
              (go (remove_match vk is_down entries) (count-remove_match vk is_down entries _ refl)
                later)
      ])
  where
    counted_less : (v : ℕ) (d : Bool) → count v d entries ≤ count v d (entry ∷ entries)
    counted_less v d = ground arith

    go :
        (o : Option (List Entry))
        → IsRemoved vk is_down entries o
        → is_match vk is_down entry ≡ false
        → IsRemoved vk is_down
            (entry ∷ entries)
            (elim o [ none ↦ none | some others ↦ some (entry ∷ others) ])
    go none r later = rw (later, count) r
    go (some others) (one, fewer) later =
        (ground (arith, one, later), λ v d. ground (arith, fewer v d))

abbrev pub one_if : Bool → ℕ
one_if true = 1
one_if false = 0

-- A check accepts exactly when a match is fresh, and takes one.
record IsConsumed (vk : ℕ) (is_down : Bool) (fresh : List Entry)
    (result : PendingOutputLedger × Bool) : Type 0 where
  accepts : result.1 ≡ ltb 0 (count vk is_down fresh)
  taken : count vk is_down (result.0).entries + one_if (result.1) ≡ count vk is_down fresh
  fewer : (v : ℕ) (d : Bool) → count v d (result.0).entries ≤ count v d fresh

-- What a check does to the entries that its `retain` leaves.
check_and_consume-IsConsumed :
    (ledger : PendingOutputLedger) (vk : ℕ) (is_down : Bool) (now : ℕ)
    → IsConsumed vk is_down
        (retain_fresh now ledger.entries)
        (check_and_consume ledger vk is_down now)
unfolding check_and_consume
check_and_consume-IsConsumed ledger vk is_down now =
    go (remove_match vk is_down (retain_fresh now ledger.entries))
      (count-remove_match vk is_down (retain_fresh now ledger.entries) _ refl)
  where
    go :
        (o : Option (List Entry))
        → IsRemoved vk is_down (retain_fresh now ledger.entries) o
        → IsConsumed vk is_down (retain_fresh now ledger.entries) (elim o [
          | none ↦ (record { entries = retain_fresh now ledger.entries }, false)
          | some others ↦ (record { entries = others }, true)
        ])
    go none r = record {
      accepts = ground (arith, r);
      taken = omega arith;
      fewer = λ v d. omega arith;
    }
    go (some others) (one, less) = record {
      accepts = ground (arith, one);
      taken = omega (arith, one);
      fewer = less;
    }

-- What reaches the ledger, with its instant: a key that the daemon emits, and a tagged event that the
-- hook sees.
pub data Use : Type 0 where
  emitted : (vk : ℕ) (is_down : Bool) (now : ℕ) → Use
  seen : (vk : ℕ) (is_down : Bool) (now : ℕ) → Use

abbrev pub after_use : PendingOutputLedger → Use → PendingOutputLedger
after_use ledger (emitted vk is_down now) = record_output ledger vk is_down now
after_use ledger (seen vk is_down now) = (check_and_consume ledger vk is_down now).0

-- How often the key was emitted in the direction, and how often an event of it was accepted.
abbrev pub emissions : ℕ → Bool → List Use → ℕ
emissions vk is_down [] = 0
emissions vk is_down (emitted v d now ∷ uses) =
    one_if (is_match vk is_down (record { vk = v; is_down = d; at = now }))
    + emissions vk is_down uses
emissions vk is_down (seen v d now ∷ uses) = emissions vk is_down uses

abbrev pub accepted : ℕ → Bool → PendingOutputLedger → List Use → ℕ
accepted vk is_down ledger [] = 0
accepted vk is_down ledger (emitted v d now ∷ uses) =
    accepted vk is_down (record_output ledger v d now) uses
accepted vk is_down ledger (seen v d now ∷ uses) =
    let checked = check_and_consume ledger v d now in
    one_if (checked.1 && is_match vk is_down (record { vk = v; is_down = d; at = now }))
    + accepted vk is_down checked.0 uses

-- One check, for any key and direction.
check_counts :
    (ledger : PendingOutputLedger) (vk : ℕ) (is_down : Bool) (v : ℕ) (d : Bool) (now : ℕ)
    → let checked = check_and_consume ledger v d now in
      one_if (checked.1 && is_match vk is_down (record { vk = v; is_down = d; at = now }))
        + count vk is_down (checked.0).entries
      ≤ count vk is_down ledger.entries
check_counts ledger vk is_down v d now =
    let checked = check_and_consume ledger v d now in
    let c = check_and_consume-IsConsumed ledger v d now in
    let kept = count-retain_fresh vk is_down now ledger.entries in
    let entry : Entry = record { vk = v; is_down = d; at = now } in
    elim (Bool-cases (is_match vk is_down entry)) [
      | inr other ↦ ground (arith, other, c.fewer vk is_down, kept)
      | inl same ↦
          let same_vk : v ≡ vk = ground (arith, same) in
          let same_d : d ≡ is_down = directions d is_down (ground (arith, same)) in
          ground (
            arith,
            c.taken,
            kept,
            ap₂ (λ a b. count a b (checked.0).entries) same_vk same_d,
            ap₂ (λ a b. count a b (retain_fresh now ledger.entries)) same_vk same_d,
          )
    ]
  where
    directions : (d e : Bool) → same_direction d e ≡ true → d ≡ e
    directions true true h = refl
    directions true false h = cc h
    directions false true h = cc h
    directions false false h = refl

record_counts :
    (ledger : PendingOutputLedger) (vk : ℕ) (is_down : Bool) (v : ℕ) (d : Bool) (now : ℕ)
    → count vk is_down (record_output ledger v d now).entries
      ≤ one_if (is_match vk is_down (record { vk = v; is_down = d; at = now }))
        + count vk is_down ledger.entries
unfolding record_output count
record_counts ledger vk is_down v d now = ground (
  arith,
  count-append vk is_down (retain_fresh now ledger.entries)
      (record { vk = v; is_down = d; at = now } ∷ []),
  count-retain_fresh vk is_down now ledger.entries,
)

accepted-le :
    (vk : ℕ) (is_down : Bool) (ledger : PendingOutputLedger) (uses : List Use)
    → accepted vk is_down ledger uses ≤ emissions vk is_down uses + count vk is_down ledger.entries
accepted-le vk is_down ledger [] = omega arith
accepted-le vk is_down ledger (emitted v d now ∷ uses) = omega (
  arith,
  accepted-le vk is_down (record_output ledger v d now) uses,
  record_counts ledger vk is_down v d now,
)
accepted-le vk is_down ledger (seen v d now ∷ uses) = omega (
  arith,
  accepted-le vk is_down (check_and_consume ledger v d now).0 uses,
  check_counts ledger vk is_down v d now,
)

-- A forged tag is not accepted more often than there were emissions. In every history of emissions
-- and tagged events from an empty ledger, the events of a key in a direction that are taken for own
-- ones are at most as many as the emissions of this key in this direction.
pub accepted-emissions :
    (vk : ℕ) (is_down : Bool) (uses : List Use)
    → accepted vk is_down empty_ledger uses ≤ emissions vk is_down uses
unfolding empty_ledger count
accepted-emissions vk is_down uses = omega (arith, accepted-le vk is_down empty_ledger uses)
