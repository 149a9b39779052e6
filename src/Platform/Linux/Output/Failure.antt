-- ===== src/Platform/Linux/Output/Failure.antt =====
-- src/platform/linux/mapping/device.rs: a press that cannot be written.
use keymapper_rs.Prelude.{
  ℕ, zero, suc, ◌<◌, ◌≡◌, refl, ap, ◌∙◌, Bool, true, false, not, ◌&&◌, ◌||◌, List, [], ◌∷◌, arith,
  ◌==◌, if◌then◌else◌, contains, none, some, Option-cases, inl, inr, length, take,
}
use keymapper_rs.Common.Frame.{Result, err}
use keymapper_rs.Common.HidUsage.{hid_usage_to_modifier_bit}
use keymapper_rs.Core.Rules.{NativeKey}
use keymapper_rs.Platform.Linux.Keycode.RoundTrip.{hid_usage_to_keycode_iff}
use keymapper_rs.Platform.Linux.Output.{
  VirtualDevice, EmitError, bits, write, write_key, set_code, press_modifiers, tap_base,
  emit_key_event, held_codes, press_held, hold_modifier_output,
}
use keymapper_rs.Platform.Linux.Output.State.{
  is_down, member, after_events-append, is_down-release_all,
}
use keymapper_rs.Platform.Linux.Output.Masks.{set_codes}

-- The next `n` writes succeed, the one after them fails, and then all succeed.
abbrev pub fails_after : ℕ → List Bool
fails_after zero = false ∷ []
fails_after (suc n) = true ∷ fails_after n

-- A write of a press that succeeds, and one that fails.
press_succeeds :
    (d : VirtualDevice) (code : ℕ) (rest : List Bool)
    → d.outcomes ≡ true ∷ rest
    → ((write_key d code 1).1 ≡ true)
      × ((write_key d code 1).0.outcomes ≡ rest)
      × ((c : ℕ) → is_down (write_key d code 1).0 c ≡ (code == c || is_down d c))
unfolding write_key write is_down
press_succeeds d code rest next =
    rw (next, write_key, write)
      (refl, refl, λ c. after_events-append d.written _ c false ∙ ground arith)

press_fails :
    (d : VirtualDevice) (code : ℕ) (rest : List Bool)
    → d.outcomes ≡ false ∷ rest
    → ((write_key d code 1).1 ≡ false)
      × ((write_key d code 1).0.outcomes ≡ rest)
      × ((c : ℕ) → is_down (write_key d code 1).0 c ≡ is_down d c)
unfolding write_key write is_down
press_fails d code rest next = rw (next, write_key, write) (refl, refl, λ c. refl)

-- What a failure leaves: an error, and the keys as given.
record IsFailed {A : Type 0} (keys : ℕ → Bool) (result : VirtualDevice × Result EmitError A)
    : Type 0 where
  fails : result.1 ≡ err EmitError.write_failed
  left : (c : ℕ) → is_down (result.0) c ≡ keys c

press_held-IsFailed :
    (d : VirtualDevice) (codes pressed : List ℕ) (n : ℕ)
    → d.outcomes ≡ fails_after n
    → n < length codes
    → IsFailed
        (λ c. not (member c (take n codes) || member c pressed) && is_down d c)
        (press_held d codes pressed)
unfolding press_held contains
press_held-IsFailed d [] pressed n next few = absurd (omega (arith, few))
press_held-IsFailed d (code ∷ codes) pressed zero next few =
    let (failed, works, keys) = press_fails d code [] next in
    let released = (is_down-release_all (write_key d code 1).0 pressed works).1 in
    rw (failed, press_held)
      (record { fails = refl; left = λ c. ground (arith, released c, keys c) })
press_held-IsFailed d (code ∷ codes) pressed (suc n) next few =
    let (succeeds, after, keys) = press_succeeds d code (fails_after n) next in
    let rest =
      press_held-IsFailed (write_key d code 1).0 codes (code ∷ pressed) n after
        (omega (arith, few)) in
    rw (succeeds, press_held)
      (record { fails = rest.fails; left = λ c. ground (arith, rest.left c, keys c) })

-- A hold that fails releases what it pressed. If one of the presses of `hold_modifier_output` cannot
-- be written, and the later writes can, then it reports an error, and afterwards exactly those keys
-- are down that were down before and that it had not pressed.
pub hold_modifier_output-fails :
    (d : VirtualDevice) (native_key : NativeKey) (n : ℕ)
    → d.outcomes ≡ fails_after n
    → let codes = held_codes native_key.modifiers (hid_usage_to_modifier_bit native_key.usage) in
      n < length codes
      → ((hold_modifier_output d native_key).1 ≡ err EmitError.write_failed)
        × ((c : ℕ)
            → is_down (hold_modifier_output d native_key).0 c
              ≡ (not (member c (take n codes)) && is_down d c))
unfolding hold_modifier_output contains
hold_modifier_output-fails d native_key n next few =
    let codes = held_codes native_key.modifiers (hid_usage_to_modifier_bit native_key.usage) in
    let f = press_held-IsFailed d codes [] n next few in (f.fails, λ c. f.left c ∙ ground arith)

codes_skipped :
    (m bit : ℕ) (bs : List ℕ) → set_code m bit ≡ none → set_codes m (bit ∷ bs) ≡ set_codes m bs
codes_skipped m bit bs skipped = rw (skipped, set_codes) refl

codes_set :
    (m bit code : ℕ) (bs : List ℕ)
    → set_code m bit ≡ some code
    → set_codes m (bit ∷ bs) ≡ code ∷ set_codes m bs
codes_set m bit code bs set = rw (set, set_codes) refl

press_modifiers-IsFailed :
    (d : VirtualDevice) (m : ℕ) (bs pressed : List ℕ) (n : ℕ)
    → d.outcomes ≡ fails_after n
    → n < length (set_codes m bs)
    → IsFailed
        (λ c. member c (take n (set_codes m bs)) || is_down d c)
        (press_modifiers d m bs pressed)
unfolding press_modifiers contains
press_modifiers-IsFailed d m [] pressed n next few = absurd (omega (arith, few))
press_modifiers-IsFailed d m (bit ∷ bs) pressed n next few = elim (Option-cases (set_code m bit)) [
  | inl skipped ↦
      rw (skipped, press_modifiers, set_codes)
        (press_modifiers-IsFailed d m bs pressed n next
          (omega (arith, few, ap length (codes_skipped m bit bs skipped))))
  | inr (code, set) ↦
      rw (set, press_modifiers, set_codes)
        (pressed_first code set
          (λ d' k h l. press_modifiers-IsFailed d' m bs (code ∷ pressed) k h l) n next few)
]
  where
    pressed_first :
        (code : ℕ)
        → set_code m bit ≡ some code
        → ((d' : VirtualDevice) (k : ℕ)
            → d'.outcomes ≡ fails_after k
            → k < length (set_codes m bs)
            → IsFailed
                (λ c. member c (take k (set_codes m bs)) || is_down d' c)
                (press_modifiers d' m bs (code ∷ pressed)))
        → (n : ℕ) → d.outcomes ≡ fails_after n
        → n < length (set_codes m (bit ∷ bs))
        → IsFailed
            (λ c. member c (take n (code ∷ set_codes m bs)) || is_down d c)
            (if (write_key d code 1).1
              then press_modifiers (write_key d code 1).0 m bs (code ∷ pressed)
              else ((write_key d code 1).0, err EmitError.write_failed))
    pressed_first code set others zero next few =
        let (failed, _, keys) = press_fails d code [] next in
        rw failed (record { fails = refl; left = keys })
    pressed_first code set others (suc n) next few =
        let (succeeds, after, keys) = press_succeeds d code (fails_after n) next in
        let rest =
          others (write_key d code 1).0 n after
            (omega (arith, few, ap length (codes_set m bit code bs set))) in
        rw succeeds (record { fails = rest.fails; left = λ c. ground (arith, rest.left c, keys c) })

-- A tap that fails leaves its modifiers down. If one of the presses of the modifiers by
-- `emit_key_event` cannot be written, then it reports an error, and afterwards the modifiers that it
-- had pressed are down, even if every later write would succeed.
pub emit_key_event-fails :
    (d : VirtualDevice) (native_key : NativeKey) (n : ℕ)
    → d.outcomes ≡ fails_after n
    → n < length (set_codes native_key.modifiers bits)
    → ((emit_key_event d native_key).1 ≡ err EmitError.write_failed)
      × ((c : ℕ)
          → is_down (emit_key_event d native_key).0 c
            ≡ (member c (take n (set_codes native_key.modifiers bits)) || is_down d c))
unfolding emit_key_event tap_base
emit_key_event-fails d native_key n next few =
    let (base_code, found) = (hid_usage_to_keycode_iff native_key.usage 0).1 in
    let m = native_key.modifiers in
    let f = press_modifiers-IsFailed d m bits [] n next few in
    let d1 = (press_modifiers d m bits []).0 in
    let same : emit_key_event d native_key ≡ (d1, err EmitError.write_failed) =
      rw (found, emit_key_event) (ap (λ r. tap_base base_code (d1, r)) f.fails) in
    (
      ap (λ r. r.1) same,
      λ c. ap (λ (r : VirtualDevice × Result EmitError Bool). is_down (r.0) c) same ∙ f.left c,
    )
