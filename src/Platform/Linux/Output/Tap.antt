-- ===== src/Platform/Linux/Output/Tap.antt =====
-- src/platform/linux/mapping/device.rs: taps and releases on a device that works.
use keymapper_rs.Prelude.{
  ℕ, ◌≡◌, refl, ap, ◌∙◌, Bool, true, false, not, ◌&&◌, ◌||◌, List, [], ◌∷◌, arith, ◌==◌, contains,
  ℕ_discrete, some, Option-cases, inl, inr,
}
use keymapper_rs.Common.Frame.{Result, ok}
use keymapper_rs.Core.Rules.{NativeKey}
use keymapper_rs.Platform.Linux.Keycode.Usage.{hid_usage_to_keycode}
use keymapper_rs.Platform.Linux.Keycode.RoundTrip.{hid_usage_to_keycode_iff}
use keymapper_rs.Platform.Linux.Output.{
  VirtualDevice, EmitError, bits, write_key, set_code, press_modifiers, tap_base, emit_key_event,
  release_bits, release_consumed_modifiers,
}
use keymapper_rs.Platform.Linux.Output.State.{
  is_down, Works, member, write_key-IsWritten, is_down-release_all,
}
use keymapper_rs.Platform.Linux.Output.Masks.{
  of_mask, set_codes, consumed_code-eq, member-set_codes,
}

-- The loop has pressed the codes, and has put them before those in `pressed`.
record IsPressed (d : VirtualDevice) (codes pressed : List ℕ)
    (result : VirtualDevice × Result EmitError (List ℕ)) : Type 0 where
  all : List ℕ
  succeeds : result.1 ≡ ok all
  works : Works (result.0)
  noted : (c : ℕ) → member c all ≡ (member c codes || member c pressed)
  keys : (c : ℕ) → is_down (result.0) c ≡ (member c codes || is_down d c)

press_modifiers-IsPressed :
    (d : VirtualDevice) (m : ℕ) (bs pressed : List ℕ)
    → Works d
    → IsPressed d (set_codes m bs) pressed (press_modifiers d m bs pressed)
unfolding press_modifiers contains ℕ_discrete
press_modifiers-IsPressed d m [] pressed works = record {
  all = pressed;
  succeeds = refl;
  works = works;
  noted = λ c. refl;
  keys = λ c. refl;
}
press_modifiers-IsPressed d m (bit ∷ bs) pressed works = elim (Option-cases (set_code m bit)) [
  | inl skipped ↦
      rw (skipped, press_modifiers, set_codes) (press_modifiers-IsPressed d m bs pressed works)
  | inr (code, set) ↦
      let w = write_key-IsWritten d code 1 works in
      let rest = press_modifiers-IsPressed (write_key d code 1).0 m bs (code ∷ pressed) w.works in
      rw (set, press_modifiers, set_codes, w.succeeds)
        (record {
          all = rest.all;
          succeeds = rest.succeeds;
          works = rest.works;
          noted = λ c. ground (arith, rest.noted c);
          keys = λ c. ground (arith, rest.keys c, w.keys c);
        })
]

-- A result of a tap on a device that works: the key `base_code` and those in `pressed` are up.
record IsTapped (d : VirtualDevice) (base_code : ℕ) (pressed : List ℕ)
    (result : VirtualDevice × Result EmitError Bool) : Type 0 where
  succeeds : result.1 ≡ ok true
  works : Works (result.0)
  keys : (c : ℕ) → is_down (result.0) c ≡ (not (c == base_code || member c pressed) && is_down d c)

tap_base-IsTapped :
    (d : VirtualDevice) (base_code : ℕ) (pressed : List ℕ)
    → Works d
    → IsTapped d base_code pressed (tap_base base_code (d, ok pressed))
unfolding tap_base
tap_base-IsTapped d base_code pressed works =
    let down = write_key-IsWritten d base_code 1 works in
    let up = write_key-IsWritten (write_key d base_code 1).0 base_code 0 down.works in
    let d2 = (write_key (write_key d base_code 1).0 base_code 0).0 in
    let (works', released) = is_down-release_all d2 pressed up.works in
    rw (down.succeeds, up.succeeds, tap_base)
      (record {
        succeeds = refl;
        works = works';
        keys = λ c. ground (arith, released c, up.keys c, down.keys c);
      })

still_down :
    (is_base noted set masked after before : Bool)
    → noted ≡ (set || false)
    → after ≡ (set || before)
    → set ≡ masked
    → (not (is_base || noted) && after) ≡ (not (is_base || masked) && before)
still_down is_base noted set masked after before n a s = ground (arith, n, a, s)

-- A tap leaves none of its keys down. On a device that works, `emit_key_event` succeeds for every
-- output, and afterwards exactly those keys are down that were down before and are neither the base
-- key of the output nor a modifier of its mask.
pub is_down-emit_key_event :
    (d : VirtualDevice) (native_key : NativeKey)
    → Works d
    → (base_code : ℕ) × (hid_usage_to_keycode native_key.usage ≡ some base_code)
      × ((emit_key_event d native_key).1 ≡ ok true)
      × Works (emit_key_event d native_key).0
      × ((c : ℕ)
          → is_down (emit_key_event d native_key).0 c
            ≡ (not (c == base_code || of_mask native_key.modifiers c) && is_down d c))
unfolding emit_key_event contains ℕ_discrete
is_down-emit_key_event d native_key works =
    let (base_code, found) = (hid_usage_to_keycode_iff native_key.usage 0).1 in
    let m = native_key.modifiers in
    let pressed = press_modifiers-IsPressed d m bits [] works in
    let d1 = (press_modifiers d m bits []).0 in
    let t = tap_base-IsTapped d1 base_code pressed.all pressed.works in
    let same : emit_key_event d native_key ≡ tap_base base_code (d1, ok pressed.all) =
      rw (found, emit_key_event) (ap (λ r. tap_base base_code (d1, r)) pressed.succeeds) in
    (
      base_code,
      found,
      ap (λ r. r.1) same ∙ t.succeeds,
      ap (λ (r : VirtualDevice × Result EmitError Bool). (r.0).outcomes) same ∙ t.works,
      λ c.
          ap (λ (r : VirtualDevice × Result EmitError Bool). is_down (r.0) c) same
          ∙ t.keys c
          ∙ still_down (c == base_code) _ _ _ _ _ (pressed.noted c) (pressed.keys c)
              (member-set_codes m c),
    )

-- Releasing a mask. On a device that works, `release_consumed_modifiers` leaves exactly those keys
-- down that were down before and are not modifiers of the mask.
pub is_down-release_consumed_modifiers :
    (d : VirtualDevice) (consumed : ℕ)
    → Works d
    → Works (release_consumed_modifiers d consumed)
      × ((c : ℕ)
          → is_down (release_consumed_modifiers d consumed) c
            ≡ (not (of_mask consumed c) && is_down d c))
unfolding release_consumed_modifiers release_bits contains ℕ_discrete
is_down-release_consumed_modifiers d consumed works =
    let (works', keys) = released d bits works in
    (works', λ c. keys c ∙ ap (λ b. not b && is_down d c) (member-set_codes consumed c))
  where
    released :
        (d : VirtualDevice) (bs : List ℕ)
        → Works d
        → Works (release_bits d consumed bs)
          × ((c : ℕ)
              → is_down (release_bits d consumed bs) c
                ≡ (not (member c (set_codes consumed bs)) && is_down d c))
    released d [] works = (works, λ c. refl)
    released d (bit ∷ bs) works = elim (Option-cases (set_code consumed bit)) [
      | inl skipped ↦
          rw (consumed_code-eq consumed bit, skipped, release_bits, set_codes) (released d bs works)
      | inr (code, set) ↦
          let w = write_key-IsWritten d code 0 works in
          let (works', keys) = released (write_key d code 0).0 bs w.works in
          rw (consumed_code-eq consumed bit, set, release_bits, set_codes)
            (works', λ c. ground (arith, keys c, w.keys c))
    ]
