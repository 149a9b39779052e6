-- ===== src/Platform/Linux/Output/Hold.antt =====
-- src/platform/linux/mapping/device.rs: outputs that are held, on a device that works.
use keymapper_rs.Prelude.{
  ℕ, ◌^◌, ◌≡◌, ◌<◌, refl, sym, ap, ◌∙◌, Bool, true, not, ◌&&◌, ◌||◌, List, [], ◌∷◌, ◌++◌, arith,
  ◌==◌, ==_iff, contains, ℕ_discrete, none, some, Option-cases, inl, inr, bit_or,
}
use keymapper_rs.Bits.{has, has-bit_or, has-pow}
use keymapper_rs.Common.Frame.{Result, ok}
use keymapper_rs.Common.HidUsage.{hid_usage_to_modifier_bit}
use keymapper_rs.Common.HidUsage.Codes.{hid_usage_to_modifier_bit_iff}
use keymapper_rs.Core.Rules.{NativeKey}
use keymapper_rs.Core.Engine.{output_held_mask}
use keymapper_rs.Platform.Backend.{OutputAction}
use keymapper_rs.Platform.Linux.Output.{
  VirtualDevice, EmitError, bits, write_key, set_code, other_codes, base_codes, held_codes,
  press_held, hold_modifier_output, emit, emit_actions,
}
use keymapper_rs.Platform.Linux.Output.State.{is_down, Works, member, write_key-IsWritten}
use keymapper_rs.Platform.Linux.Output.Masks.{of_mask, is_set, any_set, any_set_all}
use keymapper_rs.Platform.Linux.Output.Tap.{is_down-release_consumed_modifiers}

-- The codes are down, and the others are as before.
pub record IsHeld (d : VirtualDevice) (down : ℕ → Bool)
    (result : VirtualDevice × Result EmitError Bool) : Type 0 where
  pub succeeds : result.1 ≡ ok true
  pub works : Works (result.0)
  pub keys : (c : ℕ) → is_down (result.0) c ≡ (down c || is_down d c)

press_held-IsHeld :
    (d : VirtualDevice) (codes pressed : List ℕ)
    → Works d
    → IsHeld d (λ c. member c codes) (press_held d codes pressed)
unfolding press_held contains ℕ_discrete
press_held-IsHeld d [] pressed works = record { succeeds = refl; works = works; keys = λ c. refl }
press_held-IsHeld d (code ∷ codes) pressed works =
    let w = write_key-IsWritten d code 1 works in
    let rest = press_held-IsHeld (write_key d code 1).0 codes (code ∷ pressed) w.works in
    rw (w.succeeds, press_held)
      (record {
        succeeds = rest.succeeds;
        works = rest.works;
        keys = λ c. ground (arith, rest.keys c, w.keys c);
      })

member-append : (c : ℕ) (xs ys : List ℕ) → member c (xs ++ ys) ≡ (member c xs || member c ys)
unfolding contains
member-append c [] ys = refl
member-append c (x ∷ xs) ys = ground (arith, member-append c xs ys)

-- The code of the bit.
abbrev is_code : ℕ → ℕ → Bool
is_code c bit = member c (base_codes (some bit))

is_set-eq : (m c bit : ℕ) → is_set m c bit ≡ (has m bit && is_code c bit)
unfolding base_codes contains
is_set-eq m c bit = ground arith

member-other_codes :
    (m b c bit : ℕ) (bs : List ℕ)
    → member c (other_codes m (some b) (bit ∷ bs))
      ≡ ((not (b == bit) && (has m bit && is_code c bit)) || member c (other_codes m (some b) bs))
unfolding other_codes base_codes set_code contains
member-other_codes m b c bit bs = ground arith

contains_cons :
    (b bit : ℕ) (bs : List ℕ)
    → contains ℕ_discrete b (bit ∷ bs) ≡ (b == bit || contains ℕ_discrete b bs)
unfolding contains ℕ_discrete
contains_cons b bit bs = ground arith

-- The bit `b` of the list is taken from the mask, or is that of the base.
split_code :
    (is_base set code base_code rest others more : Bool)
    → (is_base ≡ true → code ≡ base_code)
    → rest ≡ (others || (more && base_code))
    → (((is_base || set) && code) || rest)
      ≡ (((not is_base && (set && code)) || others) || ((is_base || more) && base_code))
split_code is_base set code base_code rest others more same h = ground (arith, same, h)

-- The codes of the other bits, and that of the bit `b` if it is in the list.
any_set-other :
    (m b c : ℕ) (bs : List ℕ)
    → any_set (bit_or (2 ^ b) m) c bs
      ≡ (member c (other_codes m (some b) bs) || (contains ℕ_discrete b bs && is_code c b))
unfolding contains other_codes
any_set-other m b c [] = refl
any_set-other m b c (bit ∷ bs) =
    rw (member-other_codes m b c bit bs, contains_cons b bit bs)
      (ap (λ x. x || any_set (bit_or (2 ^ b) m) c bs)
          (is_set-eq (bit_or (2 ^ b) m) c bit
            ∙ ap (λ x. x && is_code c bit)
                (has-bit_or (2 ^ b) m bit ∙ ap (λ x. x || has m bit) pow))
        ∙ split_code (b == bit) (has m bit) (is_code c bit) (is_code c b) _ _ _
            (λ h. ap (is_code c) (sym ((==_iff b bit).0 h))) (any_set-other m b c bs))
  where
    pow : has (2 ^ b) bit ≡ (b == bit)
    pow = has-pow b bit ∙ ground arith

in_bits : (b : ℕ) → b < 8 → contains ℕ_discrete b bits ≡ true
unfolding contains ℕ_discrete
in_bits b small = ground (arith, small)

-- The codes to press are those of the held mask.
member-held_codes :
    (m b c : ℕ) → b < 8 → member c (held_codes m (some b)) ≡ of_mask (bit_or (2 ^ b) m) c
unfolding held_codes
member-held_codes m b c small =
    member-append c (other_codes m (some b) bits) (base_codes (some b))
    ∙ ap (λ x. member c (other_codes m (some b) bits) || (x && is_code c b)) (sym (in_bits b small))
    ∙ sym (any_set-other m b c bits)
    ∙ any_set_all (bit_or (2 ^ b) m) c

-- A held output is down. On a device that works, `hold_modifier_output` of an output whose held mask
-- is `mask` succeeds, and afterwards exactly those keys are down that are modifiers of the mask or
-- were down before.
pub hold_modifier_output-IsHeld :
    (d : VirtualDevice) (native_key : NativeKey) (mask : ℕ)
    → Works d
    → output_held_mask native_key ≡ some mask
    → IsHeld d (of_mask mask) (hold_modifier_output d native_key)
unfolding hold_modifier_output output_held_mask
hold_modifier_output-IsHeld d native_key mask works held =
    elim (Option-cases (hid_usage_to_modifier_bit native_key.usage)) [
      | inl none_bit ↦ absurd (no_mask none_bit)
      | inr (b, base) ↦
          let m = native_key.modifiers in
          let small = ((hid_usage_to_modifier_bit_iff native_key.usage b).0 base).0 in
          let mask_eq : bit_or (2 ^ b) m ≡ mask = cc (base, held) in
          let p = press_held-IsHeld d (held_codes m (some b)) [] works in
          rw (base, hold_modifier_output)
            (record {
              succeeds = p.succeeds;
              works = p.works;
              keys = λ c.
                  p.keys c
                  ∙ ap (λ x. x || is_down d c)
                      (member-held_codes m b c small ∙ ap (λ n. of_mask n c) mask_eq);
            })
    ]
  where
    no_mask : hid_usage_to_modifier_bit native_key.usage ≡ none → ⊥
    no_mask h = cc (h, held)

-- A held output that is released is up again. On a device that works, a hold and then the release of
-- its held mask, which the engine names at the key-up, leave exactly those keys down that were down
-- before and are not modifiers of the mask.
pub is_down-hold_release :
    (d : VirtualDevice) (native_key : NativeKey) (mask c : ℕ)
    → Works d
    → output_held_mask native_key ≡ some mask
    → is_down
        (emit_actions d (OutputAction.hold native_key ∷ OutputAction.release_consumed mask ∷ []))
        c
      ≡ (not (of_mask mask c) && is_down d c)
unfolding emit_actions emit
is_down-hold_release d native_key mask c works held =
    let h = hold_modifier_output-IsHeld d native_key mask works held in
    let (_, keys) = is_down-release_consumed_modifiers _ mask h.works in
    keys c ∙ up_again (of_mask mask c) _ _ (h.keys c)
  where
    up_again :
        (set after before : Bool)
        → after ≡ (set || before)
        → (not set && after) ≡ (not set && before)
    up_again set after before h = ground (arith, h)
