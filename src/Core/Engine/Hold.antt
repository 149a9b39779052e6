-- ===== src/Core/Engine/Hold.antt =====
-- src/keymap_core/engine.rs, the loop of `decide_down` over the outputs: how the map of held outputs
-- grows.
use keymapper_rs.Bits.{has-eq_zero}
use keymapper_rs.Prelude.{if◌then◌else◌, subst, sym, same_self}
use keymapper_rs.Prelude.{
  ℕ, ◌≡◌, refl, ap, ◌∙◌, ◌⊎◌, inl, inr, List, [], ◌∷◌, true, Option, none, some, arith, same,
  map_get, map_get-map_upsert, bit_or, ◌==◌, Option-cases, Bool-cases,
}
use mathlib.Core.Option
use keymapper_rs.Bits.{has, has-bit_or}
use keymapper_rs.Core.Rules.{NativeKey}
use keymapper_rs.Core.Tracker.{KeyTracker, hold_output_modifiers}
use keymapper_rs.Core.Tracker.Held.{Distinct, map_upsert-Distinct}
use keymapper_rs.Core.Engine.{hold_outputs, output_held_mask}

module _ {ℓ} {K : Type ℓ} (dec : Discrete K) where
  abbrev pub held_of : KeyTracker K → K → Option ℕ
  held_of t k = map_get dec k t.held_output_modifiers

  -- The mask `m` is kept, perhaps with more bits.
  abbrev pub Kept : Option ℕ → ℕ → Type 0
  Kept o m = (m' : ℕ) × (o ≡ some m') × ((i : ℕ) → has m i ≡ true → has m' i ≡ true)

  pub record Grows (key : K) (t u : KeyTracker K) : Type ℓ where
    pub pressed : u.pressed_keys ≡ t.pressed_keys
    pub swallowed : u.swallowed_keys ≡ t.swallowed_keys
    pub forwarded : u.forwarded_modifiers ≡ t.forwarded_modifiers
    pub consumed : u.consumed_modifiers ≡ t.consumed_modifiers
    pub kept : (k : K) (m : ℕ) → held_of t k ≡ some m → Kept (held_of u k) m
    pub only : (k : K) (m : ℕ) → held_of u k ≡ some m → (k ≡ key) ⊎ (held_of t k ≡ some m)
    pub distinct : Distinct dec t.held_output_modifiers → Distinct dec u.held_output_modifiers

  pub Grows-refl : (key : K) (t : KeyTracker K) → Grows key t t
  Grows-refl key t = record {
    pressed = refl;
    swallowed = refl;
    forwarded = refl;
    consumed = refl;
    kept = λ k m e. (m, e, λ i h. h);
    only = λ k m e. inr e;
    distinct = λ d. d;
  }

  Grows-trans : {key : K} {t u v : KeyTracker K} → Grows key t u → Grows key u v → Grows key t v
  Grows-trans g h = record {
    pressed = h.pressed ∙ g.pressed;
    swallowed = h.swallowed ∙ g.swallowed;
    forwarded = h.forwarded ∙ g.forwarded;
    consumed = h.consumed ∙ g.consumed;
    kept = λ k m e.
        let (m', e', mono) = g.kept k m e in
        let (m'', e'', mono') = h.kept k m' e' in (m'', e'', λ i p. mono' i (mono i p));
    only = λ k m e. elim (h.only k m e) [ inl p ↦ inl p | inr p ↦ g.only k m p ];
    distinct = λ d. h.distinct (g.distinct d);
  }

  hold_output_modifiers-Grows :
      (t : KeyTracker K) (key : K) (mask : ℕ) → Grows key t (hold_output_modifiers dec t key mask)
  unfolding hold_output_modifiers
  hold_output_modifiers-Grows t key mask = elim (Bool-cases (mask == 0)) [
    | inl zero ↦ rw (zero, hold_output_modifiers) (Grows-refl key t)
    | inr pos ↦
        rw (pos, hold_output_modifiers)
          (record {
            pressed = refl;
            swallowed = refl;
            forwarded = refl;
            consumed = refl;
            kept = λ k m e. (
              if same dec k key then bit_or m mask else m,
              ground (
                arith,
                e,
                ap (λ (x : K). held_of t x) {x = k} {y = key},
                map_get-map_upsert dec k key (λ m. bit_or m mask) mask t.held_output_modifiers,
              ),
              λ i p. ground (arith, p, has-bit_or m mask i),
            );
            only = λ k m e. ground (
              arith,
              e,
              map_get-map_upsert dec k key (λ m. bit_or m mask) mask t.held_output_modifiers,
            );
            distinct =
                map_upsert-Distinct dec key (λ m. bit_or m mask) mask t.held_output_modifiers;
          })
  ]

  -- The new mask is held, and what was held for the key stays.
  hold_output_modifiers_holds :
      (t : KeyTracker K) (key : K) (mask i : ℕ)
      → has mask i ≡ true
      → (m : ℕ) × (held_of (hold_output_modifiers dec t key mask) key ≡ some m) × (has m i ≡ true)
  unfolding hold_output_modifiers
  hold_output_modifiers_holds t key mask i h = elim (Bool-cases (mask == 0)) [
    | inl zero ↦ absurd (ground (arith, has-eq_zero mask i h))
    | inr pos ↦
        rw (pos, hold_output_modifiers)
          (
            Option.get_or (Option.map (λ m. bit_or m mask) (held_of t key)) mask,
            ground (
              arith,
              same_self dec key,
              map_get-map_upsert dec key key (λ m. bit_or m mask) mask t.held_output_modifiers,
            ),
            elim (Option-cases (held_of t key)) [
              | inl e ↦ rw e h
              | inr (m, e) ↦ rw e (ground (arith, has-bit_or m mask i))
            ],
          )
  ]

  pub hold_outputs-Grows :
      (t : KeyTracker K) (key : K) (outputs : List NativeKey) (held_mask : ℕ)
      → Grows key t (hold_outputs dec t key outputs held_mask).0
  unfolding hold_outputs
  hold_outputs-Grows t key [] held_mask = Grows-refl key t
  hold_outputs-Grows t key (o ∷ outputs) held_mask = elim (Option-cases (output_held_mask o)) [
    | inl e ↦ rw (e, hold_outputs) (hold_outputs-Grows t key outputs held_mask)
    | inr (mask, e) ↦
        rw (e, hold_outputs)
          (Grows-trans (hold_output_modifiers-Grows t key mask) (
            hold_outputs-Grows (hold_output_modifiers dec t key mask) key outputs
              (bit_or held_mask mask)))
  ]

  pub hold_outputs-none :
      (t : KeyTracker K) (key : K) (o : NativeKey) (outputs : List NativeKey) (held_mask : ℕ)
      → output_held_mask o ≡ none
      → hold_outputs dec t key (o ∷ outputs) held_mask ≡ hold_outputs dec t key outputs held_mask
  unfolding hold_outputs
  hold_outputs-none t key o outputs held_mask e = rw (e, hold_outputs)

  pub hold_outputs-some :
      (t : KeyTracker K) (key : K) (o : NativeKey) (outputs : List NativeKey) (held_mask : ℕ)
      → (mask : ℕ) → output_held_mask o ≡ some mask
      → hold_outputs dec t key (o ∷ outputs) held_mask
        ≡ hold_outputs dec
            (hold_output_modifiers dec t key mask)
            key
            outputs
            (bit_or held_mask mask)
  unfolding hold_outputs
  hold_outputs-some t key o outputs held_mask mask e = rw (e, hold_outputs)

  -- A bit of the mask was given, or is held for the key.
  abbrev pub GivenOrHeld : K → ℕ → ℕ → KeyTracker K × ℕ → Type 0
  GivenOrHeld key given i r =
      has r.1 i ≡ true
      → (has given i ≡ true) ⊎ ((m : ℕ) × (held_of r.0 key ≡ some m) × (has m i ≡ true))

  -- What one output adds to the given mask is held for the key to the end.
  widen :
      (t : KeyTracker K) (key : K) (outputs : List NativeKey) (given mask i : ℕ)
      → let r =
          hold_outputs dec (hold_output_modifiers dec t key mask) key outputs (bit_or given mask) in
        GivenOrHeld key (bit_or given mask) i r → GivenOrHeld key given i r
  widen t key outputs given mask i rest h = elim (rest h) [
    | inl set ↦ elim (Bool-cases (has given i)) [
      | inl old ↦ inl old
      | inr new ↦
          let (m, entry, bit) =
            hold_output_modifiers_holds t key mask i (ground (arith, has-bit_or given mask i)) in
          let (m', entry', mono) =
            (hold_outputs-Grows (hold_output_modifiers dec t key mask) key outputs
                (bit_or given mask)).kept
              key m entry in
          inr (m', entry', mono i bit)
    ]
    | inr held ↦ inr held
  ]

  pub hold_outputs_mask :
      (t : KeyTracker K) (key : K) (outputs : List NativeKey) (held_mask i : ℕ)
      → GivenOrHeld key held_mask i (hold_outputs dec t key outputs held_mask)
  unfolding hold_outputs
  hold_outputs_mask t key [] held_mask i = λ h. inl h
  hold_outputs_mask t key (o ∷ outputs) held_mask i = elim (Option-cases (output_held_mask o)) [
    | inl e ↦
        subst (GivenOrHeld key held_mask i) (sym (hold_outputs-none t key o outputs held_mask e))
          (hold_outputs_mask t key outputs held_mask i)
    | inr (mask, e) ↦
        subst (GivenOrHeld key held_mask i)
          (sym (hold_outputs-some t key o outputs held_mask mask e))
          (widen t key outputs held_mask mask i (
            hold_outputs_mask (hold_output_modifiers dec t key mask) key outputs
              (bit_or held_mask mask) i))
  ]
