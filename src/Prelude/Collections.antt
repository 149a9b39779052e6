-- ===== src/Prelude/Collections.antt =====
-- `BTreeSet<K>` and `BTreeMap<K, V>` as lists, for keys with decidable equality. The program
-- asks the sets for membership only, so the order of the list carries nothing.
use mathlib.Core.Path.{◌≡◌, refl, ap}
use mathlib.Core.Bool.{Bool, true, false, not, ◌&&◌, ◌||◌}
use mathlib.Core.List.{List, [], ◌∷◌}
use mathlib.Core.Option.{Option, none, some}
use mathlib.Core.Option
use native.Mathlib.Omega.{arith}
use keymapper_rs.Prelude.Tests.{if◌then◌else◌, is_yes}

module _ {ℓ} {K : Type ℓ} (dec : Discrete K) where
  -- Whether two keys are the same.
  abbrev pub same : K → K → Bool
  same j k = is_yes (dec j k)

  pub same_self : (k : K) → same k k ≡ true
  same_self k = elim (dec k k) as (λ d. is_yes d ≡ true) [ yes p ↦ refl | no n ↦ absurd (n refl) ]

  unfoldable pub contains : K → List K → Bool
  contains k [] = false
  contains k (j ∷ js) = same k j || contains k js

  unfoldable pub insert : K → List K → List K
  insert k js = if contains k js then js else k ∷ js

  unfoldable pub remove : K → List K → List K
  remove k [] = []
  remove k (j ∷ js) = if same k j then remove k js else j ∷ remove k js

  pub contains-insert :
      (i k : K) (js : List K) → contains i (insert k js) ≡ (same i k || contains i js)
  unfolding contains insert
  contains-insert i k js = ground arith

  pub contains-remove :
      (i k : K) (js : List K) → contains i (remove k js) ≡ (not (same i k) && contains i js)
  unfolding contains remove
  contains-remove i k [] = ground arith
  contains-remove i k (j ∷ js) = ground (arith, contains-remove i k js)

-- `BTreeMap<K, V>` as an association list.
module _ {ℓ κ} {K : Type ℓ} (dec : Discrete K) {V : Type κ} where
  unfoldable pub map_get : K → List (K × V) → Option V
  map_get k [] = none
  map_get k ((j, v) ∷ m) = if same dec k j then some v else map_get k m

  unfoldable pub map_remove : K → List (K × V) → List (K × V)
  map_remove k [] = []
  map_remove k ((j, v) ∷ m) = if same dec k j then map_remove k m else (j, v) ∷ map_remove k m

  -- `entry(k).and_modify(f).or_insert(v)`.
  unfoldable pub map_upsert : K → (V → V) → V → List (K × V) → List (K × V)
  map_upsert k f v [] = (k, v) ∷ []
  map_upsert k f v ((j, w) ∷ m) = if same dec k j then (j, f w) ∷ m else (j, w) ∷ map_upsert k f v m

  pub map_get-map_remove :
      (i k : K) (m : List (K × V))
      → map_get i (map_remove k m) ≡ (if same dec i k then none else map_get i m)
  unfolding map_get map_remove
  map_get-map_remove i k [] = ground arith
  map_get-map_remove i k ((j, v) ∷ m) = ground (arith, map_get-map_remove i k m)

  pub map_get-map_upsert :
      (i k : K) (f : V → V) (v : V) (m : List (K × V))
      → map_get i (map_upsert k f v m) ≡ (
          if same dec i k then some (Option.get_or (Option.map f (map_get k m)) v) else map_get i m)
  unfolding map_get map_upsert
  map_get-map_upsert i k f v [] = ground arith
  map_get-map_upsert i k f v ((j, w) ∷ m) = ground (arith, map_get-map_upsert i k f v m)

  -- Every entry of the map passes the test.
  unfoldable pub entries_pass : (K → V → Bool) → List (K × V) → Bool
  entries_pass test [] = true
  entries_pass test ((k, v) ∷ m) = test k v && entries_pass test m

  pub map_get-entries_pass :
      (test : K → V → Bool) (m : List (K × V)) (k : K) (v : V)
      → entries_pass test m ≡ true
      → map_get k m ≡ some v
      → test k v ≡ true
  unfolding entries_pass map_get
  map_get-entries_pass test [] k v all h = cc
  map_get-entries_pass test ((j, w) ∷ m) k v all h =
      ground
        (arith, all, h, map_get-entries_pass test m k v, ap (λ (x : K). test x v) {x = k} {y = j})
