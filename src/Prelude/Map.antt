-- ===== src/Prelude/Map.antt =====
-- `HashMap<K, V>` as an association list; the order of its entries carries no meaning.
use mathlib.Core.Path.{◌≡◌, refl}
use mathlib.Core.Logic.{◌≢◌, inl, inr}
use mathlib.Core.Option.{Option, none, some}
use mathlib.Core.List.{List, [], ◌∷◌}
use native.Mathlib.Omega.{arith}
use place_home.Prelude.Tests.{if◌then◌else◌, Bool-cases, Eq, ◌==◌, eq_iff}

abbrev pub over {ℓ} : {V : Type ℓ} → (V → V) → Option V → Option V
over f none = none
over f (some v) = some (f v)

module _ {ℓ κ} {K : Type ℓ} ⦃e : Eq K⦄ {V : Type κ} where
  -- `get`
  unfoldable pub lookup : K → List (K × V) → Option V
  lookup k [] = none
  lookup k ((j, v) ∷ m) = if j == k then some v else lookup k m

  -- `remove`, for its effect on the map
  unfoldable pub remove : K → List (K × V) → List (K × V)
  remove k [] = []
  remove k ((j, v) ∷ m) = let rest = remove k m in if j == k then rest else (j, v) ∷ rest

  -- `insert`
  unfoldable pub insert : K → V → List (K × V) → List (K × V)
  insert k v m = (k, v) ∷ remove k m

  pub lookup-remove :
      (k j : K) (m : List (K × V)) → lookup j (remove k m) ≡ (if k == j then none else lookup j m)
  unfolding lookup remove
  lookup-remove k j [] = ground arith
  lookup-remove k j ((i, v) ∷ m) =
      ground (arith, lookup-remove k j m, eq_iff i k, eq_iff i j, eq_iff k j)

  pub lookup-insert :
      (k j : K) (v : V) (m : List (K × V))
      → lookup j (insert k v m) ≡ (if k == j then some v else lookup j m)
  unfolding lookup insert
  lookup-insert k j v m = ground (arith, lookup-remove k j m)

  pub lookup-insert_self : (k : K) (v : V) (m : List (K × V)) → lookup k (insert k v m) ≡ some v
  lookup-insert_self k v m = ground (arith, lookup-insert k k v m, eq_iff k k)

  pub lookup-insert_ne :
      (k j : K) (v : V) (m : List (K × V)) → k ≢ j → lookup j (insert k v m) ≡ lookup j m
  lookup-insert_ne k j v m h = ground (arith, lookup-insert k j v m, eq_iff k j)

  -- No key stands twice.
  abbrev pub HasDistinctKeys : List (K × V) → Type κ
  HasDistinctKeys [] = Unit
  HasDistinctKeys ((k, v) ∷ m) = (lookup k m ≡ none) × HasDistinctKeys m

  pub remove-HasDistinctKeys :
      (k : K) (m : List (K × V)) → HasDistinctKeys m → HasDistinctKeys (remove k m)
  unfolding remove
  remove-HasDistinctKeys k [] h = tt
  remove-HasDistinctKeys k ((j, v) ∷ m) (n, h) = elim (Bool-cases (j == k)) [
    | inl e ↦ rw e (remove-HasDistinctKeys k m h)
    | inr e ↦ rw e (ground (arith, lookup-remove k j m), remove-HasDistinctKeys k m h)
  ]

  pub insert-HasDistinctKeys :
      (k : K) (v : V) (m : List (K × V)) → HasDistinctKeys m → HasDistinctKeys (insert k v m)
  unfolding insert
  insert-HasDistinctKeys k v m h =
      (ground (arith, lookup-remove k k m, eq_iff k k), remove-HasDistinctKeys k m h)

  -- A write through `get_mut`: nothing happens on a missing key.
  modify_by : K → (V → V) → Option V → List (K × V) → List (K × V)
  modify_by k f none m = m
  modify_by k f (some v) m = insert k (f v) m

  unfoldable pub modify : K → (V → V) → List (K × V) → List (K × V)
  unfolding modify_by
  modify k f m = modify_by k f (lookup k m) m

  pub modify-missing : (k : K) (f : V → V) (m : List (K × V)) → lookup k m ≡ none → modify k f m ≡ m
  unfolding modify modify_by
  modify-missing k f m e = rw e refl

  modify_by-lookup :
      (k j : K) (f : V → V) (o : Option V) (m : List (K × V))
      → lookup k m ≡ o
      → lookup j (modify_by k f o m) ≡ (if k == j then over f (lookup j m) else lookup j m)
  unfolding modify_by
  modify_by-lookup k j f none m e = ground (arith, eq_iff k j)
  modify_by-lookup k j f (some v) m e = ground (arith, eq_iff k j, lookup-insert k j (f v) m)

  pub lookup-modify :
      (k j : K) (f : V → V) (m : List (K × V))
      → lookup j (modify k f m) ≡ (if k == j then over f (lookup j m) else lookup j m)
  unfolding modify
  lookup-modify k j f m = modify_by-lookup k j f (lookup k m) m refl

  modify_by-HasDistinctKeys :
      (k : K) (f : V → V) (o : Option V) (m : List (K × V))
      → HasDistinctKeys m
      → HasDistinctKeys (modify_by k f o m)
  unfolding modify_by
  modify_by-HasDistinctKeys k f none m h = h
  modify_by-HasDistinctKeys k f (some v) m h = insert-HasDistinctKeys k (f v) m h

  pub modify-HasDistinctKeys :
      (k : K) (f : V → V) (m : List (K × V)) → HasDistinctKeys m → HasDistinctKeys (modify k f m)
  unfolding modify
  modify-HasDistinctKeys k f m h = modify_by-HasDistinctKeys k f (lookup k m) m h

pub ruleset map_laws = (lookup-remove, lookup-insert, lookup-modify)
