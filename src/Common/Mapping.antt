-- ===== src/Common/Mapping.antt =====
-- Python dictionaries: association lists in insertion order. Writing a key that is there keeps its
-- place.
use mathlib.Core.Path.{◌≡◌, refl}
use mathlib.Core.Logic.{◌↔◌, inl, inr}
use mathlib.Core.Bool.{false, ◌||◌}
use mathlib.Core.Option.{Option, none, some}
use mathlib.Core.List.{List, [], ◌∷◌, map}
use native.Mathlib.Omega.{arith}
use grace_mem.Common.Tests.{if◌then◌else◌, Bool-cases}
use grace_mem.Common.Keys.{Eq, ◌==◌, contains, Distinct, beq_refl}

abbrev pub Dict : Type 0 → Type 0 → Type 0
Dict K V = List (K × V)

module _ {K V : Type 0} where
  abbrev pub keys : Dict K V → List K
  keys d = map (λ e. e.0) d

  -- `d.values()`
  abbrev pub values : Dict K V → List V
  values d = map (λ e. e.1) d

module _ {K V : Type 0} ⦃e : Eq K⦄ where
  -- `d.get(k)`
  unfoldable pub lookup : K → Dict K V → Option V
  lookup k [] = none
  lookup k ((j, v) ∷ d) = if j == k then some v else lookup k d

  -- `d[k] = v`
  unfoldable pub put : K → V → Dict K V → Dict K V
  put k v [] = (k, v) ∷ []
  put k v ((j, w) ∷ d) = if j == k then (j, v) ∷ d else (j, w) ∷ put k v d

  pub lookup-put :
      (k j : K) (v : V) (d : Dict K V)
      → lookup j (put k v d) ≡ (if k == j then some v else lookup j d)
  unfolding lookup put
  lookup-put k j v [] = refl
  lookup-put k j v ((i, w) ∷ d) =
      ground (arith, e.beq_iff i k, e.beq_iff i j, e.beq_iff k j, lookup-put k j v d)

  pub lookup-put_self : (k : K) (v : V) (d : Dict K V) → lookup k (put k v d) ≡ some v
  lookup-put_self k v d = rw (lookup-put k k v d, beq_refl k)

  pub contains-keys-put :
      (k j : K) (v : V) (d : Dict K V)
      → contains (keys (put k v d)) j ≡ (contains (keys d) j || (j == k))
  unfolding put contains
  contains-keys-put k j v [] = ground arith
  contains-keys-put k j v ((i, w) ∷ d) =
      ground (arith, e.beq_iff i k, e.beq_iff j i, e.beq_iff j k, contains-keys-put k j v d)

  pub Distinct-put :
      (k : K) (v : V) (d : Dict K V) → Distinct (keys d) → Distinct (keys (put k v d))
  unfolding put contains
  Distinct-put k v [] h = (refl, tt)
  Distinct-put k v ((i, w) ∷ d) h = elim (Bool-cases (i == k)) [
    | inl same ↦ rw (same, put) h
    | inr other ↦
        rw (other, put) (ground (arith, contains-keys-put k i v d, h.0), Distinct-put k v d h.1)
  ]

  -- A key is there exactly when it is among the keys.
  pub lookup-eq-none_iff :
      (k : K) (d : Dict K V) → (lookup k d ≡ none) ↔ (contains (keys d) k ≡ false)
  unfolding lookup contains
  lookup-eq-none_iff k [] = (λ _. refl, λ _. refl)
  lookup-eq-none_iff k ((i, w) ∷ d) =
      let ih = lookup-eq-none_iff k d in ground (arith, e.beq_iff i k, e.beq_iff k i, ih)
