-- ===== src/Base/Dicts.antt =====
-- Go maps with string keys, as association lists that hold a key at most once.
use mathlib.Core.Path.{◌≡◌, refl}
use mathlib.Core.Option.{Option, none, some}
use mathlib.Core.List.{List, [], ◌∷◌}
use native.Mathlib.Omega.{arith}
use mathlib.Core.Path.{subst}
use mathlib.Core.Logic.{inl, inr}
use hali_client.Base.Lists.{All}
use hali_client.Base.Tests.{Bool-cases}
use hali_client.Base.Tests.{if◌then◌else◌}
use hali_client.Base.Text.{Str, str_eq, str_eq_iff}

abbrev pub Dict {ℓ} : Type ℓ → Type ℓ
Dict V = List (Str × V)

module _ {ℓ} {V : Type ℓ} where
  -- v, ok := d[k]
  unfoldable pub lookup : Str → Dict V → Option V
  unfolding str_eq
  lookup k [] = none
  lookup k ((j, v) ∷ d) = if str_eq j k then some v else lookup k d

  -- delete(d, k)
  unfoldable pub delete : Str → Dict V → Dict V
  unfolding str_eq
  delete k [] = []
  delete k ((j, v) ∷ d) = let rest = delete k d in if str_eq j k then rest else (j, v) ∷ rest

  -- d[k] = v
  unfoldable pub insert : Str → V → Dict V → Dict V
  unfolding str_eq
  insert k v [] = (k, v) ∷ []
  insert k v ((j, w) ∷ d) = if str_eq j k then (k, v) ∷ d else (j, w) ∷ insert k v d

module _ {ℓ} {V : Type ℓ} where
  pub lookup-delete :
      (k j : Str) (d : Dict V) → lookup j (delete k d) ≡ (if str_eq k j then none else lookup j d)
  unfolding lookup delete
  lookup-delete k j [] = ground arith
  lookup-delete k j ((i, v) ∷ d) =
      ground (arith, lookup-delete k j d, str_eq_iff i k, str_eq_iff i j, str_eq_iff k j)

  pub lookup-insert :
      (k j : Str) (v : V) (d : Dict V)
      → lookup j (insert k v d) ≡ (if str_eq k j then some v else lookup j d)
  unfolding lookup insert
  lookup-insert k j v [] = refl
  lookup-insert k j v ((i, w) ∷ d) =
      ground (arith, str_eq_iff k j, str_eq_iff i k, str_eq_iff i j, lookup-insert k j v d)

  -- A predicate of the entries.
  pub All-insert :
      (P : Str × V → Type 0) (k : Str) (v : V) (d : Dict V)
      → All P d
      → P (k, v)
      → All P (insert k v d)
  unfolding insert
  All-insert P k v [] h p = (p, tt)
  All-insert P k v ((j, w) ∷ d) (e, h) p = elim (Bool-cases (str_eq j k)) [
    | inl same ↦ rw same (p, h)
    | inr other ↦ rw other (e, All-insert P k v d h p)
  ]

  pub All-lookup :
      (P : Str × V → Type 0) (k : Str) (v : V) (d : Dict V)
      → All P d
      → lookup k d ≡ some v
      → P (k, v)
  unfolding lookup
  All-lookup P k v [] h e = absurd (cc)
  All-lookup P k v ((j, w) ∷ d) (p, h) e = elim (Bool-cases (str_eq j k)) [
    | inl same ↦
        let f : some w ≡ some v = rw same at e in
        let keys : j ≡ k = (str_eq_iff j k).0 same in
        let vals : w ≡ v = cc f in subst P (λ i. (keys i, vals i)) p
    | inr other ↦ All-lookup P k v d h (rw other at e)
  ]

  -- No key twice.
  abbrev pub DistinctKeys : Dict V → Type ℓ
  DistinctKeys [] = Unit
  DistinctKeys ((k, v) ∷ d) = (lookup k d ≡ none) × DistinctKeys d

  pub DistinctKeys-insert :
      (k : Str) (v : V) (d : Dict V) → DistinctKeys d → DistinctKeys (insert k v d)
  unfolding insert
  DistinctKeys-insert k v [] h = unfold lookup in (refl, tt)
  DistinctKeys-insert k v ((j, w) ∷ d) (e, h) = elim (Bool-cases (str_eq j k)) [
    | inl same ↦ rw same (rw ((str_eq_iff j k).0 same) at e, h)
    | inr other ↦ rw other (
      ground (arith, lookup-insert k j v d, str_eq_iff j k, str_eq_iff k j),
      DistinctKeys-insert k v d h,
    )
  ]
