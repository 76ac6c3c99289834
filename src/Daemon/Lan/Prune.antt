-- ===== src/Daemon/Lan/Prune.antt =====
-- PruneOlderThan as a client sees it.
use hali_client.Base.{
  ℕ, ◌+◌, false, not, List, [], ◌∷◌, ◌≡◌, refl, ◌∙◌, arith, keep, length, Str, str_eq, str_eq_iff,
  none, Dict, lookup, DistinctKeys, ltb, if◌then◌else◌, Bool-cases, inl, inr,
}
use hali_client.Daemon.Lan.{
  LanIndex, ModelHint, hints_of, query, prune_hints, prune_entries, prune_older_than, cons_bucket,
}
use hali_client.Daemon.Lan.Hints.{IsSound}

-- The hints that are not older than the cutoff, in their order.
abbrev pub recent : ℕ → List ModelHint → List ModelHint
recent cutoff = keep (λ h. not (ltb h.seen_at cutoff))

abbrev pub hint_count : Dict (List ModelHint) → ℕ
hint_count [] = 0
hint_count ((id, hs) ∷ d) = length hs + hint_count d

prune_hints-recent :
    (cutoff : ℕ) (hs : List ModelHint) → (prune_hints cutoff hs).0 ≡ recent cutoff hs
unfolding prune_hints
prune_hints-recent cutoff [] = refl
prune_hints-recent cutoff (h ∷ hs) = ground (arith, prune_hints-recent cutoff hs)

prune_hints-count :
    (cutoff : ℕ) (hs : List ModelHint)
    → length (prune_hints cutoff hs).0 + (prune_hints cutoff hs).1 ≡ length hs
unfolding prune_hints
prune_hints-count cutoff [] = omega arith
prune_hints-count cutoff (h ∷ hs) = ground (arith, prune_hints-count cutoff hs)

hint_count-cons_bucket :
    (id : Str) (hs : List ModelHint) (d : Dict (List ModelHint))
    → hint_count (cons_bucket id hs d) ≡ length hs + hint_count d
hint_count-cons_bucket id [] d = omega arith
hint_count-cons_bucket id (h ∷ hs) d = refl

hints_of-cons_bucket :
    (k id : Str) (hs : List ModelHint) (d : Dict (List ModelHint))
    → lookup id d ≡ none
    → hints_of k (cons_bucket id hs d) ≡ (if str_eq id k then hs else hints_of k d)
unfolding lookup
hints_of-cons_bucket k id [] d fresh = elim (Bool-cases (str_eq id k)) [
  | inl e ↦ rw e (rw (← (str_eq_iff id k).0 e) (rw fresh))
  | inr e ↦ rw e
]
hints_of-cons_bucket k id (h ∷ hs) d fresh = ground arith

lookup-cons_bucket :
    (k id : Str) (hs : List ModelHint) (d : Dict (List ModelHint))
    → lookup k d ≡ none
    → str_eq id k ≡ false
    → lookup k (cons_bucket id hs d) ≡ none
unfolding lookup
lookup-cons_bucket k id [] d h ne = h
lookup-cons_bucket k id (x ∷ xs) d h ne = rw ne h

lookup-prune_entries :
    (cutoff : ℕ) (k : Str) (d : Dict (List ModelHint))
    → lookup k d ≡ none
    → lookup k (prune_entries cutoff d).0 ≡ none
unfolding prune_entries
lookup-prune_entries cutoff k [] h = h
lookup-prune_entries cutoff k ((id, hs) ∷ d) h =
    lookup-cons_bucket k id (prune_hints cutoff hs).0 (prune_entries cutoff d).0
      (lookup-prune_entries cutoff k d (absent k id hs d h).0) (absent k id hs d h).1
  where
    absent :
        (k id : Str) (hs : List ModelHint) (d : Dict (List ModelHint))
        → lookup k ((id, hs) ∷ d) ≡ none
        → (lookup k d ≡ none) × (str_eq id k ≡ false)
    absent k id hs d h = unfold lookup in ground arith

hints_of-prune :
    (cutoff : ℕ) (k : Str) (d : Dict (List ModelHint))
    → DistinctKeys d
    → hints_of k (prune_entries cutoff d).0 ≡ recent cutoff (hints_of k d)
unfolding prune_entries lookup
hints_of-prune cutoff k [] h = refl
hints_of-prune cutoff k ((id, hs) ∷ d) (fresh, h) =
    hints_of-cons_bucket k id (prune_hints cutoff hs).0 (prune_entries cutoff d).0
      (lookup-prune_entries cutoff id d fresh)
    ∙ elim (Bool-cases (str_eq id k)) [
      | inl e ↦ rw e (prune_hints-recent cutoff hs)
      | inr e ↦ rw e (hints_of-prune cutoff k d h)
    ]

hint_count-prune :
    (cutoff : ℕ) (d : Dict (List ModelHint))
    → hint_count (prune_entries cutoff d).0 + (prune_entries cutoff d).1 ≡ hint_count d
unfolding prune_entries
hint_count-prune cutoff [] = omega arith
hint_count-prune cutoff ((id, hs) ∷ d) = omega (
  arith,
  hint_count-cons_bucket id (prune_hints cutoff hs).0 (prune_entries cutoff d).0,
  prune_hints-count cutoff hs,
  hint_count-prune cutoff d,
)

-- After a prune a query gives the hints of before that are not older than the cutoff, in their
-- order, for every model; and the number returned is the number of the hints that went.
query-prune :
    (idx : LanIndex) (cutoff : ℕ) (model_id : Str)
    → IsSound idx
    → (query (prune_older_than idx cutoff).0 model_id ≡ recent cutoff (query idx model_id))
      × (hint_count (prune_older_than idx cutoff).0.entries + (prune_older_than idx cutoff).1
          ≡ hint_count idx.entries)
unfolding query prune_older_than
query-prune idx cutoff model_id s =
    (hints_of-prune cutoff model_id idx.entries s.keys, hint_count-prune cutoff idx.entries)
