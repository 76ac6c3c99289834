-- ===== src/Cache/Evict.antt =====
-- EvictLRU against a declarative account of which models go.
use mathlib.Core.List.{Permᴰ}
use hali_client.Base.{
  sort, sort-perm, sort-IsAscending, IsAscending-InOrder, InOrder, NotBehind, not_lt-NotBehind,
  IsOrder, str_lt_asym, str_lt_not_trans, ℕ, suc, ◌+◌, ◌-◌, ◌≤◌, ◌<◌, Bool, true, false, List, [],
  ◌∷◌, ◌++◌, ◌≡◌, refl, ap, ◌∙◌, arith, Str, keep, length, str_lt, Option, none, Dict, leb,
  if◌then◌else◌, Bool-cases, inl, inr, ◌⊎◌, ok,
}
use hali_client.Base.Int.{ℤ, pos, ◌<ℤ◌, not_less-or_tied}
use hali_client.Model.{ModelId, to_string}
use hali_client.Cache.{
  Entry, Candidate, EvictionResult, Codec, list, candidates, total_size, is_before, sort_by_age,
  remove_tree, evicted, no_eviction, evict_loop, evict_candidates, evict_lru,
}

abbrev pub remove_trees : {Bytes : Type 0} → List Candidate → Dict Bytes → Dict Bytes
remove_trees [] disk = disk
remove_trees (c ∷ cs) disk = remove_trees cs (remove_tree c.entry.dir disk)

-- Every removal starts from a total above the limit.
abbrev pub IsNeeded : ℕ → ℕ → List Candidate → Type 0
IsNeeded max_bytes total [] = Unit
IsNeeded max_bytes total (c ∷ cs) = (max_bytes < total) × IsNeeded max_bytes (total - c.size) cs

-- An eviction from a result so far: `removed` is the start of the candidates under the root, `left`
-- the rest of them.
pub record IsEviction {Bytes : Type 0} (max_bytes : ℕ) (eligible : List Candidate)
    (before after : EvictionResult) (old new : Dict Bytes) : Type 0 where
  pub removed : List Candidate
  pub left : List Candidate
  pub in_order : eligible ≡ removed ++ left
  pub disk : new ≡ remove_trees removed old
  pub counted : after.evicted_models ≡ before.evicted_models + length removed
  pub freed : after.bytes_freed ≡ before.bytes_freed + total_size removed
  pub remaining : after.bytes_after ≡ before.bytes_after - total_size removed
  pub initial : after.bytes_before ≡ before.bytes_before
  pub needed : IsNeeded max_bytes before.bytes_after removed
  pub enough : (after.bytes_after ≤ max_bytes) ⊎ (left ≡ [])

abbrev pub never : Str → Bool
never dir = false

abbrev pub eligible_of : (Str → Bool) → List Candidate → List Candidate
eligible_of is_under_root = keep (λ c. is_under_root c.entry.dir)

stopped :
    {Bytes : Type 0} (max_bytes : ℕ) (eligible : List Candidate) (res : EvictionResult)
    (disk : Dict Bytes)
    → (res.bytes_after ≤ max_bytes) ⊎ (eligible ≡ [])
    → IsEviction max_bytes eligible res res disk disk
stopped max_bytes eligible res disk h = record {
  removed = [];
  left = eligible;
  in_order = refl;
  disk = refl;
  counted = omega arith;
  freed = omega arith;
  remaining = omega arith;
  initial = refl;
  needed = tt;
  enough = h;
}

evicted-IsEviction :
    {Bytes : Type 0} (max_bytes : ℕ) (c : Candidate) (eligible : List Candidate)
    (res after : EvictionResult) (disk new : Dict Bytes)
    → max_bytes < res.bytes_after
    → IsEviction max_bytes eligible (evicted res c) after (remove_tree c.entry.dir disk) new
    → IsEviction max_bytes (c ∷ eligible) res after disk new
unfolding evicted
evicted-IsEviction max_bytes c eligible res after disk new h e = record {
  removed = c ∷ e.removed;
  left = e.left;
  in_order = ap (◌∷◌ c) e.in_order;
  disk = e.disk;
  counted = omega (arith, e.counted);
  freed = omega (arith, e.freed);
  remaining = omega (arith, e.remaining);
  initial = e.initial;
  needed = (h, e.needed);
  enough = e.enough;
}

above : (a b : ℕ) → leb a b ≡ false → b < a
above a b h = ground arith

below : (a b : ℕ) → leb a b ≡ true → a ≤ b
below a b h = ground arith

module _ {Bytes : Type 0} (is_under_root : Str → Bool) (max_bytes : ℕ) where
  evict_loop-IsEviction :
      (cs : List Candidate) (res : EvictionResult) (disk : Dict Bytes)
      → IsEviction max_bytes
          (eligible_of is_under_root cs)
          res
          (evict_loop is_under_root never max_bytes res cs disk).0
          disk
          (evict_loop is_under_root never max_bytes res cs disk).2
  unfolding evict_loop
  evict_loop-IsEviction [] res disk = stopped max_bytes [] res disk (inr refl)
  evict_loop-IsEviction (c ∷ cs) res disk = elim (Bool-cases (leb res.bytes_after max_bytes)) [
    | inl low ↦ rw low (
        stopped max_bytes (eligible_of is_under_root (c ∷ cs)) res disk
          (inl (below res.bytes_after max_bytes low)))
    | inr high ↦ elim (Bool-cases (is_under_root c.entry.dir)) [
      | inl inside ↦
          rw (high, inside)
            (evicted-IsEviction max_bytes c (eligible_of is_under_root cs) res _ disk _
              (above res.bytes_after max_bytes high)
              (evict_loop-IsEviction cs (evicted res c) (remove_tree c.entry.dir disk)))
      | inr outside ↦ rw (high, outside) (evict_loop-IsEviction cs res disk)
    ]
  ]

  evict_loop_complete :
      (cs : List Candidate) (res : EvictionResult) (disk : Dict Bytes)
      → (evict_loop is_under_root never max_bytes res cs disk).1 ≡ none
  unfolding evict_loop
  evict_loop_complete [] res disk = refl
  evict_loop_complete (c ∷ cs) res disk =
      let inside = is_under_root c.entry.dir in
      let rest =
        evict_loop_complete cs (if inside then evicted res c else res)
          (if inside then remove_tree c.entry.dir disk else disk) in
      elim (Bool-cases (leb res.bytes_after max_bytes)) [
        | inl low ↦ rw low refl
        | inr high ↦ elim (Bool-cases inside) [
          | inl e ↦ rw (high, e) (rw e at rest)
          | inr e ↦ rw (high, e) (rw e at rest)
        ]
      ]

total_size-perm : {cs ds : List Candidate} → Permᴰ cs ds → total_size cs ≡ total_size ds
total_size-perm Permᴰ.nil = refl
total_size-perm (Permᴰ.cons {a = c} {b = d} e p) =
    omega (arith, total_size-perm p, ap Candidate.size e)
total_size-perm (Permᴰ.swap {a = c} {b = d} {l = l} e f) =
    omega (arith, ap Candidate.size e, ap Candidate.size f)
total_size-perm (Permᴰ.trans p q) = total_size-perm p ∙ total_size-perm q

total_size-keep :
    (p : Candidate → Bool) (cs : List Candidate) → total_size (keep p cs) ≤ total_size cs
total_size-keep p [] = omega arith
total_size-keep p (c ∷ cs) = elim (Bool-cases (p c)) [
  | inl e ↦ rw e (omega (arith, total_size-keep p cs))
  | inr e ↦ rw e (omega (arith, total_size-keep p cs))
]

total_size-append : (cs ds : List Candidate) → total_size (cs ++ ds) ≡ total_size cs + total_size ds
total_size-append [] ds = omega arith
total_size-append (c ∷ cs) ds = omega (arith, total_size-append cs ds)

-- The result that EvictLRU starts from.
abbrev pub at_start : List Candidate → EvictionResult
at_start cs = record no_eviction { bytes_before = total_size cs; bytes_after = total_size cs }

-- `c` was downloaded earlier than `d`, or at the same time, and then its id is not behind that of `d`.
abbrev pub IsOlder : Candidate → Candidate → Type 0
IsOlder c d =
    (c.when <ℤ d.when)
    ⊎ ((c.when ≡ d.when) × NotBehind (to_string c.entry.id) (to_string d.entry.id))

is_before_asym : (c d : Candidate) → is_before c d ≡ true → is_before d c ≡ false
unfolding is_before
is_before_asym c d h = ground (arith, str_lt_asym (to_string c.entry.id) (to_string d.entry.id))

is_before_not_trans :
    (a b c : Candidate) → is_before b a ≡ false → is_before c b ≡ false → is_before c a ≡ false
unfolding is_before
is_before_not_trans a b c h k =
    ground
      (arith, str_lt_not_trans (to_string a.entry.id) (to_string b.entry.id) (to_string c.entry.id))

is_before-IsOrder : IsOrder is_before
is_before-IsOrder = record { asym = is_before_asym; not_trans = is_before_not_trans }

not_before-IsOlder : (c d : Candidate) → is_before d c ≡ false → IsOlder c d
unfolding is_before
not_before-IsOlder c d h =
    let behind = not_lt-NotBehind (to_string c.entry.id) (to_string d.entry.id) in
    elim (not_less-or_tied d.when c.when (str_lt (to_string d.entry.id) (to_string c.entry.id)) h) [
      | inl lt ↦ inl lt
      | inr (e, tie) ↦ inr (e, behind tie)
    ]

sort_by_age-IsOlder : (cs : List Candidate) → InOrder IsOlder (sort_by_age cs)
unfolding sort_by_age
sort_by_age-IsOlder cs =
    IsAscending-InOrder is_before IsOlder not_before-IsOlder (sort is_before cs)
      (sort-IsAscending is_before is_before-IsOrder cs)

sort_by_age-perm : (cs : List Candidate) → Permᴰ (sort_by_age cs) cs
unfolding sort_by_age
sort_by_age-perm cs = sort-perm is_before cs

module _ {Bytes : Type 0} (is_under_root : Str → Bool) (max_bytes : ℕ) (cs : List Candidate)
    (disk : Dict Bytes) where
  evict_candidates_complete : (evict_candidates is_under_root never max_bytes cs disk).1 ≡ none
  unfolding evict_candidates
  evict_candidates_complete = elim (Bool-cases (leb (total_size cs) max_bytes)) [
    | inl e ↦ rw e refl
    | inr e ↦ rw e (evict_loop_complete is_under_root max_bytes (sort_by_age cs) (at_start cs) disk)
  ]

  evict_candidates-IsEviction :
      IsEviction max_bytes
        (eligible_of is_under_root (sort_by_age cs))
        (at_start cs)
        (evict_candidates is_under_root never max_bytes cs disk).0
        disk
        (evict_candidates is_under_root never max_bytes cs disk).2
  unfolding evict_candidates
  evict_candidates-IsEviction = elim (Bool-cases (leb (total_size cs) max_bytes)) [
    | inl e ↦ rw e (
        stopped max_bytes (eligible_of is_under_root (sort_by_age cs)) (at_start cs) disk
          (inl (below (total_size cs) max_bytes e)))
    | inr e ↦
        rw e (evict_loop-IsEviction is_under_root max_bytes (sort_by_age cs) (at_start cs) disk)
  ]

eligible_fits :
    (is_under_root : Str → Bool) (cs removed left : List Candidate)
    → eligible_of is_under_root (sort_by_age cs) ≡ removed ++ left
    → total_size removed ≤ total_size cs
eligible_fits is_under_root cs removed left h =
    let parts = ap total_size h ∙ total_size-append removed left in
    omega (
      arith,
      parts,
      total_size-perm (sort_by_age-perm cs),
      total_size-keep (λ c. is_under_root c.entry.dir) (sort_by_age cs),
    )

-- EvictLRU with a limit above zero, of a disk that List reads and with no failing removal, returns
-- a result without an error. For the candidates in an order in which each was downloaded earlier than
-- all behind it, or at the same time and with an id that is not behind theirs, it removes the first of
-- those under the root, each one while the total is above the limit, until the total is within the
-- limit or none is left; it counts them, and the bytes freed and the bytes that remain make the bytes
-- before. The disk loses the trees of the removed models.
pub evict_lru-IsEviction :
    {Bytes : Type 0} (codec : Codec Bytes) (parse_time : Str → Option ℤ)
    (is_under_root : Str → Bool) (limit : ℕ) (disk : Dict Bytes) (es : List Entry)
    → list codec disk ≡ ok es
    → (out : EvictionResult × Option ModelId × Dict Bytes) × (order : List Candidate) × (evict_lru
          codec parse_time is_under_root never
          (pos (suc limit))
          disk
        ≡ ok out)
      × (out.1 ≡ none)
      × Permᴰ order (candidates parse_time es)
      × InOrder IsOlder order
      × IsEviction
          (suc limit)
          (eligible_of is_under_root order)
          (at_start (candidates parse_time es))
          out.0
          disk
          out.2
      × (out.0.bytes_freed + out.0.bytes_after ≡ out.0.bytes_before)
unfolding evict_lru
evict_lru-IsEviction codec parse_time is_under_root limit disk es h =
    let cs = candidates parse_time es in
    let out = evict_candidates is_under_root never (suc limit) cs disk in
    let e = evict_candidates-IsEviction is_under_root (suc limit) cs disk in
    let fits = eligible_fits is_under_root cs e.removed e.left e.in_order in
    (
      out,
      sort_by_age cs,
      rw h refl,
      evict_candidates_complete is_under_root (suc limit) cs disk,
      sort_by_age-perm cs,
      sort_by_age-IsOlder cs,
      e,
      omega (arith, e.freed, e.remaining, e.initial, fits),
    )
