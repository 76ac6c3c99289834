-- ===== src/Daemon/Lan/Summary/Rows.antt =====
-- The rows of the LAN summary: their order and their number, and which models have one.
use mathlib.Core.List.Permᴰ
use hali_client.Base.{
  refl, str_lt, Any, Any-perm, InOrder, IsAscending-InOrder, NotBehind, not_lt-NotBehind, sort-perm,
  ◌⊎◌, ℕ, zero, suc, All-sort, ◌-◌, ◌≤◌, true, false, List, [], ◌∷◌, Str, sort, sort-IsAscending,
  IsOrder, str_lt_asym, str_lt_not_trans, take, length, ◌==◌, Option, none, some, Dict, ◌≡◌, All,
  arith, Bool-cases, inl, inr,
}
use hali_client.Base.Int.{◌<ℤ◌, not_more-or_tied}
use hali_client.Daemon.Lan.{LanIndex, ModelHint, prune_older_than}
use hali_client.Daemon.Lan.Observed.{
  unix_seconds, lan_observed_hard_ttl, pick_best_by_freshness, peer_count_and_last_seen,
}
use hali_client.Daemon.Lan.Summary.{
  LanSeenEntry, max_lan_seen_rows, add_row, lan_seen_entry, lan_seen_entries, seen_less,
  summarize_lan_seen, handle_lan_seen,
}

seen_less_asym : (a b : LanSeenEntry) → seen_less a b ≡ true → seen_less b a ≡ false
seen_less_asym a b h = ground (arith, str_lt_asym a.model_id b.model_id)

seen_less_not_trans :
    (a b c : LanSeenEntry) → seen_less b a ≡ false → seen_less c b ≡ false → seen_less c a ≡ false
seen_less_not_trans a b c h k = ground (arith, str_lt_not_trans a.model_id b.model_id c.model_id)

pub seen_less-IsOrder : IsOrder seen_less
seen_less-IsOrder = record { asym = seen_less_asym; not_trans = seen_less_not_trans }

-- A row of a model with at least one peer
abbrev pub HasPeers : LanSeenEntry → Type 0
HasPeers r = 1 ≤ r.peer_count

length-take_le : (n : ℕ) (rows : List LanSeenEntry) → length (take n rows) ≤ n
length-take_le zero rows = omega arith
length-take_le (suc n) [] = omega arith
length-take_le (suc n) (r ∷ rows) = omega (arith, length-take_le n rows)

add_row-HasPeers :
    (id : Str) (hs : List ModelHint) (now : ℕ) (best : Option ModelHint) (rows : List LanSeenEntry)
    → All HasPeers rows
    → All HasPeers (add_row (lan_seen_entry id hs now best) rows)
add_row-HasPeers id hs now none rows a = a
add_row-HasPeers id hs now (some best) rows a =
    elim (Bool-cases ((peer_count_and_last_seen hs best.identity.infohash_v1 now).0 == 0)) [
      | inl h ↦ rw h a
      | inr h ↦ rw h (ground arith, a)
    ]

lan_seen_entries-HasPeers :
    (snap : Dict (List ModelHint)) (now : ℕ) → All HasPeers (lan_seen_entries snap now)
unfolding lan_seen_entries
lan_seen_entries-HasPeers [] now = tt
lan_seen_entries-HasPeers ((id, hs) ∷ snap) now =
    add_row-HasPeers id hs now (pick_best_by_freshness hs now) (lan_seen_entries snap now)
      (lan_seen_entries-HasPeers snap now)

-- `a` was seen later than `b`, or at the same time, and then its name is not behind that of `b`.
abbrev pub IsLater : LanSeenEntry → LanSeenEntry → Type 0
IsLater a b =
    (b.last_seen <ℤ a.last_seen) ⊎ ((a.last_seen ≡ b.last_seen) × NotBehind a.model_id b.model_id)

not_less-IsLater : (a b : LanSeenEntry) → seen_less b a ≡ false → IsLater a b
not_less-IsLater a b h =
    elim (not_more-or_tied b.last_seen a.last_seen (str_lt b.model_id a.model_id) h) [
      | inl later ↦ inl later
      | inr (e, tie) ↦ inr (e, not_lt-NotBehind a.model_id b.model_id tie)
    ]

-- The row of a model for a hint, with the peers that the hints of the model count for it and the time
-- of the last of them
abbrev pub IsRowOf : Str → List ModelHint → ModelHint → ℕ → LanSeenEntry → Type 0
IsRowOf id hs best now r =
    (r.model_id ≡ id)
    × (r.hf_repo ≡ best.hf_repo)
    × (r.revision ≡ best.revision)
    × (r.infohash ≡ best.identity.infohash_v1)
    × (r.infohash_v2 ≡ best.identity.infohash_v2)
    × (r.last_seen ≡ unix_seconds (peer_count_and_last_seen hs best.identity.infohash_v1 now).1)
    × (r.peer_count ≡ (peer_count_and_last_seen hs best.identity.infohash_v1 now).0)

abbrev RowIf : ℕ → List LanSeenEntry → (LanSeenEntry → Type 0) → Type 0
RowIf zero all P = Unit
RowIf (suc n) all P = Any P all

-- The model has a row for its picked hint, if a peer counts for that.
abbrev pub HasRow : ℕ → List LanSeenEntry → Str → List ModelHint → Option ModelHint → Type 0
HasRow now all id hs none = Unit
HasRow now all id hs (some best) =
    RowIf (peer_count_and_last_seen hs best.identity.infohash_v1 now).0 all (IsRowOf id hs best now)

-- Each model of an index has its row.
abbrev pub HasRows : ℕ → List LanSeenEntry → Dict (List ModelHint) → Type 0
HasRows now all = All (λ m. HasRow now all m.0 m.1 (pick_best_by_freshness m.1 now))

module _ (now : ℕ) (all more : List LanSeenEntry)
    (kept : (P : LanSeenEntry → Type 0) → Any P all → Any P more) where
  RowIf_more : (n : ℕ) (P : LanSeenEntry → Type 0) → RowIf n all P → RowIf n more P
  RowIf_more zero P h = tt
  RowIf_more (suc n) P h = kept P h

  HasRow-more :
      (id : Str) (hs : List ModelHint) (o : Option ModelHint)
      → HasRow now all id hs o
      → HasRow now more id hs o
  HasRow-more id hs none h = tt
  HasRow-more id hs (some best) h = RowIf_more _ (IsRowOf id hs best now) h

  HasRows-more : (snap : Dict (List ModelHint)) → HasRows now all snap → HasRows now more snap
  HasRows-more [] h = tt
  HasRows-more ((id, hs) ∷ snap) (a, h) =
      (HasRow-more id hs (pick_best_by_freshness hs now) a, HasRows-more snap h)

add_row-Any :
    (o : Option LanSeenEntry) (rows : List LanSeenEntry) (P : LanSeenEntry → Type 0)
    → Any P rows
    → Any P (add_row o rows)
add_row-Any none rows P h = h
add_row-Any (some r) rows P h = inr h

RowIf-zero : (n : ℕ) (all : List LanSeenEntry) (P : LanSeenEntry → Type 0) → n ≡ 0 → RowIf n all P
RowIf-zero zero all P h = tt
RowIf-zero (suc n) all P h = absurd (omega arith)

RowIf-Any :
    (n : ℕ) (all : List LanSeenEntry) (P : LanSeenEntry → Type 0) → Any P all → RowIf n all P
RowIf-Any zero all P h = tt
RowIf-Any (suc n) all P h = h

lan_seen_entry-HasRow :
    (id : Str) (hs : List ModelHint) (now : ℕ) (o : Option ModelHint) (rows : List LanSeenEntry)
    → HasRow now (add_row (lan_seen_entry id hs now o) rows) id hs o
lan_seen_entry-HasRow id hs now none rows = tt
lan_seen_entry-HasRow id hs now (some best) rows =
    let n = (peer_count_and_last_seen hs best.identity.infohash_v1 now).0 in
    elim (Bool-cases (n == 0)) [
      | inl z ↦ RowIf-zero n _ (IsRowOf id hs best now) (ground arith)
      | inr z ↦
          rw z (
            RowIf-Any n _ (IsRowOf id hs best now) (inl (refl, refl, refl, refl, refl, refl, refl)))
    ]

lan_seen_entries-HasRows :
    (snap : Dict (List ModelHint)) (now : ℕ) → HasRows now (lan_seen_entries snap now) snap
unfolding lan_seen_entries
lan_seen_entries-HasRows [] now = tt
lan_seen_entries-HasRows ((id, hs) ∷ snap) now =
    let o = lan_seen_entry id hs now (pick_best_by_freshness hs now) in
    (
      lan_seen_entry-HasRow id hs now (pick_best_by_freshness hs now) (lan_seen_entries snap now),
      HasRows-more now (lan_seen_entries snap now) (add_row o (lan_seen_entries snap now))
          (add_row-Any o (lan_seen_entries snap now)) snap (lan_seen_entries-HasRows snap now),
    )

-- The rows of handleLanSeen are the first 500 of rows that are in order, the latest seen first and
-- those of one time by their names, each for a model with at least one peer. Among those rows, each
-- model of the pruned index whose picked hint has a peer has a row with its name, the source and the
-- infohashes of that hint, the count of its peers and the time at which the last was seen.
pub handle_lan_seen-rows :
    (idx : LanIndex) (pruned_at now : ℕ)
    → (all : List LanSeenEntry) × ((handle_lan_seen idx pruned_at now).1 ≡ take 500 all)
      × (length (handle_lan_seen idx pruned_at now).1 ≤ 500)
      × InOrder IsLater all
      × All HasPeers all
      × HasRows now all (handle_lan_seen idx pruned_at now).0.entries
unfolding handle_lan_seen summarize_lan_seen
handle_lan_seen-rows idx pruned_at now =
    let entries = (prune_older_than idx (pruned_at - lan_observed_hard_ttl)).0.entries in
    let rows = lan_seen_entries entries now in
    let sorted = sort seen_less rows in
    (
      sorted,
      refl,
      length-take_le max_lan_seen_rows sorted,
      IsAscending-InOrder seen_less IsLater not_less-IsLater sorted
          (sort-IsAscending seen_less seen_less-IsOrder rows),
      All-sort seen_less HasPeers rows (lan_seen_entries-HasPeers entries now),
      HasRows-more now rows sorted (λ P. Any-perm P (Permᴰ.symm (sort-perm seen_less rows))) entries
          (lan_seen_entries-HasRows entries now),
    )
