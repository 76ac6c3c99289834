-- ===== src/Daemon/Activity/Recent.antt =====
-- The buffer against the whole history of the events that were appended.
use Prim.Native.Nat.{min}
use hali_client.Base.{
  ℕ, zero, suc, ◌-◌, ◌≤◌, ◌≡◌, refl, sym, ap, arith, ◌||◌, List, [], ◌∷◌, ◌++◌, append_assoc,
  append-nil, subst, leb, length, length-append, length-replicate, drop, drop_all, ltb, ◌==◌,
  Bool-cases, inl, inr, if◌then◌else◌,
}
use hali_client.Base.Int.{ℤ, pos, negsuc, leb_ℤ, ltb_ℤ, pos_part}
use hali_client.Base.Ring.{read_ring, read_ring-drop, IsRing, IsWindow, set-IsWindow}
use hali_client.Daemon.Activity.{
  Event, ActivityBuffer, activity_cap, no_event, empty_buffer, stamped, append, snapshot,
}

ring : IsRing activity_cap
ring = record { slot_lt = λ j. omega arith; slots_ne = λ i j h k. omega arith }

-- The events appended so far, each with its time.
abbrev pub append_all : ActivityBuffer → List (Event × ℕ) → ActivityBuffer
append_all b [] = b
append_all b ((e, now) ∷ es) = append_all (append b e now) es

abbrev pub stamped_all : List (Event × ℕ) → List Event
stamped_all [] = []
stamped_all ((e, now) ∷ es) = stamped e now ∷ stamped_all es

record Represents (b : ActivityBuffer) (hist : List Event) : Type 0 where
  window : IsWindow activity_cap no_event b.buf hist
  counted : b.count ≡ length hist

append-Represents :
    (b : ActivityBuffer) (hist : List Event) (e : Event) (now : ℕ)
    → Represents b hist
    → Represents (append b e now) (hist ++ stamped e now ∷ [])
unfolding append
append-Represents b hist e now r = record {
  window =
      rw r.counted (set-IsWindow activity_cap ring no_event b.buf hist (stamped e now) r.window);
  counted = omega (arith, r.counted, length-append hist (stamped e now ∷ []));
}

append_all-Represents :
    (es : List (Event × ℕ)) (b : ActivityBuffer) (hist : List Event)
    → Represents b hist
    → Represents (append_all b es) (hist ++ stamped_all es)
append_all-Represents [] b hist r = rw append-nil r
append_all-Represents ((e, now) ∷ es) b hist r =
    subst (Represents (append_all (append b e now) es))
      (append_assoc hist (stamped e now ∷ []) (stamped_all es))
      (append_all-Represents es (append b e now) (hist ++ stamped e now ∷ [])
        (append-Represents b hist e now r))

-- How many of `n` events a snapshot of `last_n` holds.
abbrev pub snapshot_size : ℤ → ℕ → ℕ
snapshot_size (pos (suc k)) n =
    if leb (suc k) (min activity_cap n) then suc k else min activity_cap n
snapshot_size _ n = min activity_cap n

chosen_size :
    (last_n : ℤ) (n : ℕ)
    → (let total = if ltb activity_cap n then activity_cap else n in
        if leb_ℤ last_n (pos 0) || ltb_ℤ (pos total) last_n then total else pos_part last_n)
      ≡ snapshot_size last_n n
chosen_size (pos zero) n = ground arith
chosen_size (pos (suc k)) n = ground arith
chosen_size (negsuc k) n = ground arith

snapshot_size-le :
    (last_n : ℤ) (n : ℕ) → (snapshot_size last_n n ≤ n) × (snapshot_size last_n n ≤ activity_cap)
snapshot_size-le (pos zero) n = ground arith
snapshot_size-le (pos (suc k)) n = ground arith
snapshot_size-le (negsuc k) n = ground arith

read_last :
    (b : ActivityBuffer) (hist : List Event) (n : ℕ)
    → Represents b hist
    → n ≤ length hist
    → n ≤ activity_cap
    → (if n == 0 then [] else read_ring activity_cap no_event b.buf (length hist - n) n)
      ≡ drop (length hist - n) hist
read_last b hist n r le cap = elim (Bool-cases (n == 0)) [
  | inl e ↦ rw e (sym (drop_all hist (length hist - n) (ground arith)))
  | inr e ↦ rw e (
      read_ring-drop activity_cap ring no_event n (length hist - n) b.buf hist r.window
        (omega arith) cap)
]

snapshot-Represents :
    (b : ActivityBuffer) (hist : List Event) (last_n : ℤ)
    → Represents b hist
    → snapshot b last_n ≡ drop (length hist - snapshot_size last_n (length hist)) hist
unfolding snapshot
snapshot-Represents b hist last_n r =
    let bounds = snapshot_size-le last_n (length hist) in
    rw (chosen_size last_n b.count, r.counted)
      (read_last b hist (snapshot_size last_n (length hist)) r bounds.0 bounds.1)

empty-Represents : Represents empty_buffer []
empty-Represents = record {
  window = record {
    full = length-replicate activity_cap no_event;
    at = λ i h k. absurd (omega arith);
  };
  counted = refl;
}

length-stamped_all : (es : List (Event × ℕ)) → length (stamped_all es) ≡ length es
length-stamped_all [] = refl
length-stamped_all ((e, now) ∷ es) = ap suc (length-stamped_all es)

-- After any events, a snapshot is the end of the sequence of these events, the oldest first: the
-- last `last_n` of them where there are so many and no more than the capacity of 200, and else,
-- or where `last_n` is not positive, the last 200 or all.
pub snapshot-append_all :
    (es : List (Event × ℕ)) (last_n : ℤ)
    → snapshot (append_all empty_buffer es) last_n
      ≡ drop (length es - snapshot_size last_n (length es)) (stamped_all es)
snapshot-append_all es last_n = rw (length-stamped_all es) at (
    snapshot-Represents (append_all empty_buffer es) (stamped_all es) last_n
      (append_all-Represents es empty_buffer [] empty-Represents))
