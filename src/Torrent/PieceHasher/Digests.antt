-- ===== src/Torrent/PieceHasher/Digests.antt =====
-- The piece list of a torrent by its definition: cut the file into pieces and hash each.
use hali_client.Base.{
  ℕ, zero, suc, ◌+◌, ◌-◌, ◌≤◌, ◌<◌, ◌≡◌, refl, sym, ap, ◌∙◌, false, List, [], ◌∷◌, ◌++◌, arith, Str,
  length, length-append, length-take, length-drop, take, drop, take-append-drop, take-length-append,
  drop-length-append, take_all, drop_all, ltb, if◌then◌else◌, append_assoc, append-nil, inl, inr,
  Bool-cases, Result, ok, ◌>>=◌,
}
use native.Mathlib.Nat.{zero-add}
use hali_client.Base.Int.{ℤ, pos}
use hali_client.Torrent.PieceHasher.{
  PieceHasher, Stop, new, end_piece, write_part, write_all, finalize, piece_count,
}
use hali_client.Torrent.PieceHasher.Stream.{
  IsOpen, absorb, absorb-append, absorb-part, absorb-IsOpen, flatten, write_all-absorb,
}

-- The file in pieces of `n` bytes, the last one shorter. Fuel bounds the number of pieces.
abbrev pub pieces_of : ℕ → ℕ → Str → List Str
pieces_of fuel n [] = []
pieces_of zero n (c ∷ cs) = []
pieces_of (suc fuel) n (c ∷ cs) = take n (c ∷ cs) ∷ pieces_of fuel n (drop n (c ∷ cs))

abbrev pub digests : (Str → Str) → List Str → Str
digests sha1 [] = []
digests sha1 (p ∷ ps) = sha1 p ++ digests sha1 ps

-- The count and the digests once Finalize has closed the piece in progress.
abbrev closed : (Str → Str) → PieceHasher → ℕ × Str
closed sha1 ph =
    if ltb 0 ph.offset
    then (ph.piece_index + 1, ph.pieces ++ sha1 ph.hasher)
    else (ph.piece_index, ph.pieces)

-- The count and the digests after the pieces `ps` more.
abbrev after : (Str → Str) → PieceHasher → List Str → ℕ × Str
after sha1 ph ps = (ph.piece_index + length ps, ph.pieces ++ digests sha1 ps)

pub pieces_of-step :
    (fuel n : ℕ) (w : Str)
    → 0 < length w
    → pieces_of (suc fuel) n w ≡ take n w ∷ pieces_of fuel n (drop n w)
pieces_of-step fuel n [] h = absurd (omega arith)
pieces_of-step fuel n (c ∷ cs) h = refl

nil_of_length : (w : Str) → length w ≡ 0 → w ≡ []
nil_of_length [] h = refl
nil_of_length (c ∷ cs) h = absurd (omega arith)

-- The last piece, which may be empty.
pub pieces_of-last :
    (fuel n : ℕ) (w : Str)
    → length w < n
    → length w ≤ fuel
    → pieces_of fuel n w ≡ (if ltb 0 (length w) then w ∷ [] else [])
pieces_of-last fuel n [] h f = refl
pieces_of-last zero n (c ∷ cs) h f = absurd (omega arith)
pieces_of-last (suc fuel) n (c ∷ cs) h f =
    rw (take_all (c ∷ cs) n (omega arith), drop_all (c ∷ cs) n (omega arith)) (ground arith)

pieces_of-full :
    (fuel n t : ℕ) (h p : Str)
    → n ≡ length h + t
    → 0 < length (h ++ p)
    → pieces_of (suc fuel) n (h ++ p) ≡ (h ++ take t p) ∷ pieces_of fuel n (drop t p)
pieces_of-full fuel n t h p e z =
    pieces_of-step fuel n (h ++ p) z ∙ λ i. taken i ∷ pieces_of fuel n (dropped i)
  where
    taken : take n (h ++ p) ≡ h ++ take t p
    taken = rw e (take-length-append h p t)

    dropped : drop n (h ++ p) ≡ drop t p
    dropped = rw e (drop-length-append h p t)

module _ (sha1 : Str → Str) where
  absorb_inside :
      (p : Str) (ph : PieceHasher)
      → ph.offset + length p < ph.piece_size
      → absorb sha1 ph p ≡ record ph { offset = ph.offset + length p; hasher = ph.hasher ++ p }
  absorb_inside [] ph h =
      let e : ph.offset ≡ ph.offset + 0 = omega arith in
      unfold absorb in λ i. record ph { offset = e i; hasher = sym (append-nil ph.hasher) i }
  absorb_inside (c ∷ cs) ph h =
      absorb-part sha1 c cs ph (omega arith) ∙ (unfold write_part in ground arith)

  absorb_full :
      (p : Str) (ph : PieceHasher)
      → 0 < length p
      → ph.offset + length p ≡ ph.piece_size
      → absorb sha1 ph p ≡ record ph {
        offset = 0;
        piece_index = ph.piece_index + 1;
        hasher = [];
        pieces = ph.pieces ++ sha1 (ph.hasher ++ p);
      }
  absorb_full [] ph z h = absurd (omega arith)
  absorb_full (c ∷ cs) ph z h =
      absorb-part sha1 c cs ph (omega arith) ∙ (unfold write_part end_piece in ground arith)

  closed_inside :
      (fuel : ℕ) (p : Str) (ph : PieceHasher)
      → IsOpen ph
      → ph.offset + length p < ph.piece_size
      → length (ph.hasher ++ p) ≤ fuel
      → closed sha1 (absorb sha1 ph p)
        ≡ after sha1 ph (pieces_of fuel ph.piece_size (ph.hasher ++ p))
  closed_inside fuel p ph o h f =
      let l = length-append ph.hasher p in
      let e : length (ph.hasher ++ p) ≡ ph.offset + length p = omega (arith, o.counted) in
      rw (absorb_inside p ph h) (
        rw (pieces_of-last fuel ph.piece_size (ph.hasher ++ p) (omega arith) f) (
          rw e (elim (Bool-cases (ltb 0 (ph.offset + length p))) [
            | inl some_left ↦ rw some_left (rw append-nil refl)
            | inr none_left ↦ rw (none_left, append-nil) (ground arith)
          ])))

  after-cons :
      (ph : PieceHasher) (p : Str) (ps : List Str)
      → after sha1 (record ph { piece_index = ph.piece_index + 1; pieces = ph.pieces ++ sha1 p }) ps
        ≡ after sha1 ph (p ∷ ps)
  after-cons ph p ps = λ i. (count i, append_assoc ph.pieces (sha1 p) (digests sha1 ps) i)
    where
      count : ph.piece_index + 1 + length ps ≡ ph.piece_index + suc (length ps)
      count = omega arith

  -- The state after the piece in progress is filled by `p`.
  abbrev filled : PieceHasher → Str → PieceHasher
  filled ph p = record ph {
    offset = 0;
    piece_index = ph.piece_index + 1;
    hasher = [];
    pieces = ph.pieces ++ sha1 (ph.hasher ++ p);
  }

  absorb-filled :
      (ph : PieceHasher) (p : Str) (t : ℕ)
      → IsOpen ph
      → ph.offset + t ≡ ph.piece_size
      → t ≤ length p
      → absorb sha1 ph p ≡ absorb sha1 (filled ph (take t p)) (drop t p)
  absorb-filled ph p t o e l =
      ap (absorb sha1 ph) (sym (take-append-drop t p))
      ∙ absorb-append sha1 ph (take t p) (drop t p)
      ∙ ap (λ q. absorb sha1 q (drop t p))
          (absorb_full (take t p) ph (omega (arith, o.space, length-take t p l))
            (omega (arith, length-take t p l)))

  closed_digests :
      (fuel : ℕ) (p : Str) (ph : PieceHasher)
      → IsOpen ph
      → length (ph.hasher ++ p) ≤ fuel
      → closed sha1 (absorb sha1 ph p)
        ≡ after sha1 ph (pieces_of fuel ph.piece_size (ph.hasher ++ p))
  closed_digests zero p ph o f =
      closed_inside zero p ph o (omega (arith, o.space, o.counted, length-append ph.hasher p)) f
  closed_digests (suc fuel) p ph o f =
      elim (Bool-cases (ltb (ph.offset + length p) ph.piece_size)) [
        | inl inside ↦ closed_inside (suc fuel) p ph o (ground arith) f
        | inr over ↦
            let t : ℕ = ph.piece_size - ph.offset in
            let l = length-append ph.hasher p in
            let long : ph.piece_size ≤ ph.offset + length p = ground arith in
            let next =
              closed_digests fuel (drop t p) (filled ph (take t p))
                (record { space = omega (arith, o.space); counted = refl; live = o.live })
                (omega (arith, o.space, o.counted, length-drop t p)) in
            ap (closed sha1)
              (absorb-filled ph p t o (omega (arith, o.space)) (omega (arith, o.space)))
            ∙ next
            ∙ after-cons ph (ph.hasher ++ take t p) (pieces_of fuel ph.piece_size (drop t p))
            ∙ ap (after sha1 ph) (
                sym (
                  pieces_of-full fuel ph.piece_size t ph.hasher p
                    (omega (arith, o.space, o.counted)) (omega (arith, o.space, o.counted))))
      ]

  -- A whole hashing run: a new hasher, the chunks in the order of their arrival, Finalize.
  abbrev pub hash_stream : ℤ → List Str → Result Stop (ℕ × Str)
  hash_stream n ps = do
    ph ← new n
    ph' ← write_all sha1 ph ps
    r ← finalize sha1 ph'
    ok (piece_count r.0, r.1)

  finalize-closed :
      (ph : PieceHasher)
      → IsOpen ph
      → (finalize sha1 ph >>= λ r. ok (piece_count r.0, r.1)) ≡ ok (closed sha1 ph)
  unfolding finalize
  finalize-closed ph o = ground arith

  abbrev fresh : ℕ → PieceHasher
  fresh n = record {
    piece_size = n;
    offset = 0;
    piece_index = 0;
    hasher = [];
    pieces = [];
    finalized = false;
  }

  new_positive : (n : ℕ) → 0 < n → new (pos n) ≡ ok (fresh n)
  unfolding new
  new_positive n h = ground arith

  -- However the bytes of a file arrive, in writes of any sizes, a run of a new hasher with a
  -- positive piece size ends without a panic; it returns one digest for each piece of the file,
  -- in order, and the number of those pieces.
  pub hash_stream-pieces_of :
      (n : ℕ) (ps : List Str)
      → 0 < n
      → hash_stream (pos n) ps
        ≡ ok (
          length (pieces_of (length (flatten ps)) n (flatten ps)),
          digests sha1 (pieces_of (length (flatten ps)) n (flatten ps)),
        )
  hash_stream-pieces_of n ps h =
      let o : IsOpen (fresh n) = record { space = h; counted = refl; live = refl } in
      rw (new_positive n h) (
        rw (write_all-absorb sha1 (fresh n) ps o) (
          finalize-closed (absorb sha1 (fresh n) (flatten ps))
            (absorb-IsOpen sha1 (fresh n) (flatten ps) o)
          ∙ ap ok (
              closed_digests (length (flatten ps)) (flatten ps) (fresh n) o (omega arith) ∙ λ i. (
                zero-add (length (pieces_of (length (flatten ps)) n (flatten ps))) i,
                digests sha1 (pieces_of (length (flatten ps)) n (flatten ps)),
              ))))
