-- ===== src/Torrent/PieceHasher/Stream.antt =====
-- Write, in any division of the stream into calls, is one pass over the bytes.
use native.Mathlib.Nat.{zero-add}
use hali_client.Base.{
  ℕ, zero, suc, ◌+◌, ◌≤◌, ◌<◌, ◌≡◌, refl, sym, ap, ◌∙◌, false, List, [], ◌∷◌, ◌++◌, arith, Str,
  length, length-append, length-take, length-drop, take, drop, take-append-drop, append_assoc, ok,
}
use hali_client.Torrent.PieceHasher.{PieceHasher, write_part, room, write_loop, write, write_all}

-- What holds between two calls.
pub record IsOpen (ph : PieceHasher) : Type 0 where
  pub space : ph.offset < ph.piece_size
  pub counted : ph.offset ≡ length ph.hasher
  pub live : ph.finalized ≡ false

-- The bytes of a stream of chunks.
abbrev pub flatten : List Str → Str
flatten [] = []
flatten (p ∷ ps) = p ++ flatten ps

module _ (sha1 : Str → Str) where
  -- One byte at a time.
  unfoldable pub feed : PieceHasher → ℕ → PieceHasher
  unfolding write_part
  feed ph c = write_part sha1 ph (c ∷ [])

  unfoldable pub absorb : PieceHasher → Str → PieceHasher
  unfolding feed
  absorb ph [] = ph
  absorb ph (c ∷ cs) = absorb (feed ph c) cs

  pub absorb-append : (ph : PieceHasher) (a b : Str) → absorb ph (a ++ b) ≡ absorb (absorb ph a) b
  unfolding absorb
  absorb-append ph [] b = refl
  absorb-append ph (c ∷ cs) b = absorb-append (feed ph c) cs b

  feed_inside :
      (ph : PieceHasher) (c : ℕ)
      → ph.offset + 1 < ph.piece_size
      → feed ph c ≡ record ph { offset = ph.offset + 1; hasher = ph.hasher ++ c ∷ [] }
  unfolding feed
  feed_inside ph c h = ground arith

  write_part-cons :
      (ph : PieceHasher) (c : ℕ) (part : Str)
      → write_part sha1 (record ph { offset = ph.offset + 1; hasher = ph.hasher ++ c ∷ [] }) part
        ≡ write_part sha1 ph (c ∷ part)
  unfolding write_part
  write_part-cons ph c part =
      let e : ph.offset + 1 + length part ≡ ph.offset + suc (length part) = omega arith in
      rw (e, append_assoc)

  -- A part that fits the piece in progress may be written at once.
  pub absorb-part :
      (c : ℕ) (cs : Str) (ph : PieceHasher)
      → ph.offset + length (c ∷ cs) ≤ ph.piece_size
      → absorb ph (c ∷ cs) ≡ write_part sha1 ph (c ∷ cs)
  unfolding absorb
  absorb-part c [] ph h = unfold feed in refl
  absorb-part c (d ∷ ds) ph h =
      ap (λ q. absorb (feed q d) ds) (feed_inside ph c (omega arith))
      ∙ absorb-part d ds (record ph { offset = ph.offset + 1; hasher = ph.hasher ++ c ∷ [] })
          (omega arith)
      ∙ write_part-cons ph c (d ∷ ds)

  pub write_part-IsOpen :
      (ph : PieceHasher) (part : Str)
      → IsOpen ph
      → ph.offset + length part ≤ ph.piece_size
      → IsOpen (write_part sha1 ph part)
  unfolding write_part
  write_part-IsOpen ph part o h = ground (arith, length-append ph.hasher part)

  feed-IsOpen : (ph : PieceHasher) (c : ℕ) → IsOpen ph → IsOpen (feed ph c)
  unfolding feed
  feed-IsOpen ph c o = write_part-IsOpen ph (c ∷ []) o (omega (arith, o.space))

  pub absorb-IsOpen : (ph : PieceHasher) (p : Str) → IsOpen ph → IsOpen (absorb ph p)
  unfolding absorb
  absorb-IsOpen ph [] o = o
  absorb-IsOpen ph (c ∷ cs) o = absorb-IsOpen (feed ph c) cs (feed-IsOpen ph c o)

  pub piece_size-absorb : (ph : PieceHasher) (p : Str) → (absorb ph p).piece_size ≡ ph.piece_size
  unfolding absorb
  piece_size-absorb ph [] = refl
  piece_size-absorb ph (c ∷ cs) =
      piece_size-absorb (feed ph c) cs ∙ (unfold feed write_part in ground arith)

  room_fits :
      (ph : PieceHasher) (c : ℕ) (cs : Str)
      → IsOpen ph
      → (0 < room sha1 ph (c ∷ cs))
        × (room sha1 ph (c ∷ cs) ≤ length (c ∷ cs))
        × (ph.offset + room sha1 ph (c ∷ cs) ≤ ph.piece_size)
  room_fits ph c cs o = ground arith

  absorb-take :
      (ph : PieceHasher) (p : Str) (n : ℕ)
      → 0 < n
      → n ≤ length p
      → ph.offset + n ≤ ph.piece_size
      → absorb ph (take n p) ≡ write_part sha1 ph (take n p)
  absorb-take ph p zero z h f = absurd (omega arith)
  absorb-take ph [] (suc n) z h f = absurd (omega arith)
  absorb-take ph (c ∷ cs) (suc n) z h f =
      absorb-part c (take n cs) ph (omega (arith, length-take n cs (omega arith)))

  absorb-take-drop :
      (ph : PieceHasher) (p : Str) (n : ℕ)
      → 0 < n
      → n ≤ length p
      → ph.offset + n ≤ ph.piece_size
      → absorb (write_part sha1 ph (take n p)) (drop n p) ≡ absorb ph p
  absorb-take-drop ph p n z h f =
      ap (λ q. absorb q (drop n p)) (sym (absorb-take ph p n z h f))
      ∙ sym (absorb-append ph (take n p) (drop n p))
      ∙ ap (absorb ph) (take-append-drop n p)

  -- With a byte of fuel for each byte of the input, the loop ends and has done one pass over it.
  pub write_loop-absorb :
      (fuel : ℕ) (ph : PieceHasher) (written : ℕ) (p : Str)
      → IsOpen ph
      → length p ≤ fuel
      → write_loop sha1 fuel ph written p ≡ ok (absorb ph p, written + length p)
  unfolding write_loop
  write_loop-absorb fuel ph written [] o h = unfold absorb in ap (λ n. ok (ph, n)) (omega arith)
  write_loop-absorb zero ph written (c ∷ cs) o h = absurd (omega arith)
  write_loop-absorb (suc fuel) ph written (c ∷ cs) o h =
      let p : Str = c ∷ cs in
      let n : ℕ = room sha1 ph p in
      let (z, l, f) = room_fits ph c cs o in
      let taken : length (take n p) ≡ n = length-take n p l in
      let rest =
        write_loop-absorb fuel (write_part sha1 ph (take n p)) (written + n) (drop n p)
          (write_part-IsOpen ph (take n p) o (omega arith)) (omega (arith, length-drop n p)) in
      let count : written + n + length (drop n p) ≡ written + length p =
        omega (arith, length-drop n p) in
      rest ∙ λ i. ok (absorb-take-drop ph p n z l f i, count i)

  -- Write consumes its whole argument, whatever the room in the piece.
  pub write-absorb :
      (ph : PieceHasher) (p : Str) → IsOpen ph → write sha1 ph p ≡ ok (absorb ph p, length p)
  unfolding write
  write-absorb ph p o = simp o.live (
      write_loop-absorb (length p) ph 0 p o (omega arith) ∙ λ i.
      ok (absorb ph p, zero-add (length p) i))

  pub write_all-absorb :
      (ph : PieceHasher) (ps : List Str)
      → IsOpen ph
      → write_all sha1 ph ps ≡ ok (absorb ph (flatten ps))
  unfolding write_all
  write_all-absorb ph [] o = unfold absorb in refl
  write_all-absorb ph (p ∷ ps) o = rw (write-absorb ph p o) (
      write_all-absorb (absorb ph p) ps (absorb-IsOpen ph p o)
      ∙ ap ok (sym (absorb-append ph p (flatten ps))))
