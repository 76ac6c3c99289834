-- ===== src/Torrent/PieceHasher.antt =====
-- internal/torrent/piece_hasher.go: the streaming SHA-1 hasher of torrent pieces.
-- The digest function is a parameter; a `hash.Hash` is the bytes written to it since its last Reset,
-- and its Write, which is documented never to fail, appends to them.
pub mod Stream
pub mod Digests
use hali_client.Base.{
  ℕ, zero, suc, ◌+◌, ◌-◌, Bool, true, false, List, [], ◌∷◌, ◌++◌, Str, length, take, drop, ltb,
  ◌==◌, if◌then◌else◌, Result, ok, err, ◌>>=◌,
}
use hali_client.Base.Int.{ℤ, pos, leb_ℤ}

pub record PieceHasher : Type 0 where
  pub piece_size : ℕ
  pub offset : ℕ
  pub piece_index : ℕ
  pub hasher : Str
  pub pieces : Str
  pub finalized : Bool

-- Why a call does not return.
pub data Stop : Type 0 where
  panic out_of_fuel : Stop

pub size_of : ℤ → ℕ
size_of (pos n) = n
size_of _ = 0

unfoldable pub new : ℤ → Result Stop PieceHasher
unfolding size_of
new piece_size =
    if leb_ℤ piece_size (pos 0)
    then err panic
    else ok (record {
      piece_size = size_of piece_size;
      offset = 0;
      piece_index = 0;
      hasher = [];
      pieces = [];
      finalized = false;
    })

module _ (sha1 : Str → Str) where
  -- Append the digest of the piece in progress and start the next one.
  unfoldable pub end_piece : PieceHasher → PieceHasher
  end_piece ph = record ph {
    offset = 0;
    piece_index = ph.piece_index + 1;
    hasher = [];
    pieces = ph.pieces ++ sha1 ph.hasher;
  }

  -- The bytes `p[:take]`, which fit the piece in progress.
  unfoldable pub write_part : PieceHasher → Str → PieceHasher
  unfolding end_piece
  write_part ph part =
      let full = record ph { offset = ph.offset + length part; hasher = ph.hasher ++ part } in
      if full.offset == full.piece_size then end_piece full else full

  abbrev pub room : PieceHasher → Str → ℕ
  room ph p =
      let space = ph.piece_size - ph.offset in if ltb space (length p) then space else length p

  -- The loop of Write, on fuel.
  unfoldable pub write_loop : ℕ → PieceHasher → ℕ → Str → Result Stop (PieceHasher × ℕ)
  unfolding write_part
  write_loop fuel ph written [] = ok (ph, written)
  write_loop zero ph written (c ∷ cs) = err out_of_fuel
  write_loop (suc fuel) ph written (c ∷ cs) =
      let n = room ph (c ∷ cs) in
      write_loop fuel (write_part ph (take n (c ∷ cs))) (written + n) (drop n (c ∷ cs))

  unfoldable pub write : PieceHasher → Str → Result Stop (PieceHasher × ℕ)
  unfolding write_loop
  write ph p = if ph.finalized then err panic else write_loop (length p) ph 0 p

  unfoldable pub finalize : PieceHasher → Result Stop (PieceHasher × Str)
  unfolding end_piece
  finalize ph =
      if ph.finalized
      then err panic
      else let closed = record ph { finalized = true } in
        let flushed = if ltb 0 ph.offset then end_piece closed else closed in
        ok (flushed, flushed.pieces)

-- PieceCount
abbrev pub piece_count : PieceHasher → ℕ
piece_count ph = ph.piece_index

module _ (sha1 : Str → Str) where
  -- A download: the chunks that arrive are written one after the other.
  unfoldable pub write_all : PieceHasher → List Str → Result Stop PieceHasher
  unfolding write
  write_all ph [] = ok ph
  write_all ph (p ∷ ps) = do r ← write sha1 ph p; write_all r.0 ps
