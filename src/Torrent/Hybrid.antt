-- ===== src/Torrent/Hybrid.antt =====
-- internal/torrent/engine.go: the sizes of pieces, and the v2 piece layer of a hybrid torrent, from the
-- reads of its file. The Merkle hashes of the torrent library are parameters.
pub mod Layer
mod Tests
use hali_client.Base.{
  ℕ, zero, suc, ◌+◌, ◌-◌, ◌*◌, ◌^◌, Bool, List, [], ◌∷◌, ◌++◌, Str, length, take, drop, ltb, ◌==◌,
  not, ◌&&◌, if◌then◌else◌,
}

abbrev mib : ℕ
mib = 2 ^ 20

abbrev gib : ℕ
gib = 2 ^ 30

-- choosePieceSize, for a size that is not negative
unfoldable pub choose_piece_size : ℕ → ℕ
choose_piece_size file_bytes =
    if ltb file_bytes (8 * gib)
    then 2 * mib
    else if ltb file_bytes (32 * gib)
    then 4 * mib
    else if ltb file_bytes (80 * gib)
    then 8 * mib
    else 16 * mib

-- The variables of the loop: the bytes that the piece's hash has been given, what the piece still
-- takes, and the hashes of the pieces so far
pub record LayerState : Type 0 where
  pub hasher : Str
  pub remaining : ℕ
  pub hashes : List Str

module _ (piece_hash : Str → Str) (pl : ℕ) where
  abbrev pub new_layer : LayerState
  new_layer = record { hasher = []; remaining = pl; hashes = [] }

  abbrev pub end_piece : LayerState → LayerState
  end_piece s = record {
    hasher = [];
    remaining = pl;
    hashes = s.hashes ++ piece_hash s.hasher ∷ [];
  }

  abbrev pub chunk_of : LayerState → Str → ℕ
  chunk_of s buf = if ltb s.remaining (length buf) then s.remaining else length buf

  abbrev pub write_chunk : ℕ → Str → LayerState → LayerState
  write_chunk n buf s = record s { hasher = s.hasher ++ take n buf; remaining = s.remaining - n }

  -- One read of the file, with fuel for its chunks
  unfoldable pub write_buffer : ℕ → Str → LayerState → LayerState
  write_buffer fuel [] s = s
  write_buffer zero (c ∷ cs) s = s
  write_buffer (suc fuel) (c ∷ cs) s =
      let n = chunk_of s (c ∷ cs) in
      let written = write_chunk n (c ∷ cs) s in
      write_buffer fuel (drop n (c ∷ cs))
        (if written.remaining == 0 then end_piece written else written)

  -- The reads up to the end of the file
  unfoldable pub write_buffers : List Str → LayerState → LayerState
  write_buffers [] s = s
  write_buffers (buf ∷ bufs) s = write_buffers bufs (write_buffer (length buf) buf s)

  -- pieceLayerHashes behind the loop, of a file of the given length
  unfoldable pub layer_hashes : ℕ → List Str → List Str
  layer_hashes size bufs =
      let s = write_buffers bufs new_layer in
      if ltb 0 size && not (s.remaining == pl)
      then s.hashes ++ piece_hash s.hasher ∷ []
      else s.hashes

-- The root of the file, and the layer that is kept under it if the file has more than one piece
unfoldable pub piece_layers :
    (Str → Str)
    → (List Str → Str)
    → (List Str → Str)
    → ℕ
    → ℕ
    → List Str
    → Str × List (Str × List Str)
unfolding layer_hashes
piece_layers piece_hash root_with_pad file_hash pl size bufs =
    let hashes = layer_hashes piece_hash pl size bufs in
    let root = root_with_pad hashes in
    if ltb pl size then (root, (root, hashes) ∷ []) else (file_hash bufs, [])
