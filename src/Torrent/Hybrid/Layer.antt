-- ===== src/Torrent/Hybrid/Layer.antt =====
-- The piece layer by its definition: the hashes of the file's pieces.
use hali_client.Base.{
  ℕ, zero, suc, ◌+◌, ◌-◌, ◌≤◌, ◌<◌, ◌≡◌, refl, sym, ap, ◌∙◌, true, false, not, ◌&&◌, List, [], ◌∷◌,
  ◌++◌, append_assoc, append-nil, Str, map, All, length, length-append, length-take, length-drop,
  take, drop, take-append-drop, take-length-append, drop-length-append, ltb, ◌==◌, if◌then◌else◌,
  Bool-cases, inl, inr, arith, subst, ==_iff,
}
use hali_client.Torrent.PieceHasher.Digests.{pieces_of, pieces_of-step, pieces_of-last}
use hali_client.Torrent.PieceHasher.Stream.{flatten}
use hali_client.Torrent.Hybrid.{
  LayerState, new_layer, end_piece, chunk_of, write_chunk, write_buffer, write_buffers,
  layer_hashes,
}

module _ (piece_hash : Str → Str) (pl : ℕ) where
  -- The state behind the bytes `done`: whole pieces, and the piece in progress.
  record IsBehind (done : Str) (s : LayerState) : Type 0 where
    whole : List Str
    sizes : All (λ p. length p ≡ pl) whole
    content : done ≡ flatten whole ++ s.hasher
    hashed : s.hashes ≡ map piece_hash whole
    room : s.remaining + length s.hasher ≡ pl
    still_open : 0 < s.remaining

  pieces-whole :
      (fuel : ℕ) (whole : List Str) (tail : Str)
      → 0 < pl
      → All (λ p. length p ≡ pl) whole
      → length tail < pl
      → length (flatten whole ++ tail) ≤ fuel
      → pieces_of fuel pl (flatten whole ++ tail)
        ≡ whole ++ (if ltb 0 (length tail) then tail ∷ [] else [])
  pieces-whole fuel [] tail z a t f = pieces_of-last fuel pl tail t f
  pieces-whole zero (p ∷ ps) tail z (e, a) t f =
      absurd (omega (arith, length-append (p ++ flatten ps) tail, length-append p (flatten ps)))
  pieces-whole (suc fuel) (p ∷ ps) tail z (e, a) t f =
      let w = flatten ps ++ tail in
      let l : length (p ++ w) ≡ length p + length w = length-append p w in
      let q : flatten (p ∷ ps) ++ tail ≡ p ++ w = append_assoc p (flatten ps) tail in
      let b : length (p ++ w) ≤ suc fuel = subst (λ x. length x ≤ suc fuel) q f in
      let size : pl ≡ length p + 0 = omega (arith, e) in
      let first : take pl (p ++ w) ≡ p = rw size (take-length-append p w 0 ∙ append-nil p) in
      let rest : drop pl (p ++ w) ≡ w = rw size (drop-length-append p w 0) in
      ap (pieces_of (suc fuel) pl) q
      ∙ pieces_of-step fuel pl (p ++ w) (omega (arith, l, e))
      ∙ (λ i. first i ∷ pieces_of fuel pl (rest i))
      ∙ ap (◌∷◌ p) (pieces-whole fuel ps tail z a t (omega (arith, l, e, b)))

  flatten_last : (ps : List Str) (p : Str) → flatten (ps ++ p ∷ []) ≡ flatten ps ++ p
  flatten_last [] p = append-nil p
  flatten_last (x ∷ xs) p =
      ap (λ w. x ++ w) (flatten_last xs p) ∙ sym (append_assoc x (flatten xs) p)

  map_last :
      (ps : List Str) (p : Str)
      → map piece_hash (ps ++ p ∷ []) ≡ map piece_hash ps ++ piece_hash p ∷ []
  map_last [] p = refl
  map_last (x ∷ xs) p = ap (◌∷◌ (piece_hash x)) (map_last xs p)

  All-last :
      (ps : List Str) (p : Str)
      → All (λ x. length x ≡ pl) ps
      → length p ≡ pl
      → All (λ x. length x ≡ pl) (ps ++ p ∷ [])
  All-last [] p a e = (e, tt)
  All-last (x ∷ xs) p (b, a) e = (b, All-last xs p a e)

  chunk-IsBehind :
      (done buf : Str) (n : ℕ) (s : LayerState)
      → 0 < pl
      → n ≤ s.remaining
      → n ≤ length buf
      → IsBehind done s
      → let written = write_chunk piece_hash pl n buf s in
        IsBehind
          (done ++ take n buf)
          (if written.remaining == 0 then end_piece piece_hash pl written else written)
  chunk-IsBehind done buf n s z r l b =
      let written = write_chunk piece_hash pl n buf s in
      let size : length (s.hasher ++ take n buf) ≡ length s.hasher + n =
        length-append s.hasher (take n buf) ∙ ap (λ k. length s.hasher + k) (length-take n buf l) in
      let all_bytes : done ++ take n buf ≡ flatten b.whole ++ (s.hasher ++ take n buf) =
        ap (λ w. w ++ take n buf) b.content
        ∙ append_assoc (flatten b.whole) s.hasher (take n buf) in
      elim (Bool-cases (written.remaining == 0)) [
        | inl full ↦
            let gone : s.remaining - n ≡ 0 = (==_iff (s.remaining - n) 0).0 full in
            rw full (record {
              whole = b.whole ++ (s.hasher ++ take n buf) ∷ [];
              sizes =
                  All-last b.whole (s.hasher ++ take n buf) b.sizes
                    (omega (arith, size, b.room, gone));
              content =
                  all_bytes
                  ∙ sym (flatten_last b.whole (s.hasher ++ take n buf))
                  ∙ sym (append-nil (flatten (b.whole ++ (s.hasher ++ take n buf) ∷ [])));
              hashed =
                  ap (λ h. h ++ piece_hash (s.hasher ++ take n buf) ∷ []) b.hashed
                  ∙ sym (map_last b.whole (s.hasher ++ take n buf));
              room = omega arith;
              still_open = z;
            })
        | inr partial ↦ rw partial (record {
          whole = b.whole;
          sizes = b.sizes;
          content = all_bytes;
          hashed = b.hashed;
          room = omega (arith, size, b.room);
          still_open = ground (arith, partial);
        })
      ]

  write_buffer-IsBehind :
      (fuel : ℕ) (done buf : Str) (s : LayerState)
      → 0 < pl
      → length buf ≤ fuel
      → IsBehind done s
      → IsBehind (done ++ buf) (write_buffer piece_hash pl fuel buf s)
  unfolding write_buffer
  write_buffer-IsBehind fuel done [] s z f b = subst (λ w. IsBehind w s) (sym (append-nil done)) b
  write_buffer-IsBehind zero done (c ∷ cs) s z f b = absurd (omega arith)
  write_buffer-IsBehind (suc fuel) done (c ∷ cs) s z f b =
      let buf : Str = c ∷ cs in
      let n = chunk_of piece_hash pl s buf in
      let some_bytes : 0 < n = ground (arith, b.still_open) in
      let in_piece : n ≤ s.remaining = ground arith in
      let in_buffer : n ≤ length buf = ground arith in
      let whole : (done ++ take n buf) ++ drop n buf ≡ done ++ buf =
        append_assoc done (take n buf) (drop n buf)
        ∙ ap (λ w. done ++ w) (take-append-drop n buf) in
      let shorter : length (drop n buf) ≤ fuel = omega (arith, length-drop n buf, some_bytes, f) in
      let written = write_chunk piece_hash pl n buf s in
      subst
        (λ w. IsBehind w (
          write_buffer piece_hash pl fuel (drop n buf)
            (if written.remaining == 0 then end_piece piece_hash pl written else written)))
        whole
        (write_buffer-IsBehind fuel (done ++ take n buf) (drop n buf)
          (if written.remaining == 0 then end_piece piece_hash pl written else written) z shorter
          (chunk-IsBehind done buf n s z in_piece in_buffer b))

  write_buffers-IsBehind :
      (bufs : List Str) (done : Str) (s : LayerState)
      → 0 < pl
      → IsBehind done s
      → IsBehind (done ++ flatten bufs) (write_buffers piece_hash pl bufs s)
  unfolding write_buffers
  write_buffers-IsBehind [] done s z b = subst (λ w. IsBehind w s) (sym (append-nil done)) b
  write_buffers-IsBehind (buf ∷ bufs) done s z b =
      let next = write_buffer piece_hash pl (length buf) buf s in
      subst (λ w. IsBehind w (write_buffers piece_hash pl bufs next))
        (append_assoc done buf (flatten bufs))
        (write_buffers-IsBehind bufs (done ++ buf) next z
          (write_buffer-IsBehind (length buf) done buf s z (omega arith) b))

  new_layer-IsBehind : 0 < pl → IsBehind [] (new_layer piece_hash pl)
  new_layer-IsBehind z = record {
    whole = [];
    sizes = tt;
    content = refl;
    hashed = refl;
    room = omega arith;
    still_open = z;
  }

  -- The hashes when the piece in progress is closed, if it has any bytes
  closed :
      (done : Str) (s : LayerState)
      → 0 < pl
      → IsBehind done s
      → (if ltb 0 (length done) && not (s.remaining == pl)
          then s.hashes ++ piece_hash s.hasher ∷ []
          else s.hashes)
        ≡ map piece_hash (pieces_of (length done) pl done)
  closed done s z b =
      let size : length done ≡ length (flatten b.whole) + length s.hasher =
        ap length b.content ∙ length-append (flatten b.whole) s.hasher in
      let cut : pieces_of (length done) pl done
          ≡ b.whole ++ (if ltb 0 (length s.hasher) then s.hasher ∷ [] else []) =
        ap (pieces_of (length done) pl) b.content
        ∙ pieces-whole (length done) b.whole s.hasher z b.sizes
            (omega (arith, b.room, b.still_open))
            (omega (arith, size, length-append (flatten b.whole) s.hasher)) in
      elim (Bool-cases (ltb 0 (length s.hasher))) [
        | inl more ↦
            let test : (ltb 0 (length done) && not (s.remaining == pl)) ≡ true =
              ground (arith, size, b.room, more) in
            let pieces : pieces_of (length done) pl done ≡ b.whole ++ s.hasher ∷ [] =
              rw more at cut in
            rw test (
              ap (λ h. h ++ piece_hash s.hasher ∷ []) b.hashed
              ∙ sym (map_last b.whole s.hasher)
              ∙ ap (map piece_hash) (sym pieces))
        | inr empty ↦
            let test : (ltb 0 (length done) && not (s.remaining == pl)) ≡ false =
              ground (arith, b.room, empty) in
            let pieces : pieces_of (length done) pl done ≡ b.whole ++ [] = rw empty at cut in
            rw test (b.hashed ∙ ap (map piece_hash) (sym (append-nil b.whole) ∙ sym pieces))
      ]

  -- However the reads of a file split it, the hashes of its v2 piece layer are those of the pieces that
  -- its v1 hashes are of: the file cut at multiples of the piece length, the last piece shorter.
  pub layer_hashes-pieces_of :
      (bufs : List Str)
      → 0 < pl
      → layer_hashes piece_hash pl (length (flatten bufs)) bufs
        ≡ map piece_hash (pieces_of (length (flatten bufs)) pl (flatten bufs))
  unfolding layer_hashes
  layer_hashes-pieces_of bufs z =
      closed (flatten bufs) (write_buffers piece_hash pl bufs (new_layer piece_hash pl)) z
        (write_buffers-IsBehind bufs [] (new_layer piece_hash pl) z (new_layer-IsBehind z))
