-- ===== src/Torrent/Hybrid/Tests.antt =====
-- Five bytes in two reads, in pieces of two.
use hali_client.Base.{◌≡◌, arith, [], ◌∷◌, List, Str, map}
use hali_client.Torrent.PieceHasher.Digests.{pieces_of}
use hali_client.Torrent.Hybrid.{layer_hashes}
use hali_client.Torrent.Hybrid.Layer.{layer_hashes-pieces_of}

abbrev itself : Str → Str
itself w = w

abbrev reads : List Str
reads = (1 ∷ 2 ∷ 3 ∷ []) ∷ (4 ∷ 5 ∷ []) ∷ []

layer_hashes-pieces_of_example :
    layer_hashes itself 2 5 reads ≡ map itself (pieces_of 5 2 (1 ∷ 2 ∷ 3 ∷ 4 ∷ 5 ∷ []))
layer_hashes-pieces_of_example = layer_hashes-pieces_of itself 2 reads (omega arith)
