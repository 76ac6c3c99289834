-- ===== src/Torrent.antt =====
-- internal/torrent: the pure parts of the BitTorrent layer.
pub mod PieceHasher
pub mod Identity
pub mod Magnet
pub mod Stats
pub mod Engine
pub mod Hybrid
mod Tests
