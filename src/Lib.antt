-- ===== src/Lib.antt =====
-- The hali client: a program that fetches language models over HTTP and BitTorrent, keeps them in a
-- cache, seeds them, and tells its neighbours on the local network which ones it has.
--
-- The parts modelled here, and how they meet. A model has an id (Model), whose text comes from
-- users, from file names and from other machines, and whose directory lies in the cache. The cache
-- (Cache) keeps one metadata file per model, sealed by a digest over the identity, and evicts old
-- models. A file is downloaded from Hugging Face (Hf), which resumes and repeats, and its header is
-- checked (Gguf). A torrent is known by a v1 and a v2 infohash (Torrent/Identity), and its pieces
-- are hashed while they arrive (Torrent/PieceHasher) or again from the file (Torrent/Hybrid). The
-- engine (Torrent/Engine) runs the download and seed jobs on the torrent client. The daemon
-- collects transfer speeds (Torrent/Stats), keeps a log of events (Daemon/Activity) and an index of
-- what the neighbours announced (Daemon/Lan), which checks ids by Model and infohashes by Safepath.
-- Pull events wait in a queue until the registry takes them (Events). The settings come from a
-- commented JSON file (Config). A browser starts a pull by a hali:// URL (Protocol), and an
-- administrator bounds the settings (Policy). The daemon answers requests on these parts
-- (Daemon/Server). A pull (Pull) chooses the files of a repository, downloads them by a pool of
-- workers, each from the LAN or from Hugging Face, and polls the daemon until its jobs are done; at
-- the end the daemon seeds the files as a collection.
--
-- Files and code:
-- - Base and its children: Go's strings as lists of bytes, maps as association lists, results with
--   errors, paths, integers, stable sorts and rings of a fixed size, with their lemmas.
-- - Model.antt, Model/FromHf.antt, Model/Normalize.antt: internal/model/identity.go and
--   normalize.go (Parse is parse, StorePath store_path, FromHF from_hf, Normalize normalize).
--   Model/RoundTrip and Model/Safe have the proofs.
-- - Safepath.antt: internal/safepath/safepath.go (IsSafeFilename, IsValidInfohash and its v2).
-- - Protocol.antt: internal/protocol/parse.go (Parse, sanitizeRequestedFile, parseAllFlag).
-- - Policy.antt: internal/policy/policy.go and store.go (Load, Managed, LockedFields, Apply).
-- - Torrent/PieceHasher.antt: internal/torrent/piece_hasher.go; Torrent/Identity.antt: identity.go;
--   Torrent/Stats.antt: stats_collector.go (record is record_sample); Torrent/Magnet.antt:
--   magnet.go (buildMagnetFromInfoHash is build_magnet).
-- - Torrent/Engine.antt and its children: internal/torrent/engine.go. Engine.antt has the tables
--   and the short operations (CancelDownload, JobStatus, the count of active jobs),
--   Engine/Start.antt StartDownload, Engine/Run.antt its goroutine (advance is one stretch of it,
--   run the same on the engine's tables), Engine/Wait.antt the wait for the metadata,
--   Engine/Seeds.antt the seed jobs and Engine/Totals.antt TotalBytes. Jobs, Later, Keeps, Steps,
--   Tick and Limit have the proofs: Steps has the step relation of the download jobs.
-- - Torrent/Hybrid.antt: choosePieceSize and the piece layer of buildHybridSingleFileInfo.
-- - Hf.antt: internal/hf/client.go (Download is download, downloadOnce download_once);
--   Hf/Files.antt: GetFiles; Hf/Api.antt: doAPIRequestWithRetry. Hf/Copy, Hf/Complete, Hf/Retries
--   and Hf/Files/Sorted have the proofs.
-- - Gguf.antt: internal/gguf/validate.go. Config.antt and Config/Comments.antt:
--   internal/config/config.go (the values of the settings, stripJSONComments).
-- - Cache.antt: internal/cache/store.go and identity_seal.go (Save, SetInfohash, SetIdentity,
--   LoadMeta, List, EvictLRU).
-- - Events.antt: internal/events/worker.go, client.go, types.go and the files of queue.go (drain,
--   sendWithRetry, retryDelay, withPublisherAttribution, Send).
-- - Daemon/Pause.antt: pauseFor, resumeNow and applyEngineSettings of internal/daemon/server.go, as
--   steps of the pause lock's holders; Daemon/Activity.antt: internal/daemon/activity.go.
-- - Daemon/Lan.antt: the index of internal/daemon/lan.go; Daemon/Lan/Receive.antt: the checks of a
--   received message and lan_crypto.go; Daemon/Lan/Observed.antt: handleLanQuery of
--   internal/daemon/server.go and the functions that it calls on the hints of a model;
--   Daemon/Lan/Summary.antt: handleLanSeen and the summaries of the index in the same file.
-- - Daemon/Server.antt: the types of internal/daemon/protocol.go and the state of the server;
--   Daemon/Server/Handle.antt: handle of internal/daemon/server.go with the handlers of the status,
--   of events and of the LAN; Daemon/Server/Seed.antt and Job.antt: the handlers of seed and
--   download jobs (handleSeed is handle_seed, handleDownload handle_download and so on). Answers
--   has the proofs.
-- - Pull.antt and its children: cmd/pull.go. Pull.antt has the choice of the files (runPull,
--   runPullWithOptions, downloadByShardGroups, onlyGGUFFiles), Pull/Names.antt the ids and URLs,
--   Pull/Pool.antt downloadSelectedFiles with its workers, Pull/Disk.antt ensureEnoughDiskSpace,
--   Pull/Lan.antt tryLanDownload, Pull/One.antt downloadOneFile, Pull/Poll.antt FinishDownloadJob,
--   pollSeedJob and startSeedJobAndWait, and Pull/Collection.antt seedCollectionFromArtifacts with
--   its key. Order, Chosen, Shards, Steps, Collect, Stored, Revision, Ends, Daemon, Key and Reuse
--   have the proofs.
--
-- State is passed explicitly: an operation of a Go type takes the record of its state and returns
-- the new one with its result. The goroutines of the engine's download jobs are state machines
-- whose steps lie between two uses of the engine's lock, and they take turns with the callers in
-- any order; the pause lock's holders are steps too, and so are the workers of a pull, which take
-- and finish their files in any order. A request of the daemon is one step, whose goroutines, such
-- as the one of a seed job, run later. A new job has an id that is not in the table: ids are made
-- from the clock, and that two of them are equal is not modelled. Elsewhere locks are left out: a
-- modelled operation is one step, and the snapshot of the statistics, which takes its lock several
-- times, is taken at one instant. The clock's reading is an argument. Errors are values; which of
-- the errors of one kind it is, is kept where a caller can tell, and the texts of messages are left
-- out.
--
-- Functions of other packages are parameters: the torrent client and its Merkle hashes, SHA-1,
-- SHA-256, HMAC, base64, JSON, net/url, netip, the file system's failures, prompts and the registry
-- of Windows. What the code relies on is a hypothesis with a name, such as IsFaithful, and the
-- tests give a function for which it holds. Functions of package strings are defined in Base/Text;
-- those that depend on letters or spaces follow Go on ASCII text. Sorts are insertion sorts by the
-- code's comparisons. An HTTP server is a function from the attempt and the requested offset to the
-- response.
--
-- Bounds and fuel: int64 counters are integers without a bound, except where a product may overflow
-- and the wrap is written out (progress_of). The loop of PieceHasher.Write runs on fuel, of the
-- length of its input: each round takes at least one byte; so does the loop over a buffer in
-- Torrent/Hybrid. sendWithRetry has five attempts, Download and the API requests have four. The
-- wait for a torrent's metadata runs on fuel of one round per nanosecond of its longest duration,
-- since a round that does not end the wait takes time. The loops that poll the daemon run on fuel
-- too, one round per second, and give none while they still poll. Every other loop is over a list.
--
-- Not modelled: the commands but for the pull, of which the uploads of metadata, the prompts and
-- the progress output are left out; sockets and HTTP, the daemon's web interface and its start, the
-- torrent library and the bencoding of torrents, the file-system walks of safepath (IsUnderRoot and
-- Canonical are parameters), platform code and the exports to other programs, which are input and
-- output for the most part.
pub mod Base
pub mod Model
pub mod Safepath
pub mod Protocol
pub mod Policy
pub mod Torrent
pub mod Cache
pub mod Events
pub mod Daemon
pub mod Hf
pub mod Config
pub mod Gguf
pub mod Pull
