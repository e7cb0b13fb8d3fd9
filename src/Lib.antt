-- ===== src/Lib.antt =====
-- A peer-to-peer file sharing system in C++: a file is split into numbered chunk files; peers serve
-- chunks to each other over TCP with text headers; a client downloads the chunks of a file from
-- several peers at once, checks each by its SHA-256, merges them and checks the result.
--
-- Parts and files (paths from the repository's root):
-- * Base (Tests, Lists, Text, Decimal, Stream, Search): shared names; bytes and strings as lists
--   of numbers; decimal numbers with `stoll` and `to_string`; the parts of string streams that
--   the code uses; `std::string::find`.
-- * Disk (Blocks): files by path, permissions to read, write and grow, and reading in pieces.
--   It stands for `std::ifstream`, `std::ofstream` and `std::filesystem`.
-- * Protocol (RoundTrip, Bounds): src/protocol/protocol.cpp, src/protocol/protocolParser.cpp.
-- * Scheduler (Claims, Abstract, States, Refinement): src/peer/chunkScheduler.cpp. Each method
--   holds the mutex for its whole body and is one function on the state. Abstract is a plain
--   description of a scheduler, a list with one state for each chunk.
-- * Status (Tables): the chunk statuses of include/peer/peer.h and src/peer/peer.cpp.
-- * Workers (Holding, Completion, Starvation, Termination): the worker tasks of
--   `downloadFileFromMultiplePeers` in src/peer/peer.cpp. A state holds the scheduler, the
--   statuses and where each worker stands; a step is one critical section of one worker, and a
--   schedule is any sequence of steps, with the outcome of each request as part of the step.
-- * ThreadPool (Counts, Threads, Heard, Waiting, Logs, Joins): src/peer/threadPool.cpp,
--   include/peer/threadPool.h. A step is one stretch under the mutex or one wake-up, and a
--   schedule is any sequence of steps. The state has three logs that the code does not keep: the
--   tasks added, started and finished.
-- * Chunks (Paths, Split, Merge): src/file/chunkManager.cpp.
-- * Hash (Digest, Hex): src/file/hashUtils.cpp, with OpenSSL's digest calls as the parameter `Evp`
--   and what its manual says of them as `EvpLaws`.
-- * Metadata (Verify): src/file/metadataManager.cpp; the global store is an argument and a result.
-- * Socket (Sending, Receiving): `sendAll` of src/network/socketUtils.cpp, and `send` and `recv` as
--   data: what arrives piece by piece, and how many bytes each `send` takes.
-- * Peer (FileId): the records of include/peer/peer.h, and `isSafeFileId`, `findServableChunkPath`,
--   `localChunkAlreadyExists` and `isChunkPresentAndValid` of src/peer/peer.cpp.
-- * Transfer (Header, Receive, Deliver, Serve, Handle): `readChunkHeader`, `receiveChunkData`,
--   `sendChunkFileInBuffers`, `serveRequestedChunk` and `handlePeerRequest` of src/peer/peer.cpp.
-- * Request (Answer, EndToEnd, Retry): `requestChunkFromPeer` and `requestChunkFromAnyPeer` of
--   src/peer/peer.cpp; the calls of the tracker and of the peers are recorded in order.
-- * StateFile (RoundTrip): `loadDownloadState`, `saveDownloadState` and `verifyAllChunksComplete`.
-- * UsablePeers (Address, Distinct): `filterUsablePeers`.
-- * Download (Verified): `downloadFileFromPeer`, and `downloadFileFromMultiplePeers` after the wait
--   for its workers. These three are in src/peer/peer.cpp as well.
-- * Tracker (Fields, Listing, Answer, Peers, SharedFiles): the calls of the tracker's HTTP
--   service in src/peer/peer.cpp, with their request texts, the reading of its answers, and the
--   scan for the shared files that are registered. What the directories hold is an input.
-- * FileTransfer (Sending, Whole): src/file/fileTransfer.cpp.
-- * Descriptors (Balance): `createServerSocket`, `acceptClient`, `connectToServer`, `closeSocket`
--   and the setting of timeouts of src/network/socketUtils.cpp, and `connectToPeer` of
--   src/peer/peer.cpp. Whether each call of the system succeeds is an input; the state is the
--   open descriptors and the calls of `close` on others.
-- * PeerServer (Closing, Serving, MainThread, Returning, Accounts): `startPeerServer` and
--   `ensurePeerStorageLayout` of src/peer/peer.cpp. The main thread and the threads of the modelled
--   ThreadPool take turns in the order of a schedule; a task handles its request and closes its
--   connection at the turn that ends it, and the destructor of the pool joins the threads.
-- * Programs (Ends, Copy, First): `main` of src/client.cpp, src/server.cpp, client.cpp and
--   server.cpp.
-- * Parallel (Refinement, Whole): the whole of `downloadFileFromMultiplePeers` of
--   src/peer/peer.cpp, from its first tests to its result, with the disk, the saved state and the
--   requests of the tasks. A request is one step, since the files that it writes are those of its
--   own chunk. Refinement relates it to Workers, whose theorems it takes over.
-- * Examples (Messages, Downloads, Files, Transfers, Delivery, States, Pool, Services, Copies,
--   Parallel): concrete inputs.
--
-- Names keep the source's words in snake_case. A result of -1 or false with an output argument is
-- `none`. Where a function changes files or a connection, the new state is part of its result.
--
-- Bounds and fuel: numbers that the code keeps in range by a test are natural numbers, and a
-- number that a caller may pass as negative is an integer. Loops over a counter recur on the
-- rounds left. Reading in pieces recurs on the length of the contents. `read_chunk_header` has
-- fuel for 8193 rounds: each round without a line adds a byte or more, and above 8192 bytes the
-- loop stops. `receive_loop` has the number of missing bytes as fuel: each round takes one or
-- more. Loading a state file has the length of the file as fuel: each round reads a byte or more.
-- The digits of a number are produced with fuel above the number. `receive_loop` of Tracker and
-- `receive_rest` have one more than the bytes and pieces that are still to come: each round takes
-- one of these. `read_peers` has the length of the body: each round passes over a character or
-- more.
--
-- Not modelled: splitting a file that is itself one of the chunk files written meanwhile, since
-- the input is read as it is at the start, and a file of 2^31 chunks or more, since chunk numbers
-- do not wrap; what the number of a closed descriptor stands for when the system gives it out
-- again, since a descriptor is known by the call that gave it; when a timeout of a socket
-- strikes, beyond that a call fails; the directories that `create_directories` makes, beyond
-- whether it succeeds; removing a file is taken to succeed, and a write that is reported as done
-- to be in the file; output to the console but for the totals of the programs; the workers of a
-- download are a list of their own and not yet tasks of the modelled pool; the tests with a
-- `main`; the service in Go.
pub mod Base
pub mod Protocol
pub mod Scheduler
pub mod Status
pub mod Workers
pub mod Disk
pub mod Chunks
pub mod Hash
pub mod Metadata
pub mod Socket
pub mod Peer
pub mod Transfer
pub mod Request
pub mod StateFile
pub mod UsablePeers
pub mod Download
pub mod ThreadPool
pub mod Tracker
pub mod FileTransfer
pub mod Descriptors
pub mod PeerServer
pub mod Programs
pub mod Parallel
pub mod Examples
