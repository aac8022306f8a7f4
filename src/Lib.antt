-- ===== src/Lib.antt =====
-- A file sharing system: two trackers that hold the users, the groups and the lists of shared files,
-- and peers that call a tracker and take pieces of files from each other.
--
-- A peer sends one line to a tracker (peer/peer.cpp, over common/tls.cpp); `TrackerKernel` of
-- tracker/tracker.cpp takes it apart and calls one handler; the handler reads the tables in from the
-- files under `.all_files` (`FetchDetails`), changes files, and copies what it changed to the other
-- tracker (`Sync` of tracker/trackersync.cpp, received by `SyncRecv`); the reply goes back.
--
-- - Common: texts as lists of character codes, `split` and the words of a `stringstream`
--   (Common/Strings), maps and sets (Common/Containers, Common/Sets), lists (Common/Lists).
-- - Wire: common/tls.cpp: the loops `SSLWriteAll` and `SSLReadAll`, messages (Wire/Framing), bytes
--   with no length (Wire/Raw), contexts and connections (Wire/Contexts).
-- - Threads: the thread slots of `TrackerServer`, `ClientServer` (Threads/Servers) and `GetChunks`
--   (Peer/Download/Threads), as the list of the calls that their loops make.
-- - Start: the arguments and certificates of the two programs, and the console of the tracker.
-- - Tracker/State: the tracker's state, files included, as one record, and the actions on it. An
--   action has no result where the source is undefined behaviour: it reads a field past the end of a
--   split line, reads through a null `FILE*`, or unlocks a mutex that is not held. Every file that is
--   written can be opened; the names for which that is so are in Tracker/Safety/Names.
-- - Tracker/Fetch, Files, Accounts, Groups, Sharing, Downloads: the handlers of tracker/tracker.cpp
--   under their names in snake case (`UserLogin` is `user_login`, `SendSHA` is `send_sha`), each with
--   all its guards, writes and calls of `Sync`.
-- - Tracker/Dispatch: `TrackerKernel`, from the line to the reply.
-- - Tracker/Safety: which files are safe, that every handler ends on them and leaves them safe, by
--   rules for the actions (Tracker/Safety/Rules); the life of a tracker (Tracker/Safety/Sessions).
-- - Sync: tracker/trackersync.cpp, down to the blocks that `Sync` writes and the reads that receive
--   them; the start of a tracker beside the other (Sync/Startup), and the tables of a tracker that
--   received a file (Sync/Stale).
-- - Peer: the calls that a peer makes to the tracker, of peer/peer.cpp, peer/peerserver.cpp and
--   peer/peerdownload.cpp, and how they fit `TrackerKernel`; the loop of `main` over the commands of
--   the user (Peer/Menu); the hashes of a file and of its pieces (Peer/Pieces); the choice of a seeder
--   for each piece (Peer/Choice).
-- - Peer/Server: `GetChunkInfo`, `Conv`, `TransferFunction` and `ClientServerKernel` of
--   peer/peerserver.cpp, which answer another peer.
-- - Peer/Download: `CalcChunk`, `GetChunks`, `ServerPath`, `DownloadKernel` and `DownloadFile` of
--   peer/peerdownload.cpp, which ask it; Peer/Files: the file that the threads of a download write to.
--   Common/Decimal: `atoi` and `to_string`.
--
-- Handlers run one after the other: the state between two commands is what a theorem speaks of.
-- Tracker/Groups/Races has two threads in `GroupCreate`, with a step for what happens under one lock or
-- between two; the steps begin and end in any order, and those that clash have no result; the steps of one
-- thread alone are the handler (Tracker/Groups/Races/Alone).
-- Of the threads of a download each `fwrite` is a step, and the steps come in any order
-- (Peer/Download/Assembly). Sockets, OpenSSL, `RAND_bytes`
-- and the digests are parameters; what is asked of OpenSSL is that reads give the written bytes in order,
-- for lengths that are a positive `int` (Wire/Loops), and one TLS record at a time (Sync/Exchange). Of
-- `std::sort` nothing is asked for seeders that `my_comp` does not order strictly
-- (Peer/Download/Decided), except where a theorem says so (Peer/Download/Fewest). An unordered map is a list in the
-- order of its insertions, so a listing of the groups has that order here. The loops of
-- common/tls.cpp and of `Sync` are on fuel; each round takes at least a byte, so the length of the
-- text is enough, which the theorems about them show. `SyncRecv` loops until the end mark comes;
-- where it does not come there is no result. `DownloadKernel` has no bound of its own: its theorems say
-- after how many rounds it ends, or that it does not.
-- Not modelled: `CheckDir`, which makes the directory of the files, `SendMessage`, which nothing
-- calls, `TLSGlobalInit`, the interleavings of other handlers than `GroupCreate`, the end of a
-- peer whose tracker cannot be reached when `UpdateServer` tells it of a download, and the debug output.
pub mod Common
pub mod Tracker
pub mod Sync
pub mod Wire
pub mod Threads
pub mod Start
pub mod Peer
