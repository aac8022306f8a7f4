-- ===== src/Peer/Download.antt =====
-- The download of a file: `CalcChunk`, `ServerPath`, `DownloadKernel`, `GetChunks` and `DownloadFile` of
-- peer/peerdownload.cpp. The trackers, the other peers and SHA-1 are parameters, and so is the order
-- in which `std::sort` leaves the seeders: what is asked of it stands at each theorem. The tracker that
-- `UpdateServer` and `UpdateServerComplete` tell of a download is taken to be there; the program exits
-- where their `connect` fails.
pub mod Writes
pub mod Assembly
pub mod Arrival
pub mod Assigned
pub mod Asked
pub mod Decided
pub mod Delivery
pub mod Fewest
pub mod Limits
pub mod Numbers
pub mod Outcome
pub mod Requests
pub mod Retries
pub mod Seeders
pub mod Start
pub mod Threads
mod Tests
use torrent_based_file_shari.Common.{
  ⊤, ℕ, zero, suc, ◌+◌, ◌-◌, ◌*◌, ◌/◌, ◌%◌, ◌^◌, ltb, leb, ◌==◌, Bool, true, false, Option, none,
  some, List, [], ◌∷◌, ◌++◌, if◌then◌else◌, length, take, get_elem?, Text, codes, eq_text, split,
  Table, lookup, insert,
}
use torrent_based_file_shari.Common.Decimal.{ℤ, pos, negsuc, to_string, atoi}
use torrent_based_file_shari.Tracker.Fetch.{bind}
use torrent_based_file_shari.Tracker.Downloads.{or_empty}
use torrent_based_file_shari.Peer.Client.{
  update_server, update_server_complete, give_sha_line, give_seeders_line, give_details_line,
}
use torrent_based_file_shari.Peer.Pieces.{chunk_size, get_file_hash_small, match_sha}
use torrent_based_file_shari.Peer.Choice.{Cell, populate, decide}
use torrent_based_file_shari.Peer.Choice.Holders.{blank, blank_rows}
use torrent_based_file_shari.Peer.Files.{fwrite_at}
use torrent_based_file_shari.Peer.Server.{drop_last}

-- `struct FILEDATA`
pub record FileData : Type 0 where
  pub name : Text
  pub path : Text
  pub hash : Text
  pub size : Text
  pub groupname : Text
  pub serverpath : Text
  pub username : Text
  pub tracker_ip : Text
  pub tracker_port : ℤ
  pub seeders : List Text
  pub details : Table (Text × Text)

-- `details[seeder]`
abbrev pub address : FileData → Text → Text × Text
address meta seeder = elim (lookup seeder meta.details) [ none ↦ ([], []) | some a ↦ a ]

abbrev pub count_from : ℕ → ℕ → List ℕ
count_from i zero = []
count_from i (suc n) = i ∷ count_from (suc i) n

-- `atoi(x)+1`, as the column of a matrix.
abbrev pub column_of : ℤ → Option ℕ
column_of (pos n) = some (suc n)
column_of (negsuc zero) = some 0
column_of (negsuc (suc n)) = none

unfoldable pub columns_of : List Text → Option (List ℕ)
columns_of [] = some []
columns_of (x ∷ xs) =
    bind (atoi x) λ n. bind (column_of n) λ c. bind (columns_of xs) λ cs. some (c ∷ cs)

-- The pieces that a seeder's reply names, counted from 1, and whether it has not all of them.
unfoldable pub offer : ℕ → Text → Option (List ℕ × Bool)
offer nchunks reply =
    if eq_text reply (codes "-1")
    then some (count_from 1 nchunks, false)
    else if eq_text reply (codes "-2")
    then some ([], true)
    else bind (columns_of (split reply 32)) λ cs. some (cs, true)

abbrev pub chunk_numbers_line : FileData → Text
chunk_numbers_line meta = codes "chunk_numbers " ++ meta.name

module _ (ask_peer : Text × Text → Text → Option Text) (meta : FileData) where
  -- The loop of `CalcChunk` over the seeders, from the index `i` on. A seeder that cannot be reached
  -- ends the program: `none`.
  unfoldable pub offers_of : ℕ → ℕ → List Text → Option (List (ℕ × List ℕ) × Bool)
  offers_of nchunks i [] = some ([], false)
  offers_of nchunks i (s ∷ ss) = bind (ask_peer (address meta s) (chunk_numbers_line meta)) λ reply.
      bind (offer nchunks reply) λ (cs, partial).
        bind (offers_of nchunks (suc i) ss)
          λ (v, flag). some ((i, cs) ∷ v, (if partial then true else flag))

  unfoldable pub calc_chunk :
      (List (ℕ × List ℕ) → List (ℕ × List ℕ)) → ℕ → Option (Bool × List Cell)
  calc_chunk sort nchunks = bind (offers_of nchunks 0 meta.seeders) λ (v, flag).
      bind (populate (blank_rows nchunks v) (sort v)) λ matrix.
        bind (get_elem? matrix 0)
          λ row. bind (decide matrix (blank nchunks)) λ chunks. some (flag, chunks)

-- The number of pieces of a file.
abbrev pub nchunks_of : ℕ → ℕ
nchunks_of size = size / chunk_size + (if size % chunk_size == 0 then 0 else 1)

-- The loop of `GetChunks`: the seeders in turn, or the choice of `CalcChunk`.
unfoldable pub in_turn : ℕ → ℕ → ℕ → List Cell
in_turn nseeder ncounter zero = []
in_turn nseeder ncounter (suc n) = some ncounter ∷ in_turn nseeder ((ncounter + 1) % nseeder) n

abbrev pub seeder_nums : ℕ → ℕ → Bool × List Cell → List Cell
seeder_nums nseeder nchunks (true, chunks) = chunks
seeder_nums nseeder nchunks (false, chunks) = in_turn nseeder 0 nchunks

-- `nchunks` of `GetChunks`. Of a negative size `/` cuts off toward 0: one above -524288 gives 1, the next ones
-- down give 0, and the others a negative number, of which `CalcChunk` makes a vector, which throws.
unfoldable pub chunk_count : ℤ → Option ℕ
chunk_count (pos n) = some (nchunks_of n)
chunk_count (negsuc n) =
    let quotient = suc n / chunk_size in
    let rest = suc n % chunk_size in
    if quotient == 0
    then some 1
    else if quotient == 1
    then if rest == 0 then none else some 0
    else none

-- `GetChunks`: the seeder that each piece, from the first on, is first asked of.
unfoldable pub get_chunks :
    (Text × Text → Text → Option Text)
    → (List (ℕ × List ℕ) → List (ℕ × List ℕ))
    → FileData
    → Option (List Cell)
get_chunks ask_peer sort meta = bind (atoi meta.size) λ z. bind (chunk_count z) λ nchunks.
    bind (calc_chunk ask_peer meta sort nchunks)
      λ decided. some (seeder_nums (length meta.seeders) nchunks decided)

-- `ServerPath`: the trackers of the lines of the file, in one line.
unfoldable pub tracker_data : List Text → Option Text
tracker_data [] = some []
tracker_data (line ∷ ls) = bind (get_elem? (split line 32) 0) λ ip.
    bind (get_elem? (split line 32) 1) λ port.
      bind (tracker_data ls) λ rest. some (ip ++ (codes " " ++ (port ++ (codes " " ++ rest))))

unfoldable pub server_path : List Text → Option Text
unfolding tracker_data
server_path ls = bind (tracker_data ls) λ t. some (drop_last t)

-- The loop of `DownloadKernel` over what `recv` gives, up to its end; `file_size` stops at 0 here.
unfoldable pub recv_loop : ℕ → List Text → Text
recv_loop file_size [] = []
recv_loop file_size ([] ∷ ps) = []
recv_loop file_size ((c ∷ cs) ∷ ps) =
    if ltb 0 file_size then (c ∷ cs) ++ recv_loop (file_size - length (c ∷ cs)) ps else []

-- What `DownloadKernel` works on: the file, the pieces that are there, and the lines that
-- `UpdateServer` has sent.
pub record Local : Type 0 where
  pub file : Text
  pub filechunks_map : Table (List ℕ)
  pub told : List Text

pub data Progress : Type 0 where
  running gave_up recorded fault : Progress

abbrev pub chunks_of : Text → Table (List ℕ) → List ℕ
chunks_of name m = elim (lookup name m) [ none ↦ [] | some cs ↦ cs ]

abbrev pub send_chunk_line : FileData → ℕ → Text → Text
send_chunk_line meta chunk seeder =
    codes "send_chunk "
    ++ (meta.groupname
        ++ (codes " "
            ++ (meta.name
                ++ (codes " "
                    ++ (to_string chunk
                        ++ (codes " " ++ (meta.serverpath ++ (codes " " ++ seeder))))))))

-- `GetChunks` begins with no piece.
abbrev pub forget_chunks : FileData → Local → Local
forget_chunks meta s = record s { filechunks_map = insert meta.name [] s.filechunks_map }

module _ (sha1 : Text → List ℕ) (dial : ℕ → Text × Text → Text → Option (List Text))
    (meta : FileData) (chunk : ℕ) where
  -- The received bytes are written at the place of the piece, and after the first piece the tracker
  -- is told.
  unfoldable pub receive : List Text → Local → Local
  receive pieces s = record s {
    file = fwrite_at (chunk * chunk_size) (recv_loop chunk_size pieces) s.file;
    told =
        if chunk == 0
        then s.told ++ update_server meta.groupname meta.name meta.path meta.username ∷ []
        else s.told;
  }

  unfoldable pub record_chunk : Local → Local
  record_chunk s = record s {
    filechunks_map =
        insert meta.name (chunks_of meta.name s.filechunks_map ++ chunk ∷ []) s.filechunks_map;
  }

  -- `DownloadKernel`: at most `rounds` rounds of its loop, the next with the number `k`. `dial` is the
  -- network: what comes back in that round for a line, or `none` where there is no connection.
  unfoldable pub download_kernel : ℕ → ℕ → ℕ → ℕ → Local → Progress × Local
  download_kernel zero k attempts num s = (running, s)
  download_kernel (suc rounds) k attempts num s = elim (get_elem? meta.seeders num) [
    | none ↦ (fault, s)
    | some seeder ↦ elim (dial k (address meta seeder) (send_chunk_line meta chunk seeder)) [
      | none ↦ elim (leb (length meta.seeders) (attempts + 1)) [
        | true ↦ (gave_up, s)
        | false ↦ download_kernel rounds (suc k) (attempts + 1) ((num + 1) % length meta.seeders) s
      ]
      | some pieces ↦ elim (get_file_hash_small sha1 (receive pieces s).file chunk meta.hash) [
        | none ↦ (fault, receive pieces s)
        | some false ↦ download_kernel rounds (suc k) attempts num (receive pieces s)
        | some true ↦ (recorded, record_chunk (receive pieces s))
      ]
    ]
  ]
