-- ===== src/Peer/Download/Start.antt =====
-- `DownloadFile` of peer/peerdownload.cpp, before and after `GetChunks`.
-- The connections to the tracker are the parameter `ask`: `none` where the handshake fails.
use torrent_based_file_shari.Common.{
  ℕ, zero, suc, ◌-◌, Bool, Option, none, some, List, [], ◌∷◌, ◌++◌, if◌then◌else◌, length, take,
  get_elem?, Text, codes, eq_text, split, Table, insert,
}
use torrent_based_file_shari.Common.Decimal.{ℤ, pos, negsuc, atoi}
use torrent_based_file_shari.Tracker.Fetch.{bind}
use torrent_based_file_shari.Tracker.Dispatch.{word}
use torrent_based_file_shari.Peer.Client.{
  give_sha_line, give_seeders_line, give_details_line, update_server_complete,
}
use torrent_based_file_shari.Peer.Pieces.{match_sha}
use torrent_based_file_shari.Peer.Download.{FileData, Local, server_path}

-- How the first part ends: with a message, or with the data of the download and the new file.
pub data Started : Type 0 where
  handshake_failed invalid_request no_seeders : Started
  downloading : FileData → Text → Started

-- `outfile.write("5",1)`, as often as the loop goes round.
abbrev pub fives : ℕ → Text
fives zero = []
fives (suc n) = b'5' ∷ fives n

abbrev pub new_file : ℤ → Text
new_file (pos n) = fives n
new_file (negsuc n) = []

-- `details[i]=make_pair(split_vector2[0],split_vector2[1])`
abbrev pub set_details : Text → Text → Table (Text × Text) → Option (Table (Text × Text))
set_details seeder cred details =
    bind (get_elem? (split cred 32) 0)
      λ ip. bind (get_elem? (split cred 32) 1) λ port. some (insert seeder (ip, port) details)

module _ (ask : Text → Option Text) where
  -- The loop over the seeders; after a failed handshake it goes on with the next.
  unfoldable pub details_of : List Text → Table (Text × Text) → Option (Table (Text × Text))
  details_of [] details = some details
  details_of (seeder ∷ ss) details = elim (ask (give_details_line seeder)) [
    | none ↦ details_of ss details
    | some cred ↦ bind (set_details seeder cred details) λ d. details_of ss d
  ]

  module _ (groupname filename filepath username si : Text) (sp : ℤ)
      (tracker_info : List Text) where
    abbrev pub start_with : Text → Text → Option Started
    start_with filehash output_string =
        let split_vector = split output_string 32 in
        let size = word split_vector (length split_vector - 1) in
        let seeders = take (length split_vector - 1) split_vector in
        bind (details_of seeders []) λ details. bind (server_path tracker_info) λ path.
          bind (atoi size) λ n. some (
            downloading
              (record {
                name = filename;
                path = filepath;
                hash = filehash;
                size = size;
                groupname = groupname;
                serverpath = path;
                username = username;
                tracker_ip = si;
                tracker_port = sp;
                seeders = seeders;
                details = details;
              })
              (new_file n))

    abbrev pub with_seeders : Text → Option Text → Option Started
    with_seeders filehash none = some handshake_failed
    with_seeders filehash (some []) = some no_seeders
    with_seeders filehash (some (c ∷ cs)) = start_with filehash (c ∷ cs)

    abbrev pub with_hash : Option Text → Option Started
    with_hash none = some handshake_failed
    with_hash (some []) = some invalid_request
    with_hash (some (c ∷ cs)) =
        with_seeders (c ∷ cs) (ask (give_seeders_line groupname filename username))

    unfoldable pub download_start : Option Started
    download_start = with_hash (ask (give_sha_line groupname filename username))

abbrev pub erase : {V : Type 0} → Text → Table V → Table V
erase k [] = []
erase k ((j, v) ∷ m) = if eq_text j k then m else (j, v) ∷ erase k m

abbrev pub verdict : Bool → Text
verdict b = if b then codes "Full file matched" else codes "Not Matched"

-- After `GetChunks`: the tracker is told, the whole file is checked, and the pieces are forgotten.
unfoldable pub download_end : (Text → List ℕ) → FileData → Local → Text × Local
download_end sha1 meta s = (
  verdict (match_sha sha1 (some s.file) meta.hash),
  record s {
    told = s.told ++ update_server_complete meta.groupname meta.name meta.path meta.username ∷ [];
    filechunks_map = erase meta.name s.filechunks_map;
  },
)
