-- ===== src/Peer/Server.antt =====
-- The peer as a server of pieces: peer/peerserver.cpp.
-- The table of the pieces that are there (`filechunks_map`), the files, the network and the trackers
-- are parameters. No result stands for undefined behaviour: a word that the line lacks, a product of
-- two `int`s that does not fit, a read through a null `FILE*`.
pub mod Sending
use torrent_based_file_shari.Common.{
  ℕ, zero, suc, ◌+◌, ◌-◌, ◌*◌, ◌^◌, ltb, leb, Bool, true, false, Option, none, some, List, [], ◌∷◌,
  ◌++◌, map, if◌then◌else◌, length, take, drop, get_elem?, blocks, Text, codes, eq_text, split,
  words, each_with, Table, lookup,
}
use torrent_based_file_shari.Common.Decimal.{ℤ, pos, negsuc, to_string, atoi}
use torrent_based_file_shari.Tracker.Fetch.{bind}
use torrent_based_file_shari.Tracker.Dispatch.{word}
use torrent_based_file_shari.Peer.Client.{get_file_path}
use torrent_based_file_shari.Peer.Pieces.{chunk_size}

-- `data.substr(0,data.size()-1)`; on an empty text, the empty text.
abbrev pub drop_last : Text → Text
drop_last t = take (length t - 1) t

-- `GetChunkInfo`
abbrev pub chunk_list : List ℕ → Text
chunk_list [] = codes "-2"
chunk_list (c ∷ cs) = drop_last (each_with (codes " ") (map to_string (c ∷ cs)))

unfoldable pub get_chunk_info : Table (List ℕ) → Text → Text
get_chunk_info filechunks_map filename = elim (lookup filename filechunks_map) [
  | none ↦ codes "-1"
  | some chunks ↦ chunk_list chunks
]

-- `Conv`: the two trackers that the line names.
unfoldable pub conv : List Text → Option (List (Text × ℤ))
conv split_vector = bind (get_elem? split_vector 4) λ ip. bind (get_elem? split_vector 5) λ port.
    bind (get_elem? split_vector 6) λ ip'.
      bind (get_elem? split_vector 7)
        λ port'. bind (atoi port) λ p. bind (atoi port') λ p'. some ((ip, p) ∷ (ip', p') ∷ [])

-- `CheckTracker`: the first tracker that can be reached, and an empty address where there is none.
unfoldable pub check_tracker : (Text × ℤ → Bool) → List (Text × ℤ) → Text × ℤ
check_tracker connects [] = ([], pos 0)
check_tracker connects (t ∷ ts) = if connects t then t else check_tracker connects ts

abbrev pub small_chunk_size : ℕ
small_chunk_size = 1024

-- Where `fseek` goes for a piece: to a negative place it does not go, and the reads start at 0.
abbrev pub start_of : ℤ → Option ℕ
start_of (pos n) = if ltb (n * chunk_size) (2 ^ 31) then some (n * chunk_size) else none
start_of (negsuc n) = if leb (suc n * chunk_size) (2 ^ 31) then some 0 else none

-- The loop of `TransferFunction`: what is sent of the blocks that `fread` gives, while `total` is
-- positive. It stops at 0 here, where the source goes below.
unfoldable pub send_loop : ℕ → List Text → Text
send_loop total [] = []
send_loop total (b ∷ bs) = if ltb 0 total then b ++ send_loop (total - length b) bs else []

unfoldable pub send_from : ℕ → Text → Text
send_from start bytes =
    send_loop (chunk_size + 1)
      (blocks (length (drop start bytes)) small_chunk_size (drop start bytes))

module _ (connects : Text × ℤ → Bool) (ask : Text × ℤ → Text → Option Text)
    (files : Text → Option Text) where
  unfoldable pub transfer_function : List Text → Option Text
  transfer_function split_vector = bind (conv split_vector) λ tracker_data.
      bind (get_elem? split_vector 1) λ group. bind (get_elem? split_vector 2) λ name.
        bind (get_elem? split_vector 8) λ user.
          bind (files (get_file_path (ask (check_tracker connects tracker_data)) group name user))
            λ bytes. bind (get_elem? split_vector 3) λ chunk.
              bind (atoi chunk) λ n. bind (start_of n) λ start. some (send_from start bytes)

  -- `ClientServerKernel`: what is sent back for the bytes that were received.
  unfoldable pub client_server_kernel : Table (List ℕ) → Text → Option Text
  client_server_kernel filechunks_map command =
      let command_split = words command in
      if eq_text (word command_split 0) (codes "join_group")
      then some []
      else if eq_text (word command_split 0) (codes "Hello")
      then some []
      else if eq_text (word command_split 0) (codes "send_chunk")
      then transfer_function (split command 32)
      else if eq_text (word command_split 0) (codes "chunk_numbers")
      then some (get_chunk_info filechunks_map (word command_split 1))
      else some []
