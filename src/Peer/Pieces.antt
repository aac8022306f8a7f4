-- ===== src/Peer/Pieces.antt =====
-- The hashes of a file's pieces: `GetFileHash` of peer/peer.cpp, `GetFileHash2`, `GetFileHashsmall` and
-- `MatchSHA` of peer/peerdownload.cpp. SHA-1 (OpenSSL) is the parameter `sha1`, from bytes to bytes.
-- A file is its bytes, and `none` where it cannot be opened.
pub mod Checks
use torrent_based_file_shari.Common.{
  ℕ, ◌*◌, ◌^◌, ltb, Bool, true, false, Option, none, some, List, [], ◌∷◌, ◌++◌, if◌then◌else◌,
  length, take, drop, blocks, Text, eq_text,
}
use torrent_based_file_shari.Tracker.Accounts.Hashing.{hex}

abbrev pub chunk_size : ℕ
chunk_size = 524288

module _ (sha1 : Text → List ℕ) where
  -- `temp_hash`: the first 20 characters of the digest of one piece.
  unfoldable pub temp_hash : Text → Text
  unfolding hex
  temp_hash piece = take 20 (hex (sha1 piece))

  -- The `fread` loop: one hash for each piece.
  abbrev pub final_hash : List Text → Text
  final_hash [] = []
  final_hash (p ∷ ps) = temp_hash p ++ final_hash ps

  unfoldable pub get_file_hash : Option Text → Text × ℕ
  get_file_hash none = ([], 0)
  get_file_hash (some bytes) = (final_hash (blocks (length bytes) chunk_size bytes), length bytes)

  unfoldable pub get_file_hash2 : Option Text → Text
  get_file_hash2 none = []
  get_file_hash2 (some bytes) = final_hash (blocks (length bytes) chunk_size bytes)

  -- `GetFileHashsmall`: the piece is read at `nchunks*CHUNK_SIZE1`, a product of two `int`s, which is
  -- undefined behaviour from 2^31 on; `substr` throws where it starts behind the end. Both are `none`.
  unfoldable pub get_file_hash_small : Text → ℕ → Text → Option Bool
  get_file_hash_small bytes nchunks fullhash =
      if ltb (nchunks * chunk_size) (2 ^ 31)
      then (if ltb (length fullhash) (nchunks * 20)
          then none
          else some (
              eq_text (temp_hash (take chunk_size (drop (nchunks * chunk_size) bytes)))
                (take 20 (drop (nchunks * 20) fullhash))))
      else none

  -- `MatchSHA`: whether it prints "Full file matched".
  unfoldable pub match_sha : Option Text → Text → Bool
  match_sha file hash = eq_text (get_file_hash2 file) hash
