-- ===== src/Peer/Download/Delivery.antt =====
-- `DownloadKernel` with a seeder that can be reached: what an honest and what a corrupt one bring about.
use torrent_based_file_shari.Common.{
  ℕ, zero, suc, ◌+◌, ◌-◌, ◌*◌, ◌^◌, ◌≤◌, ◌<◌, ◌≡◌, refl, sym, ap, ◌∙◌, true, false, Option, some,
  List, arith, length, take, drop, join, get_elem?, Text,
}
use torrent_based_file_shari.Peer.Pieces.{chunk_size, get_file_hash_small, get_file_hash}
use torrent_based_file_shari.Peer.Pieces.Checks.{get_file_hash_small-get_file_hash}
use torrent_based_file_shari.Peer.Server.{send_from}
use torrent_based_file_shari.Peer.Download.{
  FileData, address, Local, running, recorded, send_chunk_line, receive, record_chunk,
  download_kernel,
}
use torrent_based_file_shari.Peer.Download.Writes.{NonEmpty}
use torrent_based_file_shari.Peer.Download.Arrival.{piece-fwrite_at}
use torrent_based_file_shari.Peer.Download.Retries.{
  nth_try, Refused, same_call, download_kernel-Refused, get_elem?-in,
}

-- The check of a piece reads only that piece.
same_piece :
    (sha1 : Text → List ℕ) (x y : Text) (i : ℕ) (hash : Text)
    → take chunk_size (drop (i * chunk_size) x) ≡ take chunk_size (drop (i * chunk_size) y)
    → get_file_hash_small sha1 x i hash ≡ get_file_hash_small sha1 y i hash
unfolding get_file_hash_small
same_piece sha1 x y i hash e = rw e refl

module _ (sha1 : Text → List ℕ) (digest : (t : Text) → length (sha1 t) ≡ 20)
    (dial : ℕ → Text × Text → Text → Option (List Text)) (meta : FileData) (chunk : ℕ)
    (source : Text) where
  -- The hash that the tracker gave is that of `source`, which is at most 2^31 bytes long and has this
  -- piece.
  abbrev pub Announced : Type 0
  Announced =
      (meta.hash ≡ (get_file_hash sha1 (some source)).0)
      × (length source ≤ 2 ^ 31)
      × (chunk * chunk_size < length source)

  -- What comes back in round `k` from the seeder `num` is what `TransferFunction` sends of `source`.
  abbrev pub Serves : ℕ → ℕ → List Text → Type 0
  Serves k num parts =
      ((seeder : Text)
        → get_elem? meta.seeders num ≡ some seeder
        → dial k (address meta seeder) (send_chunk_line meta chunk seeder) ≡ some parts)
      × (join parts ≡ send_from (chunk * chunk_size) source)
      × NonEmpty parts

  receive-passes :
      (parts : List Text) (s : Local)
      → Announced
      → length s.file ≡ length source
      → join parts ≡ send_from (chunk * chunk_size) source
      → NonEmpty parts
      → get_file_hash_small sha1 (receive sha1 dial meta chunk parts s).file chunk meta.hash
        ≡ some true
  unfolding receive
  receive-passes parts s (e, size, here) h arrived n =
      same_piece sha1 _ source chunk meta.hash
        (piece-fwrite_at source (chunk * chunk_size) parts arrived s.file h (omega arith) n)
      ∙ ap (get_file_hash_small sha1 source chunk) e
      ∙ get_file_hash_small-get_file_hash sha1 digest source chunk size here

  -- While the tracker can be told of piece 0: let SHA-1 give 20 bytes, the hash be that of a file of at most 2^31 bytes that has this piece, and the
  -- local file be as long. After `m` refusals, fewer than there are seeders, and then a seeder that
  -- sends the piece as `TransferFunction` does, the piece is recorded in that very round, with the bytes
  -- that were received written at its place.
  pub download_kernel-delivers :
      (m rounds num : ℕ) (parts : List Text) (s : Local)
      → Announced
      → length s.file ≡ length source
      → num < length meta.seeders
      → m < length meta.seeders
      → ((j : ℕ) → j < m → Refused sha1 dial meta chunk j (nth_try (length meta.seeders) j num))
      → Serves m (nth_try (length meta.seeders) m num) parts
      → m < rounds
      → download_kernel sha1 dial meta chunk rounds 0 0 num s
        ≡ (recorded, record_chunk sha1 dial meta chunk (receive sha1 dial meta chunk parts s))
  unfolding download_kernel
  download_kernel-delivers m rounds num parts s announced h l b shut (serves, arrived, n) enough =
      let (later, l', e, eq) =
        download_kernel-Refused sha1 dial meta chunk m (suc (rounds - m - 1)) 0 0 num s l
          (omega arith) (λ j j_lt. rw (zero_left j) (shut j j_lt)) in
      let (seeder, here) = get_elem?-in meta.seeders later l' in
      let answered = serves seeder (ap (get_elem? meta.seeders) (sym e) ∙ here) in
      let answered' : dial (0 + m) (address meta seeder) (send_chunk_line meta chunk seeder)
          ≡ some parts =
        rw (zero_left m) answered in
      let passes = receive-passes parts s announced h arrived n in
      let now : download_kernel sha1 dial meta chunk (suc (rounds - m - 1)) (0 + m) (0 + m) later s
          ≡ (recorded, record_chunk sha1 dial meta chunk (receive sha1 dial meta chunk parts s)) =
        rw (here, answered', passes, download_kernel) refl in
      same_call sha1 dial meta chunk num s (ground arith) refl refl ∙ eq ∙ now
    where
      zero_left : (i : ℕ) → 0 + i ≡ i
      zero_left i = omega arith

-- While the tracker can be told of piece 0: if the seeder that is asked can be reached and what it sends never passes the check of the piece, the
-- thread asks this seeder again without end, and no other.
pub download_kernel-stuck :
    (sha1 : Text → List ℕ) (dial : ℕ → Text × Text → Text → Option (List Text)) (meta : FileData)
    (chunk : ℕ) (seeder : Text) (num : ℕ) (parts : List Text)
    → get_elem? meta.seeders num ≡ some seeder
    → ((k : ℕ) → dial k (address meta seeder) (send_chunk_line meta chunk seeder) ≡ some parts)
    → ((s : Local)
        → get_file_hash_small sha1 (receive sha1 dial meta chunk parts s).file chunk meta.hash
          ≡ some false)
    → (rounds k attempts : ℕ) (s : Local)
    → (download_kernel sha1 dial meta chunk rounds k attempts num s).0 ≡ running
unfolding download_kernel
download_kernel-stuck sha1 dial meta chunk seeder num parts here open_ bad zero k attempts s = refl
download_kernel-stuck sha1 dial meta chunk seeder num parts here open_ bad (suc rounds) k attempts
      s =
    rw (here, open_ k, bad s, download_kernel)
      (download_kernel-stuck sha1 dial meta chunk seeder num parts here open_ bad rounds (suc k)
        attempts (receive sha1 dial meta chunk parts s))
