-- ===== src/Peer/Download/Threads.antt =====
-- The threads of `GetChunks` of peer/peerdownload.cpp: one for each piece, in slots that are joined
-- and used again.
use torrent_based_file_shari.Common.{
  ◌≡◌, refl, sym, ap, ◌∙◌, ℕ, suc, ◌+◌, ◌^◌, ◌<◌, ◌≤◌, arith, Bool, true, false, Option, none, some,
  List, [], ◌∷◌, map, length, get_elem?, All, All-get_elem?, if◌then◌else◌, Text, Table, lookup,
}
use torrent_based_file_shari.Common.Decimal.{ℤ, to_string}
use torrent_based_file_shari.Common.Strings.Words.{IsWord}
use torrent_based_file_shari.Tracker.Fetch.{bind}
use torrent_based_file_shari.Peer.Choice.{Cell}
use torrent_based_file_shari.Peer.Download.{FileData, count_from, get_chunks, nchunks_of}
use torrent_based_file_shari.Peer.Download.Asked.{has_piece, Below, Answers, offered}
use torrent_based_file_shari.Peer.Download.Assigned.{AllAskedWell, get_chunks-AllAskedWell}
use torrent_based_file_shari.Peer.Download.Decided.{Offers, AllDiffer, RearrangesDiffering}
use torrent_based_file_shari.Threads.{Trace, spawn_all, Slots, no_threads, calls_on}
use torrent_based_file_shari.Threads.Joins.{held_at-past}
use torrent_based_file_shari.Threads.Returns.{joins_return, joins_return-spawn_all}
use torrent_based_file_shari.Threads.Traces.{all_ok, spawn_all-Joined}

-- `struct ChunkData`
pub record ChunkData : Type 0 where
  pub pointer : FileData
  pub chunk_num : ℕ
  pub seeder_num : Cell

-- The `chunkmeta` of each round.
unfoldable pub chunkmetas : FileData → ℕ → List Cell → List ChunkData
chunkmetas meta i [] = []
chunkmetas meta i (x ∷ xs) =
    record { pointer = meta; chunk_num = i; seeder_num = x } ∷ chunkmetas meta (suc i) xs

-- `GetChunks` with its threads. `returns` is whether the `DownloadKernel` of a thread comes to an end; it may
-- not, and with -1 for its seeder it reads outside of the vector. `none`: a join waits for ever, or there
-- is no result before.
unfoldable pub get_chunks_threads :
    (ChunkData → Bool)
    → (ChunkData → Bool)
    → (Text × Text → Text → Option Text)
    → (List (ℕ × List ℕ) → List (ℕ × List ℕ))
    → FileData
    → Option (Trace ChunkData)
get_chunks_threads pthread_create returns ask_peer sort meta =
    bind (get_chunks ask_peer sort meta) λ cells.
      let t = spawn_all pthread_create (chunkmetas meta 0 cells) in
      if joins_return returns t.0 (λ _. none) then some t else none

chunkmetas-chunk_num :
    (meta : FileData) (i : ℕ) (cells : List Cell)
    → map ChunkData.chunk_num (chunkmetas meta i cells) ≡ count_from i (length cells)
unfolding chunkmetas
chunkmetas-chunk_num meta i [] = refl
chunkmetas-chunk_num meta i (x ∷ xs) = ap (λ l. i ∷ l) (chunkmetas-chunk_num meta (suc i) xs)

module _ (tables : Text → Table (List ℕ)) (meta : FileData) where
  -- Some seeder has the piece.
  abbrev pub Held : ℕ → Type 0
  Held c =
      (k : ℕ) × (s : Text) × (get_elem? meta.seeders k ≡ some s)
      × (has_piece c (lookup meta.name (tables s)) ≡ true)

  all_ok-chunkmetas :
      (returns : ChunkData → Bool) (n c : ℕ) (cells : List Cell)
      → ((job : ChunkData) (num : ℕ) → job.seeder_num ≡ some num → returns job ≡ true)
      → ((c : ℕ) → c < n → Held c)
      → c + length cells ≤ n
      → AllAskedWell tables meta c cells
      → all_ok returns (chunkmetas meta c cells) ≡ true
  unfolding chunkmetas
  all_ok-chunkmetas returns n c [] ends held l h = refl
  all_ok-chunkmetas returns n c (none ∷ cells) ends held l h =
      let (k, s, there, has) = held c (omega arith) in
      let lacks : has_piece c (lookup meta.name (tables s)) ≡ false =
        All-get_elem? (λ s. has_piece c (lookup meta.name (tables s)) ≡ false) meta.seeders k s h.0
          there in
      let bad : true ≡ false = sym has ∙ lacks in cc
  all_ok-chunkmetas returns n c (some k ∷ cells) ends held l h =
      rw (ends (record { pointer = meta; chunk_num = c; seeder_num = some k }) k refl)
        (all_ok-chunkmetas returns n (suc c) cells ends held (omega arith) h.1)

-- If there are seeders, every one of them can be reached and answers as `ClientServerKernel` does, from a
-- table that names pieces of this file only, every piece is with some seeder, no two seeders name the same
-- number of pieces, `std::sort` leaves the same elements on such seeders, the size is below 2^31, the name
-- is one word, every thread can be created and every thread with a seeder returns, then `GetChunks` creates
-- and joins exactly one thread for each piece, in the order of the pieces; 51 slots are enough, no slot is
-- used while it holds a thread, and none holds one in the end.
pub get_chunks_threads-Joined :
    (pthread_create returns : ChunkData → Bool) (ask_peer : Text × Text → Text → Option Text)
    (connects : Text × ℤ → Bool) (ask : Text × ℤ → Text → Option Text) (files : Text → Option Text)
    (tables : Text → Table (List ℕ)) (meta : FileData) (sort : Offers → Offers) (size : ℕ)
    → RearrangesDiffering sort
    → IsWord meta.name
    → size < 2 ^ 31
    → meta.size ≡ to_string size
    → 0 < length meta.seeders
    → Answers ask_peer connects ask files tables meta meta.seeders
    → All (λ s. Below (nchunks_of size) (lookup meta.name (tables s))) meta.seeders
    → AllDiffer (offered tables meta (nchunks_of size) 0 meta.seeders)
    → ((c : ℕ) → c < nchunks_of size → Held tables meta c)
    → ((job : ChunkData) → pthread_create job ≡ true)
    → ((job : ChunkData) (num : ℕ) → job.seeder_num ≡ some num → returns job ≡ true)
    → (t : Trace ChunkData) × (get_chunks_threads pthread_create returns ask_peer sort meta
        ≡ some t)
      × (s : Slots ChunkData) × (calls_on 51 t.0 no_threads ≡ some s)
      × (map ChunkData.chunk_num s.joined ≡ count_from 0 (nchunks_of size))
      × ((slot : ℕ) → s.tid slot ≡ none)
unfolding get_chunks_threads
get_chunks_threads-Joined pthread_create returns ask_peer connects ask files tables meta sort size
      rearranges w fits e pos_ answers below differ held creates ends =
    let (cells, got, len, well) =
      get_chunks-AllAskedWell ask_peer connects ask files tables meta sort size rearranges w fits e
        pos_ answers below differ in
    let jobs = chunkmetas meta 0 cells in
    let joins = joins_return-spawn_all returns pthread_create jobs (
      all_ok-chunkmetas tables meta returns (nchunks_of size) 0 cells ends held (omega (arith, len))
        well) in
    let (s, runs, at) = spawn_all-Joined pthread_create jobs (all_of jobs) in
    (
      spawn_all pthread_create jobs,
      rw (got, joins) refl,
      s,
      runs,
      ap (map ChunkData.chunk_num) at.joined
          ∙ chunkmetas-chunk_num meta 0 cells
          ∙ ap (count_from 0) len,
      λ slot. at.tid slot ∙ held_at-past 0 slot,
    )
  where
    all_of : (jobs : List ChunkData) → all_ok pthread_create jobs ≡ true
    all_of [] = refl
    all_of (job ∷ jobs) = rw (creates job) (all_of jobs)
