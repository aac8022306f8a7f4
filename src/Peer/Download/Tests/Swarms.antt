-- ===== src/Peer/Download/Tests/Swarms.antt =====
-- The threads of a download from two peers.
use torrent_based_file_shari.Common.{
  ◌≡◌, ◌<◌, refl, ℕ, true, none, some, map, codes, eq_text, lookup, arith,
}
use torrent_based_file_shari.Common.Decimal.{to_string, digits}
use torrent_based_file_shari.Threads.{Trace, Slots, no_threads, calls_on}
use torrent_based_file_shari.Peer.Download.{count_from}
use torrent_based_file_shari.Peer.Download.Threads.{
  ChunkData, Held, get_chunks_threads, get_chunks_threads-Joined,
}
use torrent_based_file_shari.Peer.Download.Tests.{meta, tables, online, path_at, disk, swarm}

-- The seeder y has the only piece.
y_has_it : (c : ℕ) → c < 1 → Held tables meta c
unfolding lookup eq_text
y_has_it c l = (1, codes "y", refl, refl)

get_chunks_threads-Joined_example :
    (t : Trace ChunkData) × (get_chunks_threads (λ job. true) (λ job. true) swarm (λ v. v) meta
      ≡ some t)
    × (s : Slots ChunkData) × (calls_on 51 t.0 no_threads ≡ some s)
    × (map ChunkData.chunk_num s.joined ≡ count_from 0 1)
    × ((slot : ℕ) → s.tid slot ≡ none)
unfolding lookup eq_text to_string digits
get_chunks_threads-Joined_example =
    get_chunks_threads-Joined (λ job. true) (λ job. true) swarm online path_at disk tables meta
      (λ v. v) 3 (λ v differ. (refl, λ p. refl)) ((λ e. cc), (refl, tt)) (omega arith) refl
      (omega arith) (refl, (refl, tt)) (tt, (tt, tt))
      (((λ e. absurd (omega (arith, e))), tt), (tt, tt)) y_has_it (λ job. refl) (λ job num e. refl)
