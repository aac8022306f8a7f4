-- ===== src/Tracker/Tests/Received.antt =====
-- A tracker that receives the file of the groups, with one group more.
use torrent_based_file_shari.Common.{
  ◌≡◌, refl, some, List, [], ◌∷◌, ◌++◌, arith, codes, Text, eq_text, split, split_from, contains,
}
use torrent_based_file_shari.Tracker.State.{write, group_file, Tables, ◌>>=◌}
use torrent_based_file_shari.Tracker.Fetch.{load, create_files, fetch_details}
use torrent_based_file_shari.Tracker.Groups.{group_join}
use torrent_based_file_shari.Tracker.Safety.Rules.{Runs}
use torrent_based_file_shari.Tracker.Safety.Paths.{Fits-group}
use torrent_based_file_shari.Tracker.Safety.Fetching.{IsGood, write-IsGood}
use torrent_based_file_shari.Tracker.Tests.{bob}
use torrent_based_file_shari.Tracker.Tests.Lives.{at_rest, known_files, known_files-IsGood}
use torrent_based_file_shari.Sync.{getlines, getlines_from, sync_loop, sync_recv}
use torrent_based_file_shari.Sync.Stale.{sync_recv-group_join}

abbrev two_groups : Text
two_groups = codes "g alice" ++ 10 ∷ codes "h carol" ++ 10 ∷ []

abbrev two_reads : List Text
two_reads = two_groups ∷ codes "Sync Over" ∷ []

received-IsGood : IsGood (write group_file (getlines two_groups) known_files)
unfolding getlines getlines_from split split_from
received-IsGood =
    write-IsGood group_file _ known_files (Fits-group _ (omega arith, (omega arith, tt)))
      known_files-IsGood

sync_recv-group_join_example :
    Runs
      (sync_recv group_file two_reads >>= λ _. group_join (codes "h") bob)
      at_rest
      (λ r _. r ≡ contains (codes "h") at_rest.tables.groups)
    × ((t : Tables) × (load (create_files (write group_file (getlines two_groups) known_files))
          ≡ some t)
        × Runs
            (sync_recv group_file two_reads >>= λ _.
              fetch_details >>= λ _. group_join (codes "h") bob)
            at_rest
            (λ r _. r ≡ contains (codes "h") t.groups))
unfolding sync_loop eq_text
sync_recv-group_join_example =
    sync_recv-group_join group_file two_groups (codes "h") bob two_reads at_rest refl
      received-IsGood
