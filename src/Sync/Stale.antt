-- ===== src/Sync/Stale.antt =====
-- The tables of a tracker that received a file: `SyncRecv` of tracker/trackersync.cpp writes the file and
-- leaves the tables of tracker/tracker.cpp as they were read before.
use torrent_based_file_shari.Common.{◌≡◌, refl, sym, subst, some, List, [], Text, contains}
use torrent_based_file_shari.Tracker.State.{write, Tables, Tracker, ◌>>=◌}
use torrent_based_file_shari.Tracker.Fetch.{load, create_files, fetch_details}
use torrent_based_file_shari.Tracker.Groups.{group_join}
use torrent_based_file_shari.Tracker.Groups.Joining.{group_join-Requested}
use torrent_based_file_shari.Tracker.Safety.Rules.{
  Runs, Runs-bind, Runs-get, Runs-expect, Runs-on_disk, Runs-on_disk_last, Runs-modify_last,
  Runs-weaken,
}
use torrent_based_file_shari.Tracker.Safety.Fetching.{IsGood, Has-load, create_files-IsGood}
use torrent_based_file_shari.Sync.{getlines, sync_loop, sync_recv}

-- The state of a tracker that has received a file.
abbrev pub received : Text → Text → Tracker → Tracker
received file bytes s = record s { disk = write file (getlines bytes) s.disk }

sync_recv-received :
    (file bytes : Text) (reads : List Text) (s : Tracker)
    → sync_loop [] reads ≡ some bytes
    → Runs (sync_recv file reads) s (λ _ s'. s' ≡ received file bytes s)
unfolding sync_recv
sync_recv-received file bytes reads s came = Runs-expect _ bytes came (Runs-on_disk_last _ refl)

fetch_details-load :
    (s : Tracker) (t : Tables)
    → load (create_files s.disk) ≡ some t
    → Runs fetch_details s (λ _ s'. s' ≡ record s { disk = create_files s.disk; tables = t })
unfolding fetch_details
fetch_details-load s t e =
    Runs-on_disk _ _ (Runs-get _ (Runs-expect _ t e (Runs-modify_last _ refl)))

-- If a tracker receives a file and its files are safe after that, then `GroupJoin`, which does not read the tables
-- in, still answers by the groups that were in memory before; it answers by the groups in the files once
-- `FetchDetails` has run.
pub sync_recv-group_join :
    (file bytes group user : Text) (reads : List Text) (s : Tracker)
    → sync_loop [] reads ≡ some bytes
    → IsGood (write file (getlines bytes) s.disk)
    → Runs
        (sync_recv file reads >>= λ _. group_join group user)
        s
        (λ r _. r ≡ contains group s.tables.groups)
      × ((t : Tables) × (load (create_files (write file (getlines bytes) s.disk)) ≡ some t)
          × Runs
              (sync_recv file reads >>= λ _. fetch_details >>= λ _. group_join group user)
              s
              (λ r _. r ≡ contains group t.groups))
sync_recv-group_join file bytes group user reads s came good =
    let after = received file bytes s in
    let (t, loaded) = Has-load _ (create_files-IsGood _ good.safe).safe in
    let fresh : Tracker = record after { disk = create_files after.disk; tables = t } in
    (
      Runs-bind _ _ (sync_recv-received file bytes reads s came) λ _ s1 same.
          subst (λ x. Runs (group_join group user) x (λ r _. r ≡ contains group s.tables.groups))
            (sym same) (Runs-weaken (group_join-Requested group user after good) λ r _ h. h.0),
      (
        t,
        loaded,
        Runs-bind _ _ (sync_recv-received file bytes reads s came) λ _ s1 same.
            subst
              (λ x.
                Runs (fetch_details >>= λ _. group_join group user) x
                  (λ r _. r ≡ contains group t.groups))
              (sym same)
              (Runs-bind _ _ (fetch_details-load after t loaded) λ _ s2 same2.
                subst (λ x. Runs (group_join group user) x (λ r _. r ≡ contains group t.groups))
                  (sym same2)
                  (Runs-weaken
                    (group_join-Requested group user fresh (create_files-IsGood _ good.safe))
                    λ r _ h. h.0)),
      ),
    )
