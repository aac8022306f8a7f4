-- ===== src/Tracker/Safety/Sessions.antt =====
-- The life of a tracker: it starts on files of an earlier life, and serves commands one by one.
use torrent_based_file_shari.Common.{◌≡◌, refl, Option, none, some, [], Text}
use torrent_based_file_shari.Tracker.State.{Disk, Tracker, M}
use torrent_based_file_shari.Tracker.Fetch.{fetch_details}
use torrent_based_file_shari.Tracker.Dispatch.{Outside, parse_request, serve, tracker_kernel}
use torrent_based_file_shari.Tracker.Safety.Rules.{Runs, Ensures}
use torrent_based_file_shari.Tracker.Safety.Disk.{IsSafe}
use torrent_based_file_shari.Tracker.Safety.Fetching.{IsGood, Good, fetch_details-Good}
use torrent_based_file_shari.Tracker.Safety.Serving.{Allowed, serve-Good}

abbrev started : Disk → Option Disk → Tracker
started d sibling = record {
  disk = d;
  tables = record { credentials = []; online = []; online_users = []; groups = []; pending = [] };
  group_members = [];
  sibling = sibling;
}

-- What the tracker can come to from the files `d`: `main` calls `FetchDetails`; `TrackerKernel`
-- serves a line that the clients may send; between two lines the sibling tracker may come, change or
-- go.
pub data Reached (d : Disk) : Tracker → Type 0 where
  fetched :
      (sibling : Option Disk) (s : Tracker)
      → fetch_details (started d sibling) ≡ some (tt, s)
      → Reached d s
  served :
      (o : Outside) (line : Text) (reply : Option Text) (s s' : Tracker)
      → Reached d s
      → Allowed o s.disk (parse_request line)
      → tracker_kernel o line s ≡ some (reply, s')
      → Reached d s'
  switched :
      (sibling : Option Disk) (s : Tracker)
      → Reached d s
      → Reached d (record s { sibling = sibling })

-- The state after an action that is known to have ended.
result_of :
    {A : Type 0} {Q : A → Tracker → Type 0} (m : M A) (s s' : Tracker) (a : A)
    → Runs m s Q
    → m s ≡ some (a, s')
    → Q a s'
result_of {Q = Q} m s s' a h e = (rw e at h.at)

Reached-Good : (d : Disk) → IsSafe d → (s : Tracker) → Reached d s → IsGood s.disk
unfolding tracker_kernel
Reached-Good d h _ (fetched sibling s e) =
    result_of {Q = Good} fetch_details (started d sibling) s tt (fetch_details-Good _ h) e
Reached-Good d h _ (served o line reply s s' r a e) =
    result_of {Q = Good} (serve o (parse_request line)) s s' reply
      (serve-Good o (parse_request line) s a.1 (Reached-Good d h s r)) e
Reached-Good d h _ (switched sibling s r) = Reached-Good d h s r

-- A tracker that was started on safe files, and serves one line after the other, never comes to a state in
-- which an allowed line of a client is undefined behaviour: the line is served, and the files are safe
-- afterwards. A line is allowed if the groups and users that it names make names of files that can be
-- opened and are not the other files of the tracker; an `add_file` only if the user's list has no
-- file of the name yet, since otherwise a mutex is unlocked that is not held; a `Sync` if it ends, is of an
-- entry of `.all_files` and brings lines that fit it; a `SyncAll` if the entries are there.
pub tracker_kernel-serves :
    (d : Disk) (s : Tracker) (o : Outside) (line : Text)
    → IsSafe d
    → Reached d s
    → Allowed o s.disk (parse_request line)
    → (reply : Option Text) × (s' : Tracker) × (tracker_kernel o line s ≡ some (reply, s'))
      × Reached d s'
      × IsSafe s'.disk
unfolding tracker_kernel
tracker_kernel-serves d s o line h r a = go _ refl (serve-Good o (parse_request line) s a.1 good).at
  where
    good : IsGood s.disk
    good = Reached-Good d h s r

    go :
        (result : Option (Option Text × Tracker))
        → serve o (parse_request line) s ≡ result
        → Ensures Good result
        → (reply : Option Text) × (s' : Tracker) × (tracker_kernel o line s ≡ some (reply, s'))
          × Reached d s'
          × IsSafe s'.disk
    go none e q = absurd q
    go (some (reply, s')) e q = (reply, s', e, served o line reply s s' r a e, q.safe)
