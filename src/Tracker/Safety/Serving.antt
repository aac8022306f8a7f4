-- ===== src/Tracker/Safety/Serving.antt =====
-- Every command: from safe files the tracker reaches the end of it, with safe files.
use torrent_based_file_shari.Common.{◌≡◌, refl, true, false, some, List, [], ◌∷◌, All, Text}
use torrent_based_file_shari.Sync.{getlines, sync_loop, sync_recv, entry_file, sync_all_handler}
use torrent_based_file_shari.Tracker.State.{Disk, lines, user_file, Tracker}
use torrent_based_file_shari.Tracker.Dispatch.{
  Request, login, create_user, create_group, join_group, leave_group, list_requests, list_groups,
  sync_all, unknown, accept_request, upload_file, list_files, stop_share, give_sha, give_seeders,
  send_full_path, logout_user, give_details, show, sync_file, add_file, complete, Outside, serve,
}
use torrent_based_file_shari.Tracker.Downloads.{has_path}
use torrent_based_file_shari.Tracker.Safety.Names.{is_file_name, names_in}
use torrent_based_file_shari.Tracker.Safety.Rules.{
  Runs, Exists, Runs-bind, Runs-pure, Runs-when, Runs-expect, Runs-on_disk_last, Runs-sync_last,
}
use torrent_based_file_shari.Tracker.Safety.Disk.{Fits, IsGroupName, IsUserName}
use torrent_based_file_shari.Tracker.Safety.Fetching.{IsGood, Good, write-IsGood}
use torrent_based_file_shari.Tracker.Safety.Accounts.{
  user_login-Good, user_create-Good, logout-Good,
}
use torrent_based_file_shari.Tracker.Safety.Groups.{
  group_create-Good, group_list-Good, group_request_list-Good, group_join-Good,
  group_accept_request-Good, group_leave-Good,
}
use torrent_based_file_shari.Tracker.Safety.Sharing.{
  group_file_upload-Good, group_stop_share-Good, group_file_list-Good, send_seeders-Good,
  send_details-Good, get_full_path-Good,
}
use torrent_based_file_shari.Tracker.Safety.Downloads.{
  send_sha-Good, update_download-Good, complete_download-Good, show_downloads-Good,
}

-- What is asked of a command by itself: names whose files are not other files, an `add_file` of a name
-- that is not on the user's list yet, a `Sync` of an entry of `.all_files` that ends and brings lines that
-- fit the file, and a directory whose entries are there.
abbrev pub Fitting : Outside → Disk → Request → Type 0
Fitting o d (create_group group user) = IsGroupName group
Fitting o d (leave_group group user) = IsGroupName group × IsUserName user
Fitting o d (accept_request group user owner) = IsGroupName group
Fitting o d (upload_file hash size group user name path) = IsUserName user
Fitting o d (stop_share group name user) = IsUserName user
Fitting o d (send_full_path user group name) = IsUserName user
Fitting o d (add_file group name path user) =
    IsUserName user × (has_path name (lines d (user_file user)) ≡ some false)
Fitting o d (sync_file file) =
    (name : Text) × (file ≡ entry_file name)
    × (is_file_name name ≡ true)
    × (bytes : Text) × (sync_loop [] o.reads ≡ some bytes)
    × Fits file (getlines bytes)
Fitting o d sync_all = All (λ n. Exists d (entry_file n)) o.entries
Fitting o d _ = Unit

-- And that the groups and users it names make names of files.
abbrev pub Allowed : Outside → Disk → Request → Type 0
Allowed o d r = All (λ n. is_file_name n ≡ true) (names_in r) × Fitting o d r

sync_recv-Good :
    (file : Text) (reads : List Text) (bytes : Text) (s : Tracker)
    → sync_loop [] reads ≡ some bytes
    → Fits file (getlines bytes)
    → IsGood s.disk
    → Runs (sync_recv file reads) s Good
unfolding sync_recv
sync_recv-Good file reads bytes s e f h =
    Runs-expect _ bytes e (Runs-on_disk_last _ (write-IsGood file _ s.disk f h))

sync_all_handler-Good :
    (names : List Text) (s : Tracker)
    → All (λ n. Exists s.disk (entry_file n)) names
    → IsGood s.disk
    → Runs (sync_all_handler names) s Good
unfolding sync_all_handler
sync_all_handler-Good [] s there h = Runs-pure _ h
sync_all_handler-Good (n ∷ names) s there h =
    Runs-bind _ _ {P = λ _ s'. s'.disk ≡ s.disk}
      (Runs-when _ _ _ (λ _. Runs-pure _ refl) (λ _. Runs-sync_last _ there.0 (λ e. refl)))
      λ _ s' same. sync_all_handler-Good names s' (rw same there.1) (rw same h)

module _ (o : Outside) where
  -- From good files every allowed command ends without a fault, and the files are good again.
  pub serve-Good :
      (r : Request) (s : Tracker) → Fitting o s.disk r → IsGood s.disk → Runs (serve o r) s Good
  unfolding serve
  serve-Good (login user password port ip) s a h =
      Runs-bind _ _ (user_login-Good o.sha256 user password port ip s h) (λ _ s' h'. Runs-pure _ h')
  serve-Good (create_user user password port ip) s a h =
      Runs-bind _ _ (user_create-Good o.sha256 o.random user password port ip s h)
        (λ _ s' h'. Runs-pure _ h')
  serve-Good (create_group group user) s a h =
      Runs-bind _ _ (group_create-Good group user s a h) (λ _ s' h'. Runs-pure _ h')
  serve-Good (join_group group user) s a h =
      Runs-bind _ _ (group_join-Good group user s h) (λ _ s' h'. Runs-pure _ h')
  serve-Good (leave_group group user) s a h =
      Runs-bind _ _ (group_leave-Good group user s a.0 a.1 h) (λ _ s' h'. Runs-pure _ h')
  serve-Good (list_requests group user) s a h =
      Runs-bind _ _ (group_request_list-Good group user s h) (λ _ s' h'. Runs-pure _ h')
  serve-Good list_groups s a h = Runs-bind _ _ (group_list-Good s h) (λ _ s' h'. Runs-pure _ h')
  serve-Good sync_all s a h =
      Runs-bind _ _ (sync_all_handler-Good o.entries s a h) (λ _ s' h'. Runs-pure _ h')
  serve-Good unknown s a h = Runs-pure _ h
  serve-Good (accept_request group user owner) s a h =
      Runs-bind _ _ (group_accept_request-Good group user owner s a h) (λ _ s' h'. Runs-pure _ h')
  serve-Good (upload_file hash size group user name path) s a h =
      Runs-bind _ _ (group_file_upload-Good hash size group user name path s a h)
        (λ _ s' h'. Runs-pure _ h')
  serve-Good (list_files group) s a h =
      Runs-bind _ _ (group_file_list-Good group [] [] s h) (λ _ s' h'. Runs-pure _ h')
  serve-Good (stop_share group name user) s a h =
      Runs-bind _ _ (group_stop_share-Good group name user s a h) (λ _ s' h'. Runs-pure _ h')
  serve-Good (give_sha group name user) s a h =
      Runs-bind _ _ (send_sha-Good group name user s h) (λ _ s' h'. Runs-pure _ h')
  serve-Good (give_seeders group name user) s a h =
      Runs-bind _ _ (send_seeders-Good group name user s h) (λ _ s' h'. Runs-pure _ h')
  serve-Good (send_full_path user group name) s a h =
      Runs-bind _ _ (get_full_path-Good group name user s a h) (λ _ s' h'. Runs-pure _ h')
  serve-Good (logout_user user) s a h =
      Runs-bind _ _ (logout-Good user s h) (λ _ s' h'. Runs-pure _ h')
  serve-Good (give_details user) s a h =
      Runs-bind _ _ (send_details-Good user s h) (λ _ s' h'. Runs-pure _ h')
  serve-Good (show user) s a h =
      Runs-bind _ _ (show_downloads-Good user s h) (λ _ s' h'. Runs-pure _ h')
  serve-Good (sync_file file) s (name, entry, opens, bytes, e, f) h =
      Runs-bind _ _ (sync_recv-Good file o.reads bytes s e f h) (λ _ s' h'. Runs-pure _ h')
  serve-Good (add_file group name path user) s a h =
      Runs-bind _ _ (update_download-Good group name user path s a.0 a.1 h)
        (λ _ s' h'. Runs-pure _ h')
  serve-Good (complete group name path user) s a h =
      Runs-bind _ _ (complete_download-Good group name user s h) (λ _ s' h'. Runs-pure _ h')
