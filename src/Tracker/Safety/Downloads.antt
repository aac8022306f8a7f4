-- ===== src/Tracker/Safety/Downloads.antt =====
-- The operations on downloads keep the files safe.
use torrent_based_file_shari.Common.{
  ◌≡◌, sym, subst, ap, ◌∙◌, false, some, arith, refl, [], Text, eq_text,
}
use torrent_based_file_shari.Tracker.State.{
  lines, shared_file, user_file, downloading_file, downloaded_file, Tracker,
}
use torrent_based_file_shari.Tracker.Downloads.{
  give_hash, send_sha, has_path, update_download, complete_download, show_downloads,
}
use torrent_based_file_shari.Tracker.Files.Deletion.{lines-create_files, Runs-fetch_details}
use torrent_based_file_shari.Tracker.Safety.Rules.{
  Runs, Runs-bind, Runs-get, Runs-pure, Runs-when, Runs-on_disk, Runs-sync, Runs-sync_last,
  Runs-expect, Runs-read_lines,
}
use torrent_based_file_shari.Tracker.Safety.Disk.{IsUserName}
use torrent_based_file_shari.Tracker.Safety.Paths.{Fits-downloading, Fits-downloaded}
use torrent_based_file_shari.Tracker.Safety.Searches.{Has-hashes_of, Has-find_shared}
use torrent_based_file_shari.Tracker.Safety.Fetching.{
  IsGood, Good, Exists-write, Exists-write_self, write-IsGood, fetch_details-Good,
  create_files-IsGood, fetch_group_members-Good, delete_line-Good,
}
use torrent_based_file_shari.Tracker.Safety.Sharing.{append_shared-IsGood, append_path-IsGood}

module _ (group name user : Text) where
  give_hash-Good : (s : Tracker) → IsGood s.disk → Runs (give_hash group name user) s Good
  unfolding give_hash
  give_hash-Good s h =
      let (r, e) = Has-hashes_of [] (lines s.disk (shared_file group)) (h.safe.shared group) in
      Runs-read_lines _ _ (
        Runs-expect _ r e (
          Runs-on_disk _ _ (
            Runs-sync _ _ (Exists-write_self (downloading_file user) _ s.disk)
              λ _. Runs-pure _ (write-IsGood _ _ s.disk (Fits-downloading _ user) h))))

  pub send_sha-Good : (s : Tracker) → IsGood s.disk → Runs (send_sha group name user) s Good
  unfolding send_sha
  send_sha-Good s h = Runs-bind _ _ (fetch_details-Good s h.safe) λ _ s' h'. Runs-get _ (
      Runs-when _ _ _
        (λ _.
          Runs-bind _ _ (fetch_group_members-Good group s' h') λ _ s2 h2.
            Runs-get _ (Runs-when _ _ _ (λ _. give_hash-Good s2 h2) (λ _. Runs-pure _ h2)))
        (λ _. Runs-pure _ h'))

  pub update_download-Good :
      (path : Text) (s : Tracker)
      → IsUserName user
      → has_path name (lines s.disk (user_file user)) ≡ some false
      → IsGood s.disk
      → Runs (update_download group name path user) s Good
  unfolding update_download
  update_download-Good path s u new h =
      Runs-bind _ _ (Runs-fetch_details s h.safe) λ _ s' (made, _, _).
        let h' : IsGood s'.disk = subst IsGood (sym made) (create_files-IsGood s.disk h.safe) in
        let same : lines s'.disk (user_file user) ≡ lines s.disk (user_file user) =
          ap (λ d. lines d (user_file user)) made ∙ lines-create_files (user_file user) s.disk in
        let (r, e) =
          Has-find_shared name user (lines s'.disk (shared_file group)) (h'.safe.shared group) in
        Runs-read_lines _ _ (
          Runs-expect _ r e (
            Runs-read_lines _ _ (
              Runs-expect _ false (ap (has_path name) same ∙ new) (
                Runs-when _ _ _ (λ known. absurd (ground arith))
                  λ _. Runs-on_disk _ _ (
                    Runs-on_disk _ _ (
                      Runs-sync _ _ (search (Exists-write, Exists-write_self)) λ _.
                        Runs-sync_last _ (search (Exists-write, Exists-write_self)) λ _.
                          append_shared-IsGood group r.0 r.1 user name _
                            (append_path-IsGood user group name path s'.disk u h')))))))

  pub complete_download-Good :
      (s : Tracker) → IsGood s.disk → Runs (complete_download group name user) s Good
  unfolding complete_download eq_text
  complete_download-Good s h = Runs-bind _ _ (fetch_details-Good s h.safe) λ _ s' h'.
      Runs-bind _ _
        (delete_line-Good (downloading_file user) _ s' h' (λ ls. Fits-downloading ls user) refl)
        λ _ s2 (h2, there, _). Runs-on_disk _ _ (
          Runs-sync _ _ (Exists-write_self (downloaded_file user) _ s2.disk) λ _.
            Runs-sync_last _
              (Exists-write (downloaded_file user) (downloading_file user) _ s2.disk there)
              λ _. write-IsGood _ _ s2.disk (Fits-downloaded _ user) h2)

pub show_downloads-Good :
    (user : Text) (s : Tracker) → IsGood s.disk → Runs (show_downloads user) s Good
unfolding show_downloads
show_downloads-Good user s h =
    Runs-bind _ _ (fetch_details-Good s h.safe)
      λ _ s' h'. Runs-read_lines _ _ (Runs-read_lines _ _ (Runs-pure _ h'))
