-- ===== src/Tracker/Safety/Sharing.antt =====
-- The operations on shared files keep the files safe.
use torrent_based_file_shari.Common.{
  ◌≤◌, refl, [], ◌++◌, arith, All-append, length, Text, codes, eq_text, split,
}
use torrent_based_file_shari.Common.Strings.Split.{length-split, split-pos}
use torrent_based_file_shari.Tracker.State.{
  Disk, lines, append_line, shared_file, user_file, Tracker,
}
use torrent_based_file_shari.Tracker.Fetch.{space}
use torrent_based_file_shari.Tracker.Files.{check_group_files, get_group_file_name, check_integrity}
use torrent_based_file_shari.Tracker.Sharing.{
  shared_line, path_line, nonempty_or, share, group_file_upload, unshare, group_stop_share,
  replace_file, group_file_list, send_seeders, send_details, get_full_path,
}
use torrent_based_file_shari.Tracker.Safety.Rules.{
  Runs, Runs-bind, Runs-get, Runs-pure, Runs-when, Runs-on_disk, Runs-on_tables, Runs-sync,
  Runs-expect, Runs-expect_last, Runs-read_lines,
}
use torrent_based_file_shari.Tracker.Safety.Disk.{IsUserName}
use torrent_based_file_shari.Tracker.Safety.Paths.{Fits-shared, Fits-user}
use torrent_based_file_shari.Tracker.Safety.Lines.{Has-keep_unless}
use torrent_based_file_shari.Tracker.Safety.Searches.{
  Has-has_upload, Has-name_of_hash, Has-has_conflict, Has-path_of, Has-names_of, Has-seeders_of,
}
use torrent_based_file_shari.Tracker.Safety.Fetching.{
  IsGood, Good, Exists-write, Exists-write_self, Exists-replace_file, Exists-replace_file_self,
  replace_file-IsGood, write-IsGood, fetch_details-Good, fetch_group_members-Good,
}

shared_line_fields :
    (hash size user name : Text) → 4 ≤ length (split (shared_line hash size user name) space)
shared_line_fields hash size user name = omega (
  arith,
  length-split space hash (size ++ (codes " " ++ (user ++ (codes " " ++ name)))),
  length-split space size (user ++ (codes " " ++ name)),
  length-split space user name,
  split-pos space hash,
  split-pos space size,
  split-pos space user,
  split-pos space name,
)

path_line_fields : (group name path : Text) → 3 ≤ length (split (path_line group name path) space)
path_line_fields group name path = omega (
  arith,
  length-split space group (name ++ (codes " " ++ path)),
  length-split space name path,
  split-pos space group,
  split-pos space name,
  split-pos space path,
)

-- A new line in a group's list or in a user's.
pub append_shared-IsGood :
    (group hash size user name : Text) (d : Disk)
    → IsGood d
    → IsGood (append_line (shared_file group) (shared_line hash size user name) d)
append_shared-IsGood group hash size user name d h =
    write-IsGood _ _ d
      (Fits-shared _ group (
        All-append _ (lines d (shared_file group)) _ (h.safe.shared group)
          (shared_line_fields hash size user name, tt)))
      h

pub append_path-IsGood :
    (user group name path : Text) (d : Disk)
    → IsUserName user
    → IsGood d
    → IsGood (append_line (user_file user) (path_line group name path) d)
append_path-IsGood user group name path d u h =
    write-IsGood _ _ d
      (Fits-user _ user (
        All-append _ (lines d (user_file user)) _ (h.safe.users user u)
          (path_line_fields group name path, tt)))
      h

module _ (hash size group user name path : Text) where
  check_group_files-Good :
      (s : Tracker) → IsGood s.disk → Runs (check_group_files hash (shared_file group) user) s Good
  unfolding check_group_files
  check_group_files-Good s h =
      let (r, e) = Has-has_upload hash user _ (h.safe.shared group) in
      Runs-read_lines _ _ (Runs-expect_last r e h)

  get_group_file_name-Good :
      (s : Tracker) → IsGood s.disk → Runs (get_group_file_name hash (shared_file group)) s Good
  unfolding get_group_file_name
  get_group_file_name-Good s h =
      let (r, e) = Has-name_of_hash hash user _ (h.safe.shared group) in
      Runs-read_lines _ _ (Runs-expect_last r e h)

  check_integrity-Good :
      (n : Text) (s : Tracker)
      → IsGood s.disk
      → Runs (check_integrity hash (shared_file group) n) s Good
  unfolding check_integrity
  check_integrity-Good n s h =
      let (r, e) = Has-has_conflict hash n _ (h.safe.shared group) in
      Runs-read_lines _ _ (Runs-expect_last r e h)

  share-Good :
      (s : Tracker)
      → IsUserName user
      → IsGood s.disk
      → Runs (share hash size group user name path) s Good
  unfolding share
  share-Good s u h = Runs-bind _ _ (check_group_files-Good s h) λ known s1 h1.
      Runs-when _ _ _ (λ _. Runs-pure _ h1)
        λ _. Runs-bind _ _ (get_group_file_name-Good s1 h1) λ given s2 h2.
          Runs-bind _ _ (check_integrity-Good (nonempty_or given name) s2 h2) λ conflict s3 h3.
            Runs-when _ _ _ (λ _. Runs-pure _ h3)
              λ _. Runs-on_disk _ _ (
                Runs-on_disk _ _ (
                  Runs-sync _ _ (search (Exists-write, Exists-write_self)) λ e1.
                    Runs-sync _ _ (search (Exists-write, Exists-write_self)) λ e2. Runs-pure _ (
                      append_path-IsGood user group (nonempty_or given name) path _ u (
                        append_shared-IsGood group hash size user (nonempty_or given name) s3.disk
                          h3))))

  pub group_file_upload-Good :
      (s : Tracker)
      → IsUserName user
      → IsGood s.disk
      → Runs (group_file_upload hash size group user name path) s Good
  unfolding group_file_upload
  group_file_upload-Good s u h = Runs-get _ (
      Runs-when _ _ _
        (λ _.
          Runs-bind _ _ (fetch_group_members-Good group s h)
            λ _ s' h'. Runs-get _ (Runs-when _ _ _ (λ _. share-Good s' u h') (λ _. Runs-pure _ h')))
        (λ _. Runs-pure _ h))

module _ (group name user : Text) where
  unshare-Good :
      (s : Tracker) → IsUserName user → IsGood s.disk → Runs (unshare group name user) s Good
  unfolding unshare eq_text
  unshare-Good s u h =
      let (k1, e1, f1) =
        Has-keep_unless 4 3 name 2 user (lines s.disk (shared_file group)) (h.safe.shared group)
          (omega arith) (omega arith) in
      let d1 = replace_file (shared_file group) k1 s.disk in
      let g1 : IsGood d1 =
        replace_file-IsGood (shared_file group) k1 s.disk (Fits-shared k1 group f1) h in
      let (k2, e2, f2) =
        Has-keep_unless 3 0 group 1 name (lines d1 (user_file user)) (g1.safe.users user u)
          (omega arith) (omega arith) in
      Runs-read_lines _ _ (
        Runs-expect _ k1 e1 (
          Runs-on_disk _ _ (
            Runs-read_lines _ _ (
              Runs-expect _ k2 e2 (
                Runs-on_disk _ _ (
                  Runs-sync _ _
                    (Exists-replace_file (user_file user) (shared_file group) k2 d1 refl
                      (Exists-replace_file_self (shared_file group) k1 s.disk refl))
                    λ _. Runs-sync _ _ (Exists-replace_file_self (user_file user) k2 d1 refl) λ _.
                      Runs-pure _
                        (replace_file-IsGood (user_file user) k2 d1 (Fits-user k2 user f2) g1)))))))

  pub group_stop_share-Good :
      (s : Tracker)
      → IsUserName user
      → IsGood s.disk
      → Runs (group_stop_share group name user) s Good
  unfolding group_stop_share
  group_stop_share-Good s u h = Runs-get _ (
      Runs-when _ _ _
        (λ _.
          Runs-bind _ _ (fetch_group_members-Good group s h) λ _ s' h'.
            Runs-get _ (Runs-when _ _ _ (λ _. unshare-Good s' u h') (λ _. Runs-pure _ h')))
        (λ _. Runs-pure _ h))

  pub group_file_list-Good : (s : Tracker) → IsGood s.disk → Runs (group_file_list group) s Good
  unfolding group_file_list
  group_file_list-Good s h = Runs-bind _ _ (fetch_details-Good s h.safe) λ _ s' h'. Runs-get _ (
      Runs-when _ _ _
        (λ _.
          let (r, e) = Has-names_of [] (lines s'.disk (shared_file group)) (h'.safe.shared group) in
          Runs-read_lines _ _ (Runs-expect _ r e (Runs-pure _ h')))
        (λ _. Runs-pure _ h'))

  pub send_seeders-Good : (s : Tracker) → IsGood s.disk → Runs (send_seeders group name) s Good
  unfolding send_seeders
  send_seeders-Good s h = Runs-bind _ _ (fetch_details-Good s h.safe) λ _ s' h'.
      let (r, e) =
        Has-seeders_of name s'.tables.online ([], []) (lines s'.disk (shared_file group))
          (h'.safe.shared group) in
      Runs-get _ (Runs-read_lines _ _ (Runs-expect _ r e (Runs-pure _ h')))

  pub get_full_path-Good :
      (s : Tracker) → IsUserName user → IsGood s.disk → Runs (get_full_path user group name) s Good
  unfolding get_full_path
  get_full_path-Good s u h =
      let (r, e) = Has-path_of group name (lines s.disk (user_file user)) (h.safe.users user u) in
      Runs-read_lines _ _ (Runs-expect_last r e h)

pub send_details-Good :
    (user : Text) (s : Tracker) → IsGood s.disk → Runs (send_details user) s Good
unfolding send_details
send_details-Good user s h =
    Runs-bind _ _ (fetch_details-Good s h.safe)
      λ _ s' h'. Runs-get _ (Runs-on_tables _ _ (Runs-pure _ h'))
