-- ===== src/Tracker/Safety/Accounts.antt =====
-- `UserLogin`, `UserCreate` and `Logout` keep the files safe.
use torrent_based_file_shari.Common.{
  ℕ, ◌≤◌, refl, List, [], ◌++◌, arith, All-append, length, Text, codes, eq_text, split,
}
use torrent_based_file_shari.Common.Strings.Split.{length-split, split-pos}
use torrent_based_file_shari.Tracker.State.{
  Disk, lines, write, append_line, credential_file, online_file, user_file, downloading_file,
  downloaded_file, Tracker,
}
use torrent_based_file_shari.Tracker.Fetch.{space}
use torrent_based_file_shari.Tracker.Accounts.Hashing.{generate_salt}
use torrent_based_file_shari.Tracker.Accounts.{
  online_line, credential_line, come_online, user_login, user_create, logout,
}
use torrent_based_file_shari.Tracker.Safety.Rules.{
  Runs, Runs-bind, Runs-get, Runs-pure, Runs-when, Runs-if_found, Runs-on_disk, Runs-on_tables,
  Runs-sync, Runs-sync_last,
}
use torrent_based_file_shari.Tracker.Safety.Paths.{Fits-nil, Fits-online, Fits-credential}
use torrent_based_file_shari.Tracker.Safety.Fetching.{
  IsGood, Good, Exists-write, Exists-write_self, write-IsGood, fetch_details-Good,
  delete_line_at-Good,
}

-- The line that a sign-in adds has the three fields that `FetchDetails` reads.
online_line_fields : (user ip port : Text) → 3 ≤ length (split (online_line user ip port) space)
online_line_fields user ip port = omega (
  arith,
  length-split space user (ip ++ (codes " " ++ port)),
  length-split space ip port,
  split-pos space user,
  split-pos space ip,
  split-pos space port,
)

append_online-IsGood :
    (user ip port : Text) (d : Disk)
    → IsGood d
    → IsGood (append_line online_file (online_line user ip port) d)
append_online-IsGood user ip port d h =
    write-IsGood online_file _ d
      (Fits-online _
        (All-append _ (lines d online_file) _ h.safe.online (online_line_fields user ip port, tt)))
      h

pub come_online-Good :
    (user port ip : Text) (s : Tracker) → IsGood s.disk → Runs (come_online user port ip) s Good
unfolding come_online
come_online-Good user port ip s h = Runs-get _ (
    Runs-when _ _ _ (λ _. Runs-pure _ h)
      (λ _. Runs-on_tables _ _ (
        Runs-on_disk _ _ (
          Runs-sync_last _ (Exists-write_self online_file _ s.disk)
            (λ e. append_online-IsGood user ip port s.disk h)))))

module _ (sha256 : Text → List ℕ) where
  pub user_login-Good :
      (user password port ip : Text) (s : Tracker)
      → IsGood s.disk
      → Runs (user_login sha256 user password port ip) s Good
  unfolding user_login
  user_login-Good user password port ip s h = Runs-bind _ _ (fetch_details-Good s h.safe) λ _ s' h'.
      Runs-get _ (
        Runs-if_found _ _ _ (λ _. Runs-pure _ h')
          (λ stored _.
            Runs-when _ _ _
              (λ _.
                Runs-bind _ _ (come_online-Good user port ip s' h') (λ _ s'' h''. Runs-pure _ h''))
              (λ _. Runs-pure _ h')))

  -- The files of a new account, in the order in which they are written.
  unfoldable pub created : List ℕ → Text → Text → Text → Text → Disk → Disk
  created random user password port ip d = write (downloaded_file user) [] (
      write (downloading_file user) [] (
        write (user_file user) [] (
          append_line credential_file (credential_line sha256 user (generate_salt random) password)
            (append_line online_file (online_line user ip port) d))))

  pub created-IsGood :
      (random : List ℕ) (user password port ip : Text) (d : Disk)
      → IsGood d
      → IsGood (created random user password port ip d)
  unfolding created eq_text
  created-IsGood random user password port ip d h = write-IsGood _ [] _ (Fits-nil _ refl) (
      write-IsGood _ [] _ (Fits-nil _ refl) (
        write-IsGood _ [] _ (Fits-nil _ refl)
          (write-IsGood _ _ _ (Fits-credential _) (append_online-IsGood user ip port d h))))

  pub user_create-Good :
      (random : List ℕ) (user password port ip : Text) (s : Tracker)
      → IsGood s.disk
      → Runs (user_create sha256 random user password port ip) s Good
  unfolding user_create created
  user_create-Good random user password port ip s h =
      Runs-bind _ _ (fetch_details-Good s h.safe) λ _ s' h'. Runs-get _ (
        Runs-when _ _ _ (λ _. Runs-pure _ h')
          λ _. Runs-on_tables _ _ (
            Runs-on_disk _ _ (
              Runs-on_disk _ _ (
                Runs-on_disk _ _ (
                  Runs-on_disk _ _ (
                    Runs-on_disk _ _ (
                      Runs-sync _ _ (search (Exists-write, Exists-write_self)) λ e1.
                        Runs-sync _ _ (search (Exists-write, Exists-write_self)) λ e2.
                          Runs-sync _ _ (search (Exists-write, Exists-write_self)) λ e3.
                            Runs-sync _ _ (search (Exists-write, Exists-write_self)) λ e4.
                              Runs-sync _ _ (search (Exists-write, Exists-write_self)) λ e5.
                                Runs-bind _ _
                                  (fetch_details-Good _
                                    (created-IsGood random user password port ip s'.disk h').safe)
                                  λ _ s'' h''. Runs-pure _ h'')))))))

pub logout-Good : (user : Text) (s : Tracker) → IsGood s.disk → Runs (logout user) s Good
unfolding logout eq_text
logout-Good user s h = Runs-bind _ _ (fetch_details-Good s h.safe) λ _ s' h'. Runs-get _ (
    Runs-when _ _ _
      (λ _.
        Runs-bind _ _
          (delete_line_at-Good online_file user 0 3 s' h' h'.safe.online (omega arith) Fits-online
            refl)
          λ _ s2 (g2, there, _).
            Runs-sync _ _ there
              λ e. Runs-bind _ _ (fetch_details-Good _ g2.safe) λ _ s3 g3. Runs-pure _ g3)
      (λ _. Runs-pure _ h'))
