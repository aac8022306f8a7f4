-- ===== src/Tracker/Accounts/SignUp.antt =====
-- `UserCreate` and `UserLogin` together: what a sign-up stores, and which password signs in after it.
use torrent_based_file_shari.Common.{
  ℕ, ◌≡◌, refl, sym, ap, ◌∙◌, Bool, true, false, not, Option, none, some, List, [], ◌∷◌, ◌++◌,
  arith, if◌then◌else◌, Text, eq_text, eq_text_refl, Table, insert, lookup, contains,
}
use torrent_based_file_shari.Common.Strings.Words.{IsWord}
use torrent_based_file_shari.Tracker.State.{
  Disk, lines, credential_file, online_file, user_file, downloading_file, downloaded_file, Tables,
  Tracker, ◌>>=◌,
}
use torrent_based_file_shari.Tracker.Fetch.{load, create_files, fetch_details}
use torrent_based_file_shari.Tracker.Accounts.{
  salt_part, hash_part, credential_line, user_login, user_create,
}
use torrent_based_file_shari.Tracker.Accounts.Hashing.{generate_salt, hash_password}
use torrent_based_file_shari.Tracker.Accounts.Stored.{
  stored_text, stored_parts, credentials_of, load-credentials, credentials_of-append,
}
use torrent_based_file_shari.Tracker.Files.Deletion.{lines-create_files, Runs-fetch_details}
use torrent_based_file_shari.Tracker.Safety.Rules.{
  Runs, Runs-bind, Runs-get, Runs-pure, Runs-when, Runs-if_found, Runs-on_disk, Runs-on_tables,
  Runs-sync, Runs-both, Runs-weaken,
}
use torrent_based_file_shari.Tracker.Safety.Disk.{lines-write}
use torrent_based_file_shari.Tracker.Safety.Fetching.{
  IsGood, Exists-write, Exists-write_self, fetch_details-Good,
}
use torrent_based_file_shari.Tracker.Safety.Accounts.{created, created-IsGood, come_online-Good}

lookup-insert :
    (k : Text) (v : Text) (t : Table Text) → lookup k t ≡ none → lookup k (insert k v t) ≡ some v
unfolding lookup insert
lookup-insert k v [] h = ground (arith, eq_text_refl k)
lookup-insert k v ((j, w) ∷ t) h = ground (arith, eq_text_refl k, lookup-insert k v t)

abbrev pub credentials_on : Disk → Table Text
credentials_on d = credentials_of (lines d credential_file)

-- Reading the tables in again brings the credentials of the file.
fetched :
    (d d' : Disk) (t : Tables)
    → d' ≡ create_files d
    → load d' ≡ some t
    → (t.credentials ≡ credentials_on d) × (credentials_on d' ≡ credentials_on d)
fetched d d' t e l =
    let same : lines d' credential_file ≡ lines d credential_file =
      ap (λ x. lines x credential_file) e ∙ lines-create_files credential_file d in
    (load-credentials d' t l ∙ ap credentials_of same, ap credentials_of same)

fetched-IsGood :
    (s : Tracker)
    → IsGood s.disk
    → Runs fetch_details s (λ _ s'.
      (s'.tables.credentials ≡ credentials_on s.disk)
      × (credentials_on s'.disk ≡ credentials_on s.disk)
      × IsGood s'.disk)
fetched-IsGood s h =
    Runs-both (Runs-fetch_details s h.safe) (fetch_details-Good s h.safe)
      λ _ s' (e, l, _) g. (let (a, b) = fetched s.disk s'.disk s'.tables e l in (a, b, g))

module _ (sha256 : Text → List ℕ) where
  lines-created :
      (random : List ℕ) (user password port ip : Text) (d : Disk)
      → lines (created sha256 random user password port ip d) credential_file
        ≡ lines d credential_file
          ++ credential_line sha256 user (generate_salt random) password ∷ []
  unfolding created eq_text
  lines-created random user password port ip d =
      lines-write (downloaded_file user) credential_file [] _
      ∙ lines-write (downloading_file user) credential_file [] _
      ∙ lines-write (user_file user) credential_file [] _
      ∙ lines-write credential_file credential_file _ _
      ∙ ap (λ ls. ls ++ credential_line sha256 user (generate_salt random) password ∷ [])
          (lines-write online_file credential_file _ d)

  abbrev pub stored_for : List ℕ → Text → Text
  stored_for random password =
      stored_text (generate_salt random) (hash_password sha256 (generate_salt random) password)

  -- `UserCreate` refuses exactly the names that `.credential.txt` already has, and then adds nothing;
  -- otherwise it adds the salted hash of the password under the new name. Either way the table of the
  -- credentials is afterwards what the file says, and the files are good.
  pub user_create-Stored :
      (random : List ℕ) (user password port ip : Text) (s : Tracker)
      → IsWord user
      → IsGood s.disk
      → Runs (user_create sha256 random user password port ip) s (λ r s'.
        (r ≡ not (contains user (credentials_on s.disk)))
        × (credentials_on s'.disk ≡ (
            if r
            then insert user (stored_for random password) (credentials_on s.disk)
            else credentials_on s.disk))
        × (s'.tables.credentials ≡ credentials_on s'.disk)
        × IsGood s'.disk)
  unfolding user_create created
  user_create-Stored random user password port ip s w h =
      Runs-bind _ _ (fetched-IsGood s h) λ _ s1 (e1, e1', g1). Runs-get _ (
        Runs-when _ _ _
          (λ taken.
            Runs-pure _ (sym (ap not (ap (contains user) (sym e1) ∙ taken)), e1', e1 ∙ sym e1', g1))
          λ free. Runs-on_tables _ _ (
            Runs-on_disk _ _ (
              Runs-on_disk _ _ (
                Runs-on_disk _ _ (
                  Runs-on_disk _ _ (
                    Runs-on_disk _ _ (
                      Runs-sync _ _ (search (Exists-write, Exists-write_self)) λ _.
                        Runs-sync _ _ (search (Exists-write, Exists-write_self)) λ _.
                          Runs-sync _ _ (search (Exists-write, Exists-write_self)) λ _.
                            Runs-sync _ _ (search (Exists-write, Exists-write_self)) λ _.
                              Runs-sync _ _ (search (Exists-write, Exists-write_self)) λ _.
                                Runs-bind _ _
                                  (fetched-IsGood _
                                    (created-IsGood sha256 random user password port ip s1.disk g1))
                                  λ _ s2 (e2, e2', g2). Runs-pure _ (
                                    sym (ap not (ap (contains user) (sym e1) ∙ free)),
                                    e2'
                                        ∙ ap credentials_of
                                            (lines-created random user password port ip s1.disk)
                                        ∙ credentials_of-append sha256 random user password _ w
                                        ∙ ap (insert user (stored_for random password)) e1',
                                    e2 ∙ sym e2',
                                    g2,
                                  ))))))))

  -- What `UserLogin` answers: it looks only at the stored salt and hash of the user.
  user_login-answer :
      (user password port ip : Text) (s : Tracker) (stored : Text)
      → IsGood s.disk
      → lookup user (credentials_on s.disk) ≡ some stored
      → Runs
          (user_login sha256 user password port ip)
          s
          (λ r _. r ≡ eq_text (hash_password sha256 (salt_part stored) password) (hash_part stored))
  unfolding user_login
  user_login-answer user password port ip s stored h e =
      Runs-bind _ _ (fetched-IsGood s h) λ _ s1 (e1, _, g1). Runs-get _ (
        Runs-if_found _ _ _
          (λ missing. let no : none ≡ some stored = sym missing ∙ ap (lookup user) e1 ∙ e in cc)
          λ found f.
            let hit : some found ≡ some stored = sym f ∙ ap (lookup user) e1 ∙ e in
            let same : found ≡ stored = cc in
            Runs-when _ _ _
              (λ right. Runs-bind _ _ (come_online-Good user port ip s1 g1) λ _ _ _. Runs-pure _ (
                sym right
                ∙ ap (λ x. eq_text (hash_password sha256 (salt_part x) password) (hash_part x))
                    same))
              λ wrong. Runs-pure _ (
                sym wrong
                ∙ ap (λ x. eq_text (hash_password sha256 (salt_part x) password) (hash_part x))
                    same))

  -- After a sign-up under a free name, a sign-in with any password ends, and succeeds exactly when
  -- that password has, with the salt of the sign-up, the same hash text as the password signed up
  -- with; in particular the same password is always accepted.
  pub user_create-user_login :
      (random : List ℕ) (user password port ip password' port' ip' : Text) (s : Tracker)
      → IsWord user
      → IsGood s.disk
      → lookup user (credentials_on s.disk) ≡ none
      → Runs
          (user_create sha256 random user password port ip >>= λ created?.
            user_login sha256 user password' port' ip')
          s
          (λ r _.
            (r
              ≡ eq_text
                  (hash_password sha256 (generate_salt random) password')
                  (hash_password sha256 (generate_salt random) password))
            × (password' ≡ password → r ≡ true))
  user_create-user_login random user password port ip password' port' ip' s w h free =
      Runs-bind _ _ (user_create-Stored random user password port ip s w h)
        λ r s1 (yes_, added, _, g).
          Runs-weaken
            (user_login-answer user password' port' ip' s1 (stored_for random password) g
              (ap (lookup user) (stored_now r s1 yes_ added) ∙ lookup-insert user _ _ free))
            λ r2 s2 e.
              let (a, b) =
                stored_parts random (hash_password sha256 (generate_salt random) password) in
              let e' : r2
                  ≡ eq_text (hash_password sha256 (generate_salt random) password')
                      (hash_password sha256 (generate_salt random) password) =
                e ∙ rw (a, b) refl in
              (e', λ p. e' ∙ rw p (eq_text_refl _))
    where
      known : Option Text → Bool
      known o = elim o [ none ↦ false | some _ ↦ true ]

      stored_now :
          (r : Bool) (s1 : Tracker)
          → r ≡ not (contains user (credentials_on s.disk))
          → credentials_on s1.disk ≡ (
              if r
              then insert user (stored_for random password) (credentials_on s.disk)
              else credentials_on s.disk)
          → credentials_on s1.disk
            ≡ insert user (stored_for random password) (credentials_on s.disk)
      stored_now r s1 e added =
          let new : r ≡ true = e ∙ ap not (ap known free) in
          added
          ∙ ap
              (λ b.
                if b
                then insert user (stored_for random password) (credentials_on s.disk)
                else credentials_on s.disk)
              new
