-- ===== src/Tracker/Accounts.antt =====
-- Accounts: `HashPassword`, `UserCreate`, `UserLogin` and `Logout` of tracker/tracker.cpp.
-- SHA-256 (OpenSSL) is the parameter `sha256`, from bytes to bytes; the 16 bytes that `RAND_bytes`
-- draws for a new account are the argument `random`.
pub mod Hashing
pub mod Stored
pub mod SignUp
use torrent_based_file_shari.Common.{
  ⊤, ℕ, Bool, true, false, ◌==◌, Option, none, some, List, [], ◌∷◌, ◌++◌, if◌then◌else◌, Text,
  codes, eq_text, lookup, contains, set_insert, lt_text, mem_text,
}
use torrent_based_file_shari.Tracker.State.{
  lines, write, append_line, credential_file, online_file, user_file, downloading_file,
  downloaded_file, Tracker, M, get, pure, on_disk, on_tables, sync, ◌>>=◌, ◌>>◌,
  when◌perform◌otherwise◌, if_found,
}
use torrent_based_file_shari.Tracker.Fetch.{fetch_details}
use torrent_based_file_shari.Tracker.Files.{delete_line_at}
use Hashing.{generate_salt, hash_password, colon}

-- `stored.find(':')` and the two `substr` calls: without a colon both parts are the whole text.
unfoldable pub before_colon : Text → Text
before_colon [] = []
before_colon (c ∷ cs) = elim (c == colon) [ true ↦ [] | false ↦ c ∷ before_colon cs ]

unfoldable pub after_colon? : Text → Option Text
after_colon? [] = none
after_colon? (c ∷ cs) = elim (c == colon) [ true ↦ some cs | false ↦ after_colon? cs ]

abbrev pub salt_part : Text → Text
salt_part stored = before_colon stored

abbrev pub hash_part : Text → Text
hash_part stored = elim (after_colon? stored) [ none ↦ stored | some h ↦ h ]

abbrev pub online_line : Text → Text → Text → Text
online_line user ip port = user ++ (codes " " ++ (ip ++ (codes " " ++ port)))

-- The branch of `UserLogin` where the password is right.
unfoldable pub come_online : Text → Text → Text → M ⊤
come_online user port ip = do
  s ← get
  when mem_text user s.tables.online perform pure tt otherwise (do
    on_tables (λ t. record t { online = set_insert lt_text user t.online })
    on_disk (append_line online_file (online_line user ip port))
    sync online_file)

module _ (sha256 : Text → List ℕ) where
  abbrev pub credential_line : Text → Text → Text → Text
  credential_line user salt password =
      user ++ (codes " " ++ (salt ++ (codes ":" ++ hash_password sha256 salt password)))

  unfoldable pub user_login : Text → Text → Text → Text → M Bool
  user_login user password port ip = do
    fetch_details
    s ← get
    if_found (lookup user s.tables.credentials) (pure false) λ stored.
        when eq_text (hash_password sha256 (salt_part stored) password) (hash_part stored)
        perform (do come_online user port ip; pure true)
        otherwise pure false

  unfoldable pub user_create : List ℕ → Text → Text → Text → Text → M Bool
  user_create random user password port ip = do
    fetch_details
    s ← get
    when contains user s.tables.credentials perform pure false otherwise (do
      on_tables (λ t. record t { online = set_insert lt_text user t.online })
      on_disk (append_line online_file (online_line user ip port))
      on_disk (append_line credential_file (credential_line user (generate_salt random) password))
      on_disk (write (user_file user) [])
      on_disk (write (downloading_file user) [])
      on_disk (write (downloaded_file user) [])
      sync online_file
      sync credential_file
      sync (user_file user)
      sync (downloading_file user)
      sync (downloaded_file user)
      fetch_details
      pure true)

unfoldable pub logout : Text → M Bool
logout user = do
  fetch_details
  s ← get
  when mem_text user s.tables.online
      perform (do delete_line_at online_file user 0; sync online_file; fetch_details; pure true)
      otherwise pure false
