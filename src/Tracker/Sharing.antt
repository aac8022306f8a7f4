-- ===== src/Tracker/Sharing.antt =====
-- Shared files: `GroupFileUpload`, `GroupStopShare`, `GroupFileList`, `SendSeeders`, `SendDetails` and
-- `GetFullPath` of tracker/tracker.cpp.
pub mod Integrity
pub mod Seeders
pub mod Upload
pub mod Withdraw
use torrent_based_file_shari.Common.{
  ⊤, ℕ, Bool, true, false, Option, none, some, List, [], ◌∷◌, ◌++◌, if◌then◌else◌, Text, codes,
  eq_text, each_with, newline, lookup, contains, set_insert, lt_text, mem_text,
}
use torrent_based_file_shari.Tracker.State.{
  Disk, write, remove, append_line, temp_file, shared_file, user_file, Tracker, M, get, pure,
  expect, on_disk, on_tables, read_lines, sync, ◌>>=◌, ◌>>◌, when◌perform◌otherwise◌, if_found,
}
use torrent_based_file_shari.Tracker.Fetch.{bind, fetch_details, fetch_group_members}
use torrent_based_file_shari.Tracker.Files.{
  field, check_group_files, get_group_file_name, check_integrity,
}
use torrent_based_file_shari.Tracker.Groups.{touch}

-- A line of a group's list of files: hash, size, seeder, name.
abbrev pub shared_line : Text → Text → Text → Text → Text
shared_line hash size user name =
    hash ++ (codes " " ++ (size ++ (codes " " ++ (user ++ (codes " " ++ name)))))

-- A line of a user's list: group, name, path.
abbrev pub path_line : Text → Text → Text → Text
path_line group name path = group ++ (codes " " ++ (name ++ (codes " " ++ path)))

abbrev pub nonempty_or : Text → Text → Text
nonempty_or [] other = other
nonempty_or (c ∷ cs) other = c ∷ cs

-- `GroupFileUpload` behind the test on the members.
unfoldable pub share : Text → Text → Text → Text → Text → Text → M Bool
share hash size group user name path = do
  known ← check_group_files hash (shared_file group) user
  when known perform pure true otherwise (do
    given ← get_group_file_name hash (shared_file group)
    conflict ← check_integrity hash (shared_file group) (nonempty_or given name)
    when conflict perform pure false otherwise (do
      on_disk
          (append_line (shared_file group) (shared_line hash size user (nonempty_or given name)))
      on_disk (append_line (user_file user) (path_line group (nonempty_or given name) path))
      sync (shared_file group)
      sync (user_file user)
      pure true))

unfoldable pub group_file_upload : Text → Text → Text → Text → Text → Text → M Bool
group_file_upload hash size group user name path = do
  s ← get
  when contains group s.tables.groups
      perform (do
        fetch_group_members group
        s' ← get
        when mem_text user s'.group_members
            perform share hash size group user name path
            otherwise pure false)
      otherwise pure false

-- The lines on which not both fields have the given texts; the second is read where the first fits.
unfoldable pub keep_unless : ℕ → Text → ℕ → Text → List Text → Option (List Text)
keep_unless i x j y [] = some []
keep_unless i x j y (l ∷ ls) =
    let rest = keep_unless i x j y ls in
    let kept = bind rest (λ r. some (l ∷ r)) in
    bind (field i l) λ f. elim (eq_text f x) [
      | true ↦ bind (field j l) λ g. if eq_text g y then rest else kept
      | false ↦ kept
    ]

-- `.temp.txt` is truncated here, then takes the file's name.
unfoldable pub replace_file : Text → List Text → Disk → Disk
replace_file file kept d = remove temp_file (write file kept d)

unfoldable pub unshare : Text → Text → Text → M Bool
unshare group name user = do
  ls ← read_lines (shared_file group)
  kept ← expect (keep_unless 3 name 2 user ls)
  on_disk (replace_file (shared_file group) kept)
  ls' ← read_lines (user_file user)
  kept' ← expect (keep_unless 0 group 1 name ls')
  on_disk (replace_file (user_file user) kept')
  sync (shared_file group)
  sync (user_file user)
  pure true

unfoldable pub group_stop_share : Text → Text → Text → M Bool
group_stop_share group name user = do
  s ← get
  when (if contains group s.tables.groups then contains user s.tables.credentials else false)
      perform (do
        fetch_group_members group
        s' ← get
        when mem_text user s'.group_members perform unshare group name user otherwise pure false)
      otherwise pure false

-- The set of the names on the lines of a group's list.
unfoldable pub names_of : List Text → List Text → Option (List Text)
names_of t [] = some t
names_of t (l ∷ ls) = bind (field 3 l) λ n. names_of (set_insert lt_text n t) ls

unfoldable pub group_file_list : Text → M Text
group_file_list group = do
  fetch_details
  s ← get
  when contains group s.tables.groups
      perform (do
        ls ← read_lines (shared_file group)
        names ← expect (names_of [] ls)
        pure (each_with newline names))
      otherwise pure []

-- The loop of `SendSeeders`: the size on the last line with the name, and the seeders online.
unfoldable pub seeders_of :
    Text → List Text → Text × List Text → List Text → Option (Text × List Text)
seeders_of name online (size, seeders) [] = some (size, seeders)
seeders_of name online (size, seeders) (l ∷ ls) = bind (field 3 l) λ n.
    bind
      (if eq_text n name
        then bind (field 1 l) (λ size'. bind (field 2 l) (λ user.
          some (size', if mem_text user online then set_insert lt_text user seeders else seeders)))
        else some (size, seeders))
      (λ acc. seeders_of name online acc ls)

abbrev pub seeders_reply : Text × List Text → Text
seeders_reply (size, []) = []
seeders_reply (size, u ∷ us) = each_with (codes " ") (u ∷ us) ++ size

unfoldable pub send_seeders : Text → Text → M Text
send_seeders group name = do
  fetch_details
  s ← get
  ls ← read_lines (shared_file group)
  found ← expect (seeders_of name s.tables.online ([], []) ls)
  pure (seeders_reply found)

abbrev pub or_blank : Option (Text × Text) → Text × Text
or_blank none = ([], [])
or_blank (some e) = e

unfoldable pub send_details : Text → M Text
send_details user = do
  fetch_details
  s ← get
  on_tables (λ t. record t { online_users = touch user t.online_users })
  let e = or_blank (lookup user s.tables.online_users)
  pure (e.0 ++ (codes " " ++ e.1))

-- The loop of `GetFullPath`: the path on the first line with this group and name.
unfoldable pub path_of : Text → Text → List Text → Option Text
path_of group name [] = some []
path_of group name (l ∷ ls) =
    let rest = path_of group name ls in
    bind (field 0 l) λ g. elim (eq_text g group) [
      | true ↦ bind (field 1 l) λ n. elim (eq_text n name) [ true ↦ field 2 l | false ↦ rest ]
      | false ↦ rest
    ]

unfoldable pub get_full_path : Text → Text → Text → M Text
get_full_path user group name = do ls ← read_lines (user_file user); expect (path_of group name ls)
