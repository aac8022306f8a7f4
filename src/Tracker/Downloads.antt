-- ===== src/Tracker/Downloads.antt =====
-- Downloads: `SendSHA`, `UpdateDownload`, `CompleteDownload` and `ShowDownloads` of
-- tracker/tracker.cpp.
pub mod Life
use torrent_based_file_shari.Common.{
  ⊤, Bool, true, false, Option, none, some, List, [], ◌∷◌, ◌++◌, if◌then◌else◌, Text, codes,
  eq_text, newline, Table, lookup, contains, insert, mem_text,
}
use torrent_based_file_shari.Tracker.State.{
  append_line, shared_file, user_file, downloading_file, downloaded_file, M, get, pure, expect,
  on_disk, read_lines, sync, ◌>>=◌, ◌>>◌, when◌perform◌otherwise◌,
}
use torrent_based_file_shari.Tracker.Fetch.{bind, fetch_details, fetch_group_members}
use torrent_based_file_shari.Tracker.Files.{field, delete_line}
use torrent_based_file_shari.Tracker.Groups.{two_words}
use torrent_based_file_shari.Tracker.Sharing.{shared_line, path_line}

-- `unordered_map::insert`: an entry that is there stays.
abbrev pub insert_new : Text → Text → Table Text → Table Text
insert_new k v t = if contains k t then t else insert k v t

-- The names on the lines of a group's list, each with the hash on its first line.
unfoldable pub hashes_of : Table Text → List Text → Option (Table Text)
hashes_of t [] = some t
hashes_of t (l ∷ ls) = bind (field 3 l) λ n. bind (field 0 l) λ h. hashes_of (insert_new n h t) ls

abbrev pub or_empty : Option Text → Text
or_empty none = []
or_empty (some t) = t

-- `SendSHA` for a member of the group.
unfoldable pub give_hash : Text → Text → Text → M Text
give_hash group name user = do
  ls ← read_lines (shared_file group)
  hashes ← expect (hashes_of [] ls)
  on_disk (append_line (downloading_file user) (two_words group name))
  sync (downloading_file user)
  pure (or_empty (lookup name hashes))

unfoldable pub send_sha : Text → Text → Text → M Text
send_sha group name user = do
  fetch_details
  s ← get
  when contains group s.tables.groups
      perform (do
        fetch_group_members group
        s' ← get
        when mem_text user s'.group_members perform give_hash group name user otherwise pure [])
      otherwise pure []

-- The first loop of `UpdateDownload`: hash and size on the first line with the name.
unfoldable pub find_shared : Text → List Text → Option (Text × Text)
find_shared name [] = some ([], [])
find_shared name (l ∷ ls) =
    let rest = find_shared name ls in
    bind (field 3 l) λ n. elim (eq_text n name) [
      | true ↦ bind (field 0 l) λ h. bind (field 1 l) λ size. some (h, size)
      | false ↦ rest
    ]

-- Its second loop: whether a line of the user's list has the name, in whatever group.
unfoldable pub has_path : Text → List Text → Option Bool
has_path name [] = some false
has_path name (l ∷ ls) =
    let rest = has_path name ls in bind (field 1 l) λ n. if eq_text n name then some true else rest

-- Where the user's list has the name, `UpdateDownload` unlocks `file_lock`, which it does not hold, and
-- returns: that is undefined behaviour.
unfoldable pub update_download : Text → Text → Text → Text → M ⊤
update_download group name path user = do
  fetch_details
  ls ← read_lines (shared_file group)
  found ← expect (find_shared name ls)
  ls' ← read_lines (user_file user)
  known ← expect (has_path name ls')
  when known perform expect none otherwise (do
    on_disk (append_line (user_file user) (path_line group name path))
    on_disk (append_line (shared_file group) (shared_line found.0 found.1 user name))
    sync (shared_file group)
    sync (user_file user))

unfoldable pub complete_download : Text → Text → Text → M ⊤
complete_download group name user = do
  fetch_details
  delete_line (downloading_file user) (two_words group name)
  on_disk (append_line (downloaded_file user) (two_words group name))
  sync (downloaded_file user)
  sync (downloading_file user)

abbrev pub marked : Text → List Text → Text
marked mark [] = []
marked mark (l ∷ ls) = mark ++ (l ++ (newline ++ marked mark ls))

unfoldable pub show_downloads : Text → M Text
show_downloads user = do
  fetch_details
  ls ← read_lines (downloading_file user)
  ls' ← read_lines (downloaded_file user)
  pure (marked (codes "[D] ") ls ++ marked (codes "[C] ") ls')
