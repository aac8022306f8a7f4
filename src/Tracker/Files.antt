-- ===== src/Tracker/Files.antt =====
-- The helpers of tracker/tracker.cpp that read and rewrite one file line by line.
pub mod Deletion
use torrent_based_file_shari.Common.{
  ⊤, ℕ, Bool, true, false, not, Option, none, some, List, [], ◌∷◌, ◌++◌, if◌then◌else◌, get_elem?,
  keep, Text, eq_text, split,
}
use torrent_based_file_shari.Tracker.State.{
  Disk, lines, write, remove, temp_file, M, on_disk, read_lines, expect, ◌>>=◌, ◌>>◌,
}
use torrent_based_file_shari.Tracker.Fetch.{space, bind}

-- `split(line,' ')[index]`.
abbrev pub field : ℕ → Text → Option Text
field index line = get_elem? (split line space) index

-- The lines whose field `index` is not `text`.
unfoldable pub keep_other : Text → ℕ → List Text → Option (List Text)
keep_other text index [] = some []
keep_other text index (l ∷ ls) =
    let rest = keep_other text index ls in
    bind (field index l) λ f. if eq_text f text then rest else bind rest λ kept. some (l ∷ kept)

-- The kept lines are appended to `.temp.txt`, which then takes the file's name.
unfoldable pub replace_by_temp : Text → List Text → Disk → Disk
replace_by_temp file kept d = remove temp_file (write file (lines d temp_file ++ kept) d)

-- `DeleteLine(filename, data, index)`
unfoldable pub delete_line_at : Text → Text → ℕ → M ⊤
delete_line_at file text index = do
  ls ← read_lines file
  kept ← expect (keep_other text index ls)
  on_disk (replace_by_temp file kept)

-- `DeleteLine(filename, data)`
unfoldable pub delete_line : Text → Text → M ⊤
delete_line file text = do
  ls ← read_lines file
  on_disk (replace_by_temp file (keep (λ l. not (eq_text l text)) ls))

-- The loop of `CheckGroupFiles`; the third field is read only where the hash fits.
unfoldable pub has_upload : Text → Text → List Text → Option Bool
has_upload hash user [] = some false
has_upload hash user (l ∷ ls) =
    let rest = has_upload hash user ls in
    bind (field 0 l) λ h. elim (eq_text h hash) [
      | true ↦ bind (field 2 l) λ u. if eq_text u user then some true else rest
      | false ↦ rest
    ]

unfoldable pub check_group_files : Text → Text → Text → M Bool
check_group_files hash file user = do ls ← read_lines file; expect (has_upload hash user ls)

-- The loop of `GetGroupFileName`.
unfoldable pub name_of_hash : Text → List Text → Option Text
name_of_hash hash [] = some []
name_of_hash hash (l ∷ ls) =
    let rest = name_of_hash hash ls in
    bind (field 0 l) λ h. elim (eq_text h hash) [ true ↦ field 3 l | false ↦ rest ]

unfoldable pub get_group_file_name : Text → Text → M Text
get_group_file_name hash file = do ls ← read_lines file; expect (name_of_hash hash ls)

-- The loop of `CheckIntegrity`: a line with another hash and this file name.
unfoldable pub has_conflict : Text → Text → List Text → Option Bool
has_conflict hash name [] = some false
has_conflict hash name (l ∷ ls) =
    let rest = has_conflict hash name ls in
    bind (field 0 l) λ h. elim (eq_text h hash) [
      | true ↦ rest
      | false ↦ bind (field 3 l) λ n. if eq_text n name then some true else rest
    ]

unfoldable pub check_integrity : Text → Text → Text → M Bool
check_integrity hash file name = do ls ← read_lines file; expect (has_conflict hash name ls)
