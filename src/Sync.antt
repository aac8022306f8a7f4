-- ===== src/Sync.antt =====
-- The synchronisation of the two trackers: tracker/trackersync.cpp. The sender of a file writes it
-- in blocks of `MAX_SIZE` bytes, then the text "Sync Over"; the receiver appends what each read
-- gives until a read gives that text. TLS carries a write as records of which a read gives one:
-- that is OpenSSL's, the parameter `records`.
pub mod All
pub mod Blocks
pub mod Exchange
pub mod Stale
pub mod Startup
mod Tests
use torrent_based_file_shari.Common.{
  ⊤, ℕ, zero, Bool, true, false, Option, none, some, List, [], ◌∷◌, ◌++◌, if◌then◌else◌, ◌==◌,
  length, blocks, Text, codes, eq_text, each_with, newline,
}
use torrent_based_file_shari.Tracker.State.{
  write, M, on_disk, expect, pure, sync, ◌>>=◌, ◌>>◌, when◌perform◌otherwise◌,
}

-- `GetTracker2`: the index of the other tracker.
unfoldable pub get_tracker2 : ℕ → ℕ
get_tracker2 i = if i == 0 then 1 else 0

abbrev pub max_size : ℕ
max_size = 65535

abbrev pub sync_over : Text
sync_over = codes "Sync Over"

-- The bytes of a file of lines, and the lines that `getline` reads from bytes.
abbrev pub file_bytes : List Text → Text
file_bytes = each_with newline

abbrev pub push_line : Text → List Text
push_line [] = []
push_line (c ∷ cs) = (c ∷ cs) ∷ []

unfoldable pub getlines_from : Text → Text → List Text
getlines_from temp [] = push_line temp
getlines_from temp (c ∷ cs) = elim (c == 10) [
  | true ↦ temp ∷ getlines_from [] cs
  | false ↦ getlines_from (temp ++ c ∷ []) cs
]

unfoldable pub getlines : Text → List Text
unfolding getlines_from
getlines bytes = getlines_from [] bytes

-- The `fread` loop of `Sync`; each block is at least one byte long, so the fuel is enough.
unfoldable pub file_blocks : ℕ → Text → List Text
file_blocks n bytes = blocks (length bytes) n bytes

-- What `Sync` writes after its command: the file, then the end mark.
unfoldable pub sync_send : Text → List Text
sync_send bytes = file_blocks max_size bytes ++ sync_over ∷ []

-- The loop of `SyncRecv` on what its reads give: `none` where the end mark has not come.
unfoldable pub sync_loop : Text → List Text → Option Text
sync_loop out [] = none
sync_loop out (m ∷ ms) = if eq_text m sync_over then some out else sync_loop (out ++ m) ms

-- `SyncRecv`
unfoldable pub sync_recv : Text → List Text → M ⊤
sync_recv file reads = do bytes ← expect (sync_loop [] reads); on_disk (write file (getlines bytes))

abbrev pub entry_file : Text → Text
entry_file name = codes ".all_files" ++ (codes "/" ++ name)

-- `SyncAllHandler`: the names are what `readdir` gives for `.all_files`.
unfoldable pub sync_all_handler : List Text → M ⊤
sync_all_handler [] = pure tt
sync_all_handler (name ∷ names) = do
  when (if eq_text name (codes ".") then true else eq_text name (codes ".."))
      perform pure tt
      otherwise sync (entry_file name)
  sync_all_handler names
