-- ===== src/Tracker/Fetch.antt =====
-- `FetchDetails` and `FetchGroupMembers`: the tables as they are read from the files.
use torrent_based_file_shari.Common.{
  ⊤, ℕ, Option, none, some, List, [], ◌∷◌, get_elem?, Text, split, words, Table, insert, set_insert,
  lt_text, lt_pair,
}
use torrent_based_file_shari.Tracker.State.{
  Disk, lines, write, credential_file, online_file, group_file, pending_file, members_file, Tables,
  M, on_disk, read_lines, modify, get, expect, ◌>>=◌, ◌>>◌,
}

abbrev pub space : ℕ
space = 32

-- `line_object>>line1; line_object>>line2;`: where a word is missing its variable keeps its value.
abbrev pub read_two : List Text → Text × Text → Text × Text
read_two [] kept = kept
read_two (w ∷ []) (_, kept) = (w, kept)
read_two (w ∷ w' ∷ _) _ = (w, w')

-- The loop over `.credential.txt`; the first component is `line1` and `line2`.
unfoldable pub load_credentials : Text × Text → Table Text → List Text → (Text × Text) × Table Text
load_credentials kept t [] = (kept, t)
load_credentials kept t (l ∷ ls) =
    let (name, stored) = read_two (words l) kept in
    load_credentials (name, stored) (insert name stored t) ls

abbrev pub bind {ℓ κ} : {A : Type ℓ} {B : Type κ} → Option A → (A → Option B) → Option B
bind none f = none
bind (some a) f = f a

-- The loop over `.online.txt`.
unfoldable pub load_online :
    List Text × Table (Text × Text) → List Text → Option (List Text × Table (Text × Text))
load_online t [] = some t
load_online (online, users) (l ∷ ls) = bind (get_elem? (split l space) 0) λ name.
    bind (get_elem? (split l space) 1) λ ip.
      bind (get_elem? (split l space) 2)
        λ port. load_online (set_insert lt_text name online, insert name (ip, port) users) ls

-- The loop over `.group.txt`.
unfoldable pub load_groups : Table Text → List Text → Option (Table Text)
load_groups t [] = some t
load_groups t (l ∷ ls) =
    bind (get_elem? (split l space) 0)
      λ name. bind (get_elem? (split l space) 1) λ owner. load_groups (insert name owner t) ls

-- The loop over `.pending.txt`, which goes on with the `line1` and `line2` of the first loop.
unfoldable pub load_pending : Text × Text → List (Text × Text) → List Text → List (Text × Text)
load_pending kept t [] = t
load_pending kept t (l ∷ ls) =
    let (user, group) = read_two (words l) kept in
    load_pending (user, group) (set_insert lt_pair (user, group) t) ls

unfoldable pub load : Disk → Option Tables
load d =
    let (kept, credentials) = load_credentials ([], []) [] (lines d credential_file) in
    bind (load_online ([], []) (lines d online_file)) λ on.
      bind (load_groups [] (lines d group_file)) λ groups. some (record {
        credentials = credentials;
        online = on.0;
        online_users = on.1;
        groups = groups;
        pending = load_pending kept [] (lines d pending_file);
      })

-- The `else` branches: a file that cannot be opened is created empty.
abbrev pub create_missing : Text → Disk → Disk
create_missing p d = elim (d p) [ none ↦ write p [] d | some _ ↦ d ]

unfoldable pub create_files : Disk → Disk
create_files d =
    create_missing pending_file
      (create_missing group_file (create_missing online_file (create_missing credential_file d)))

unfoldable pub fetch_details : M ⊤
fetch_details = do
  on_disk create_files
  s ← get
  t ← expect (load s.disk)
  modify (λ s. record s { tables = t })

unfoldable pub members : List Text → List Text → List Text
members t [] = t
members t (l ∷ ls) = members (set_insert lt_text l t) ls

unfoldable pub fetch_group_members : Text → M ⊤
fetch_group_members group = do
  ls ← read_lines (members_file group)
  modify (λ s. record s { group_members = members [] ls })
