-- ===== src/Tracker/Groups.antt =====
-- Groups and their members: `GroupCreate`, `GroupList`, `GroupRequestList`, `GroupJoin`,
-- `GroupAcceptRequest` and `GroupLeave` of tracker/tracker.cpp. `GroupJoin`, `GroupAcceptRequest` and
-- `GroupLeave` read the global tables as the last `FetchDetails` left them.
pub mod Membership
pub mod Races
pub mod Creation
pub mod Joining
pub mod Leaving
use torrent_based_file_shari.Common.{
  ⊤, ◌≡◌, Bool, true, false, not, ◌||◌, Option, none, some, List, [], ◌∷◌, ◌++◌, if◌then◌else◌,
  Text, codes, eq_text, newline, eq_pair, Table, lookup, insert, contains, set_insert, lt_pair,
  mem_text, mem_pair,
}
use torrent_based_file_shari.Tracker.State.{
  write, append_line, group_file, pending_file, members_file, shared_file, user_file, Tables,
  Tracker, M, get, pure, on_disk, on_tables, sync, ◌>>=◌, ◌>>◌, when◌perform◌otherwise◌, if_found,
}
use torrent_based_file_shari.Tracker.Fetch.{fetch_details, fetch_group_members}
use torrent_based_file_shari.Tracker.Files.{delete_line_at, delete_line}

-- Two words with the blank between them, as most files store them.
abbrev pub two_words : Text → Text → Text
two_words a b = a ++ (codes " " ++ b)

unfoldable pub group_create : Text → Text → M Bool
group_create group owner = do
  fetch_details
  s ← get
  when contains group s.tables.groups perform pure false otherwise (do
    on_disk (append_line group_file (two_words group owner))
    on_disk (write (members_file group) (owner ∷ []))
    on_disk (write (shared_file group) [])
    sync group_file
    sync (members_file group)
    sync (shared_file group)
    fetch_details
    pure true)

unfoldable pub list_names : Table Text → Text
list_names [] = []
list_names ((name, _) ∷ gs) = name ++ (newline ++ list_names gs)

-- The order of an `unordered_map` is unspecified; here it is the order of insertion.
unfoldable pub group_list : M Text
unfolding list_names
group_list = do fetch_details; s ← get; pure (list_names s.tables.groups)

unfoldable pub list_requests : Text → List (Text × Text) → Text
list_requests group [] = []
list_requests group ((user, g) ∷ ps) =
    let rest = list_requests group ps in if eq_text g group then user ++ (newline ++ rest) else rest

unfoldable pub group_request_list : Text → Text → M Text
unfolding list_requests
group_request_list group user = do
  fetch_details
  s ← get
  if_found (lookup group s.tables.groups) (pure []) λ owner.
      when eq_text user owner perform pure (list_requests group s.tables.pending) otherwise pure []

-- `online_users[key]`: a missing entry is made.
abbrev pub touch : Text → Table (Text × Text) → Table (Text × Text)
touch k t = if contains k t then t else insert k ([], []) t

-- Appending to `.pending.txt` and to the set in memory.
abbrev pub add_request : Text → Text → M ⊤
add_request user group = do
  on_disk (append_line pending_file (two_words user group))
  on_tables (λ t. record t { pending = set_insert lt_pair (user, group) t.pending })

-- The part of `GroupJoin` behind the early returns.
unfoldable pub request_to_join : Text → Text → Text → M Bool
request_to_join group user owner = do
  s ← get
  when mem_text owner s.tables.online
      perform (do
        on_tables (λ t. record t { online_users = touch owner t.online_users })
        add_request user group)
      otherwise (when mem_pair (user, group) s.tables.pending
          perform pure tt
          otherwise add_request user group)
  sync pending_file
  pure true

unfoldable pub group_join : Text → Text → M Bool
group_join group user = do
  s ← get
  if_found (lookup group s.tables.groups) (pure false) λ owner. do
    fetch_group_members group
    s' ← get
    when mem_text user s'.group_members perform pure true otherwise request_to_join group user owner

-- The guard of `GroupAcceptRequest`: the group's owner asks, for a known user with a request.
abbrev pub may_accept : Text → Text → Text → Tables → Bool
may_accept group user owner t = elim (lookup group t.groups) [
  | none ↦ false
  | some o ↦
      if eq_text o owner
      then (if contains user t.credentials then mem_pair (user, group) t.pending else false)
      else false
]

unfoldable pub group_accept_request : Text → Text → Text → M Bool
group_accept_request group user owner = do
  s ← get
  when may_accept group user owner s.tables
      perform (do
        fetch_group_members group
        s' ← get
        when mem_text user s'.group_members perform pure true otherwise (do
          on_disk (append_line (members_file group) user)
          delete_line pending_file (two_words user group)
          sync pending_file
          sync (members_file group)
          pure true))
      otherwise pure false

-- The deletions of `GroupLeave`, then the copies to the sibling.
unfoldable pub drop_member : Text → Text → M Bool
drop_member group user = do
  delete_line_at (members_file group) user 0
  delete_line_at (shared_file group) user 2
  delete_line_at (user_file user) group 0
  sync (members_file group)
  sync (shared_file group)
  sync (user_file user)
  fetch_details
  pure true

unfoldable pub group_leave : Text → Text → M Bool
group_leave group user = do
  s ← get
  if_found (lookup group s.tables.groups) (pure false) λ owner. do
    fetch_group_members group
    s' ← get
    when mem_text user s'.group_members
        perform (when eq_text owner user perform pure false otherwise drop_member group user)
        otherwise pure false
