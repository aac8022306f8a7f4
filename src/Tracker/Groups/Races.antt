-- ===== src/Tracker/Groups/Races.antt =====
-- Two threads of one tracker in `GroupCreate` of tracker/tracker.cpp at the same time. `FetchDetails` clears the
-- tables before it takes the lock, and fills them under it; the files are written under the lock; the
-- look-up and the copies to the other tracker hold none. A step is what happens under one lock, or
-- between two. Steps may overlap (`overlapping`) or come one after the other (`interleave`). `group_members` and
-- the tables other than that of the groups have no part in it.
mod Alone
pub mod Files
pub mod Known
pub mod Crossing
pub mod Invariant
pub mod Steps
pub mod Schedules
use torrent_based_file_shari.Common.{
  ⊤, Bool, true, false, ◌&&◌, not, Option, none, some, List, [], ◌∷◌, if◌then◌else◌, Text, contains,
}
use torrent_based_file_shari.Tracker.State.{
  lines, write, append_line, group_file, members_file, shared_file, Tables, M, get, pure, expect,
  on_disk, on_tables, sync, ◌>>=◌, ◌>>◌, when◌perform◌otherwise◌,
}
use torrent_based_file_shari.Tracker.Fetch.{load, load_groups, create_files}
use torrent_based_file_shari.Tracker.Groups.{two_words}

abbrev pub no_tables : Tables
no_tables = record { credentials = []; online = []; online_users = []; groups = []; pending = [] }

-- `FetchDetails` before the lock, and under it: the groups are added to those that are in the table.
unfoldable pub clear_tables : M ⊤
clear_tables = on_tables (λ _. no_tables)

unfoldable pub read_in : M ⊤
read_in = do
  on_disk create_files
  s ← get
  t ← expect (load s.disk)
  groups ← expect (load_groups s.tables.groups (lines s.disk group_file))
  on_tables (λ _. record t { groups = groups })

-- Where a thread stands in `GroupCreate`: before and within its first `FetchDetails`, before the look-up, before the
-- files are written, before they are copied to the other tracker, before and within its second
-- `FetchDetails`, and after its answer.
pub data Creating : Type 0 where
  asked cleared fetched free wrote copied recleared : Creating
  answered : Bool → Creating

-- The steps that use the tables, the one of them that only reads, and the steps that hold `file_lock`.
abbrev pub uses_tables : Creating → Bool
uses_tables asked = true
uses_tables cleared = true
uses_tables fetched = true
uses_tables copied = true
uses_tables recleared = true
uses_tables _ = false

abbrev pub only_looks : Creating → Bool
only_looks fetched = true
only_looks _ = false

abbrev pub holds_lock : Creating → Bool
holds_lock cleared = true
holds_lock recleared = true
holds_lock free = true
holds_lock _ = false

-- Two steps that cannot be under way at once: the lock keeps them apart, or both use the tables, which is
-- undefined behaviour unless both only read.
unfoldable pub clash : Creating → Creating → Bool
clash x y =
    if holds_lock x && holds_lock y
    then true
    else uses_tables x && uses_tables y && not (only_looks x && only_looks y)

-- A step of the first (`true`) or of the second thread begins or ends.
pub data Event : Type 0 where
  step_begins step_ends : (first : Bool) → Event

module _ (group : Text) where
  unfoldable pub creating_step : Text → Creating → M Creating
  creating_step owner asked = do clear_tables; pure cleared
  creating_step owner cleared = do read_in; pure fetched
  creating_step owner fetched = do
    s ← get
    pure (if contains group s.tables.groups then answered false else free)
  creating_step owner free = do
    on_disk (append_line group_file (two_words group owner))
    on_disk (write (members_file group) (owner ∷ []))
    on_disk (write (shared_file group) [])
    pure wrote
  creating_step owner wrote = do
    sync group_file
    sync (members_file group)
    sync (shared_file group)
    pure copied
  creating_step owner copied = do clear_tables; pure recleared
  creating_step owner recleared = do read_in; pure (answered true)
  creating_step owner (answered r) = pure (answered r)

  -- Two threads, for two owners; `true` is a step of the first.
  unfoldable pub interleave :
      Text → Text → List Bool → Creating → Creating → M (Creating × Creating)
  interleave a b [] x y = pure (x, y)
  interleave a b (true ∷ turns) x y = do x' ← creating_step a x; interleave a b turns x' y
  interleave a b (false ∷ turns) x y = do y' ← creating_step b y; interleave a b turns x y'

  -- Two threads whose steps take time, and may be under way at once; a step works at its end. `p` and `q`
  -- say whether a step of the first and of the second thread is under way. The result is `none` where a step
  -- begins that clashes with one under way, and for events that are not those of two threads.
  unfoldable pub overlapping :
      Text
      → Text
      → List Event
      → Bool
      → Bool
      → Creating
      → Creating
      → M (Option (Creating × Creating))
  overlapping a b [] p q x y = pure (some (x, y))
  overlapping a b (step_begins true ∷ es) p q x y =
      when (if p then true else q && clash x y)
      perform pure none
      otherwise overlapping a b es true q x y
  overlapping a b (step_begins false ∷ es) p q x y =
      when (if q then true else p && clash x y)
      perform pure none
      otherwise overlapping a b es p true x y
  overlapping a b (step_ends true ∷ es) p q x y =
      when p
      perform (do x' ← creating_step a x; overlapping a b es false q x' y)
      otherwise pure none
  overlapping a b (step_ends false ∷ es) p q x y =
      when q
      perform (do y' ← creating_step b y; overlapping a b es p false x y')
      otherwise pure none

  -- The steps of a thread with no other.
  unfoldable pub alone : Text → M Creating
  alone owner = do
    x1 ← creating_step owner asked
    x2 ← creating_step owner x1
    x3 ← creating_step owner x2
    x4 ← creating_step owner x3
    x5 ← creating_step owner x4
    x6 ← creating_step owner x5
    creating_step owner x6
