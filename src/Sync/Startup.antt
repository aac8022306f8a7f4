-- ===== src/Sync/Startup.antt =====
-- The start of a tracker beside one that runs: `IsOnline` and `SyncAll` of tracker/trackersync.cpp,
-- which `main` of tracker/tracker.cpp calls before it creates the thread that listens, and what the
-- other tracker's `SyncAllHandler` then reaches.
use torrent_based_file_shari.Common.{
  ℕ, Bool, Option, some, List, if◌then◌else◌, get_elem?, Text, codes,
}
use torrent_based_file_shari.Common.Decimal.{ℤ, atoi}
use torrent_based_file_shari.Tracker.Fetch.{bind}
use torrent_based_file_shari.Sync.{get_tracker2}

-- The target of a `connect` to the other tracker; `none` where the file of the trackers has no such line or
-- the port is no `int`.
abbrev pub target : List (Text × Text) → ℕ → Option (Text × ℤ)
target tracker_info i =
    bind (get_elem? tracker_info i) λ (ip, port). bind (atoi port) λ z. some (ip, z)

-- `IsOnline`: whether one `connect` succeeds.
unfoldable pub is_online : (Text × ℤ → Bool) → ℕ → List (Text × Text) → Option Bool
is_online connect target_seq tracker_info =
    bind (target tracker_info target_seq) λ t. some (connect t)

-- How `SyncAll` ends: the other tracker is offline, the handshake fails, the line is sent, or the second
-- `connect` fails and the program exits.
pub data Asked : Type 0 where
  offline refused exited : Asked
  sent : (line : Text) → Asked

-- `SyncAll`, with the two `connect` calls and the handshake behind them.
unfoldable pub sync_all :
    (Text × ℤ → Bool) → (Text × ℤ → Bool) → Bool → ℕ → List (Text × Text) → Option Asked
sync_all connect connect_again handshake mysequence tracker_info =
    bind (is_online connect (get_tracker2 mysequence) tracker_info) λ online.
      bind (target tracker_info (get_tracker2 mysequence)) λ t. some (
        if online
        then if connect_again t
          then if handshake then sent (codes "SyncAll") else refused
          else exited
        else offline)
