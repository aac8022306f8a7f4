-- ===== src/Tracker/Dispatch.antt =====
-- `TrackerKernel` of tracker/tracker.cpp: the command line of one connection and the reply to it.
-- The reply `none` stands for a command that is answered by closing the connection.
use torrent_based_file_shari.Common.{
  ⊤, ℕ, Bool, Option, none, some, List, if◌then◌else◌, get_elem?, Text, codes, eq_text, words,
}
use torrent_based_file_shari.Tracker.State.{M, pure, ◌>>=◌, ◌>>◌}
use torrent_based_file_shari.Sync.{sync_recv, sync_all_handler}
use torrent_based_file_shari.Tracker.Accounts.{user_login, user_create, logout}
use torrent_based_file_shari.Tracker.Groups.{
  group_create, group_list, group_request_list, group_join, group_accept_request, group_leave,
}
use torrent_based_file_shari.Tracker.Sharing.{
  group_file_upload, group_stop_share, group_file_list, send_seeders, send_details, get_full_path,
}
use torrent_based_file_shari.Tracker.Downloads.{
  or_empty, send_sha, update_download, complete_download, show_downloads,
}

-- The commands with their arguments, in the order of the line.
pub data Request : Type 0 where
  login create_user : (user password port ip : Text) → Request
  create_group join_group leave_group list_requests : (group user : Text) → Request
  list_groups sync_all unknown : Request
  accept_request : (group user owner : Text) → Request
  upload_file : (hash size group user name path : Text) → Request
  list_files : (group : Text) → Request
  stop_share give_sha give_seeders : (group name user : Text) → Request
  send_full_path : (user group name : Text) → Request
  logout_user give_details show : (user : Text) → Request
  sync_file : (file : Text) → Request
  add_file complete : (group name path user : Text) → Request

-- `command_split[i]`, empty where the line has no such word.
abbrev pub word : List Text → ℕ → Text
word ws i = or_empty (get_elem? ws i)

-- The chain of comparisons with the first word.
unfoldable pub request_of : List Text → Request
request_of ws =
    let is = λ (c : Text). eq_text (word ws 0) c in
    if is (codes "login")
    then login (word ws 1) (word ws 2) (word ws 3) (word ws 4)
    else if is (codes "create_user")
    then create_user (word ws 1) (word ws 2) (word ws 3) (word ws 4)
    else if is (codes "create_group")
    then create_group (word ws 1) (word ws 2)
    else if is (codes "list_groups")
    then list_groups
    else if is (codes "join_group")
    then join_group (word ws 1) (word ws 2)
    else if is (codes "list_requests")
    then list_requests (word ws 1) (word ws 2)
    else if is (codes "accept_request")
    then accept_request (word ws 1) (word ws 2) (word ws 3)
    else if is (codes "upload_file")
    then upload_file (word ws 1) (word ws 2) (word ws 3) (word ws 4) (word ws 5) (word ws 6)
    else if is (codes "list_files")
    then list_files (word ws 1)
    else if is (codes "stop_share")
    then stop_share (word ws 1) (word ws 2) (word ws 3)
    else if is (codes "leave_group")
    then leave_group (word ws 1) (word ws 2)
    else if is (codes "logout")
    then logout_user (word ws 1)
    else if is (codes "Sync")
    then sync_file (word ws 1)
    else if is (codes "SyncAll")
    then sync_all
    else if is (codes "give_sha")
    then give_sha (word ws 1) (word ws 2) (word ws 3)
    else if is (codes "give_seeders")
    then give_seeders (word ws 1) (word ws 2) (word ws 3)
    else if is (codes "give_details")
    then give_details (word ws 1)
    else if is (codes "send_full_path")
    then send_full_path (word ws 1) (word ws 2) (word ws 3)
    else if is (codes "add_file")
    then add_file (word ws 1) (word ws 2) (word ws 3) (word ws 4)
    else if is (codes "complete")
    then complete (word ws 1) (word ws 2) (word ws 3) (word ws 4)
    else if is (codes "show_downloads")
    then show (word ws 1)
    else unknown

unfoldable pub parse_request : Text → Request
unfolding request_of
parse_request line = request_of (words line)

-- `TLSSendMsg(ssl,"1")` or `"0"`.
abbrev pub yes_no : M Bool → M (Option Text)
yes_no m = do ok ← m; pure (some (if ok then codes "1" else codes "0"))

abbrev pub reply : M Text → M (Option Text)
reply m = do t ← m; pure (some t)

abbrev pub silent : M ⊤ → M (Option Text)
silent m = do m; pure none

-- What comes from outside of the program during one command: the digest function, the bytes that
-- `RAND_bytes` draws, what the reads of `SyncRecv` give, and the names that `readdir` gives.
pub record Outside : Type 0 where
  pub sha256 : Text → List ℕ
  pub random : List ℕ
  pub reads : List Text
  pub entries : List Text

module _ (o : Outside) where
  unfoldable pub serve : Request → M (Option Text)
  serve (login user password port ip) = yes_no (user_login o.sha256 user password port ip)
  serve (create_user user password port ip) =
      yes_no (user_create o.sha256 o.random user password port ip)
  serve (create_group group user) = yes_no (group_create group user)
  serve (join_group group user) = yes_no (group_join group user)
  serve (leave_group group user) = yes_no (group_leave group user)
  serve (list_requests group user) = reply (group_request_list group user)
  serve list_groups = reply group_list
  serve sync_all = silent (sync_all_handler o.entries)
  serve unknown = pure none
  serve (accept_request group user owner) = yes_no (group_accept_request group user owner)
  serve (upload_file hash size group user name path) =
      yes_no (group_file_upload hash size group user name path)
  serve (list_files group) = reply (group_file_list group)
  serve (stop_share group name user) = yes_no (group_stop_share group name user)
  serve (give_sha group name user) = reply (send_sha group name user)
  serve (give_seeders group name user) = reply (send_seeders group name)
  serve (send_full_path user group name) = reply (get_full_path user group name)
  serve (logout_user user) = yes_no (logout user)
  serve (give_details user) = reply (send_details user)
  serve (show user) = reply (show_downloads user)
  serve (sync_file file) = silent (sync_recv file o.reads)
  serve (add_file group name path user) = silent (update_download group name path user)
  serve (complete group name path user) = silent (complete_download group name user)

  unfoldable pub tracker_kernel : Text → M (Option Text)
  tracker_kernel line = serve (parse_request line)
