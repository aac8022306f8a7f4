-- ===== src/Tracker/Safety/Names.antt =====
-- The names of groups and users that make names of files which `fopen` and `ofstream` of
-- tracker/tracker.cpp and tracker/trackersync.cpp can open.
use torrent_based_file_shari.Common.{
  Bool, true, List, [], ◌∷◌, ◌&&◌, leb, ◌==◌, length, any, if◌then◌else◌, not, Text,
}
use torrent_based_file_shari.Tracker.Dispatch.{
  Request, login, create_user, create_group, join_group, leave_group, list_requests, list_groups,
  sync_all, unknown, accept_request, upload_file, list_files, stop_share, give_sha, give_seeders,
  send_full_path, logout_user, give_details, show, sync_file, add_file, complete,
}

-- No `/`, which would name a directory that is not there, no end of a C string, and room for what is put
-- around the name in the 255 bytes that a file system gives a name.
abbrev pub is_file_name : Text → Bool
is_file_name name =
    leb (length name) 200 && not (any (λ c. if c == b'/' then true else c == 0) name)

-- The groups and users of a request, which the handlers put into names of files.
abbrev pub names_in : Request → List Text
names_in (login user password port ip) = user ∷ []
names_in (create_user user password port ip) = user ∷ []
names_in (create_group group user) = group ∷ user ∷ []
names_in (join_group group user) = group ∷ user ∷ []
names_in (leave_group group user) = group ∷ user ∷ []
names_in (list_requests group user) = group ∷ user ∷ []
names_in (accept_request group user owner) = group ∷ user ∷ owner ∷ []
names_in (upload_file hash size group user name path) = group ∷ user ∷ []
names_in (list_files group) = group ∷ []
names_in (stop_share group name user) = group ∷ user ∷ []
names_in (give_sha group name user) = group ∷ user ∷ []
names_in (give_seeders group name user) = group ∷ user ∷ []
names_in (send_full_path user group name) = group ∷ user ∷ []
names_in (logout_user user) = user ∷ []
names_in (give_details user) = user ∷ []
names_in (show user) = user ∷ []
names_in (add_file group name path user) = group ∷ user ∷ []
names_in (complete group name path user) = group ∷ user ∷ []
names_in list_groups = []
names_in sync_all = []
names_in unknown = []
names_in (sync_file file) = []
