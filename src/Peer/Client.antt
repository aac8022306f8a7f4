-- ===== src/Peer/Client.antt =====
-- The calls that a peer makes to the tracker: `UserLogin` to `Logout` of peer/peer.cpp, `GetFilePath`
-- of peer/peerserver.cpp, `UpdateServer`, `UpdateServerComplete` and the calls of `DownloadFile` of
-- peer/peerdownload.cpp.
-- A number in a line is the text that `to_string` makes of it. Sockets and OpenSSL are the parameter
-- `ask`: `none` where the handshake fails, and the text that `TLSRecvMsg` returns, which is empty
-- also where the connection is lost.
use torrent_based_file_shari.Common.{
  ◌==◌, ◌-◌, Bool, true, false, not, Option, none, some, [], ◌∷◌, ◌++◌, take, Text, codes,
}

-- The characters of a C string: those before the first NUL.
unfoldable pub c_string : Text → Text
c_string [] = []
c_string (c ∷ cs) = elim (c == 0) [ true ↦ [] | false ↦ c ∷ c_string cs ]

-- `memcpy` into `output` of at most `MAX_SIZE-1` bytes, and the NUL behind them.
unfoldable pub output : Text → Text
unfolding c_string
output reply = c_string (take (65535 - 1) reply)

-- `output[0]=='0'` is the only sign of a refusal.
abbrev starts_0 : Text → Bool
starts_0 [] = false
starts_0 (c ∷ cs) = c == b'0'

unfoldable pub is_yes : Option Text → Bool
unfolding output
is_yes none = false
is_yes (some reply) = not (starts_0 (output reply))

abbrev pub shown : Option Text → Option Text
shown none = none
shown (some reply) = some (output reply)

-- `GetFilePath` and `DownloadFile` go on with an empty text where the handshake fails.
abbrev pub path_shown : Option Text → Text
path_shown none = []
path_shown (some reply) = output reply

-- The lines of the calls.
abbrev pub login_line : Text → Text → Text → Text → Text
login_line user password port ip =
    codes "login "
    ++ (user ++ (codes " " ++ (password ++ (codes " " ++ (port ++ (codes " " ++ ip))))))

abbrev pub create_user_line : Text → Text → Text → Text → Text
create_user_line user password port ip =
    codes "create_user "
    ++ (user ++ (codes " " ++ (password ++ (codes " " ++ (port ++ (codes " " ++ ip))))))

abbrev pub create_group_line : Text → Text → Text
create_group_line group user = codes "create_group " ++ (group ++ (codes " " ++ user))

abbrev pub join_group_line : Text → Text → Text
join_group_line group user = codes "join_group " ++ (group ++ (codes " " ++ user))

abbrev pub list_requests_line : Text → Text → Text
list_requests_line group user = codes "list_requests " ++ (group ++ (codes " " ++ user))

abbrev pub list_files_line : Text → Text
list_files_line group = codes "list_files " ++ group

abbrev pub accept_request_line : Text → Text → Text → Text
accept_request_line group user owner =
    codes "accept_request " ++ (group ++ (codes " " ++ (user ++ (codes " " ++ owner))))

abbrev pub upload_file_line : Text → Text → Text → Text → Text → Text → Text
upload_file_line hash size group user name path =
    codes "upload_file "
    ++ (hash
        ++ (codes " "
            ++ (size
                ++ (codes " "
                    ++ (group
                        ++ (codes " "
                            ++ (user ++ (codes " " ++ (name ++ (codes " " ++ path))))))))))

abbrev pub stop_share_line : Text → Text → Text → Text
stop_share_line group name user =
    codes "stop_share " ++ (group ++ (codes " " ++ (name ++ (codes " " ++ user))))

abbrev pub leave_group_line : Text → Text → Text
leave_group_line group user = codes "leave_group " ++ (group ++ (codes " " ++ user))

abbrev pub logout_line : Text → Text
logout_line user = codes "logout " ++ user

abbrev pub show_downloads_line : Text → Text
show_downloads_line user = codes "show_downloads " ++ user

abbrev pub send_full_path_line : Text → Text → Text → Text
send_full_path_line user group name =
    codes "send_full_path " ++ (user ++ (codes " " ++ (group ++ (codes " " ++ name))))

abbrev pub give_sha_line : Text → Text → Text → Text
give_sha_line group name user =
    codes "give_sha " ++ (group ++ (codes " " ++ (name ++ (codes " " ++ user))))

abbrev pub give_seeders_line : Text → Text → Text → Text
give_seeders_line group name user =
    codes "give_seeders " ++ (group ++ (codes " " ++ (name ++ (codes " " ++ user))))

abbrev pub give_details_line : Text → Text
give_details_line user = codes "give_details " ++ user

-- `UpdateServer` and `UpdateServerComplete` send a line and read no reply.
abbrev pub update_server : Text → Text → Text → Text → Text
update_server group name path user =
    codes "add_file "
    ++ (group ++ (codes " " ++ (name ++ (codes " " ++ (path ++ (codes " " ++ user))))))

abbrev pub update_server_complete : Text → Text → Text → Text → Text
update_server_complete group name path user =
    codes "complete "
    ++ (group ++ (codes " " ++ (name ++ (codes " " ++ (path ++ (codes " " ++ user))))))

module _ (ask : Text → Option Text) where
  unfoldable pub user_login : Text → Text → Text → Text → Bool
  user_login user password port ip = is_yes (ask (login_line user password port ip))

  unfoldable pub user_create : Text → Text → Text → Text → Bool
  user_create user password port ip = is_yes (ask (create_user_line user password port ip))

  unfoldable pub group_create : Text → Text → Bool
  group_create group user = is_yes (ask (create_group_line group user))

  unfoldable pub group_list : Option Text
  group_list = shown (ask (codes "list_groups"))

  unfoldable pub group_join : Text → Text → Bool
  group_join group user = is_yes (ask (join_group_line group user))

  unfoldable pub group_request_list : Text → Text → Option Text
  group_request_list group user = shown (ask (list_requests_line group user))

  unfoldable pub group_request_files : Text → Option Text
  group_request_files group = shown (ask (list_files_line group))

  unfoldable pub group_accept_request : Text → Text → Text → Bool
  group_accept_request group user owner = is_yes (ask (accept_request_line group user owner))

  unfoldable pub file_upload : Text × Text → Text → Text → Text → Text → Bool
  file_upload (hash, size) group user name path =
      is_yes (ask (upload_file_line hash size group user name path))

  unfoldable pub group_stop_share : Text → Text → Text → Bool
  group_stop_share group name user = is_yes (ask (stop_share_line group name user))

  unfoldable pub group_leave : Text → Text → Bool
  group_leave group user = is_yes (ask (leave_group_line group user))

  unfoldable pub show_downloads : Text → Option Text
  show_downloads user = shown (ask (show_downloads_line user))

  unfoldable pub logout : Text → Bool
  logout user = is_yes (ask (logout_line user))

  unfoldable pub get_file_path : Text → Text → Text → Text
  get_file_path group name user = path_shown (ask (send_full_path_line user group name))
