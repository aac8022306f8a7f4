-- ===== src/Peer/Agreement.antt =====
-- The tracker reads from a line what the peer put into it, and the peer reads from the reply what
-- the tracker answered.
use torrent_based_file_shari.Common.{
  ◌≡◌, refl, sym, ap, ◌∙◌, Bool, true, false, List, [], ◌∷◌, ◌++◌, if◌then◌else◌, arith, All, Text,
  codes, eq_text, words, words_from, is_space, Bool-cases, inl, inr,
}
use torrent_based_file_shari.Common.Strings.Words.{NoSpace, IsWord, words-one, words-more}
use torrent_based_file_shari.Tracker.Dispatch.{
  Request, login, create_user, create_group, join_group, leave_group, list_requests, list_groups,
  sync_all, unknown, accept_request, upload_file, list_files, stop_share, give_sha, give_seeders,
  send_full_path, logout_user, give_details, show, sync_file, add_file, complete, request_of,
  parse_request,
}
use torrent_based_file_shari.Peer.Client.{
  login_line, create_user_line, create_group_line, join_group_line, list_requests_line,
  list_files_line, accept_request_line, upload_file_line, stop_share_line, leave_group_line,
  logout_line, show_downloads_line, send_full_path_line, give_sha_line, give_seeders_line,
  give_details_line, update_server, update_server_complete,
}

-- Words with a blank between them.
abbrev spaced : List Text → Text
spaced [] = []
spaced (w ∷ []) = w
spaced (w ∷ v ∷ ws) = w ++ 32 ∷ spaced (v ∷ ws)

words-spaced : (ws : List Text) → All IsWord ws → words (spaced ws) ≡ ws
unfolding words
words-spaced [] h = refl
words-spaced (w ∷ []) h = words-one w h.0
words-spaced (w ∷ v ∷ ws) h =
    words-more w (spaced (v ∷ ws)) h.0 ∙ ap (λ r. w ∷ r) (words-spaced (v ∷ ws) h.1)

-- A test for a word.
abbrev no_space : Text → Bool
no_space [] = true
no_space (c ∷ cs) = if is_space c then false else no_space cs

abbrev pub is_word : Text → Bool
is_word [] = false
is_word (c ∷ cs) = no_space (c ∷ cs)

no_space_sound : (t : Text) → no_space t ≡ true → NoSpace t
no_space_sound [] h = tt
no_space_sound (c ∷ cs) h = elim (Bool-cases (is_space c)) [
  | inl white ↦ absurd (ground (arith, ap (λ b. if b then false else no_space cs) white))
  | inr plain ↦
      (plain, no_space_sound cs (sym (ap (λ b. if b then false else no_space cs) plain) ∙ h))
]

pub is_word_sound : (t : Text) → is_word t ≡ true → IsWord t
is_word_sound [] h = absurd (ground arith)
is_word_sound (c ∷ cs) h = ((λ e. cc), no_space_sound (c ∷ cs) h)

-- The line that is sent for a request: the lines of the peer, and the two of tracker/trackersync.cpp.
abbrev pub line_of : Request → Text
line_of (login user password port ip) = login_line user password port ip
line_of (create_user user password port ip) = create_user_line user password port ip
line_of (create_group group user) = create_group_line group user
line_of (join_group group user) = join_group_line group user
line_of (leave_group group user) = leave_group_line group user
line_of (list_requests group user) = list_requests_line group user
line_of list_groups = codes "list_groups"
line_of sync_all = codes "SyncAll"
line_of unknown = []
line_of (accept_request group user owner) = accept_request_line group user owner
line_of (upload_file hash size group user name path) =
    upload_file_line hash size group user name path
line_of (list_files group) = list_files_line group
line_of (stop_share group name user) = stop_share_line group name user
line_of (give_sha group name user) = give_sha_line group name user
line_of (give_seeders group name user) = give_seeders_line group name user
line_of (send_full_path user group name) = send_full_path_line user group name
line_of (logout_user user) = logout_line user
line_of (give_details user) = give_details_line user
line_of (show user) = show_downloads_line user
line_of (sync_file file) = codes "Sync " ++ file
line_of (add_file group name path user) = update_server group name path user
line_of (complete group name path user) = update_server_complete group name path user

abbrev pub arguments : Request → List Text
arguments (login user password port ip) = user ∷ password ∷ port ∷ ip ∷ []
arguments (create_user user password port ip) = user ∷ password ∷ port ∷ ip ∷ []
arguments (create_group group user) = group ∷ user ∷ []
arguments (join_group group user) = group ∷ user ∷ []
arguments (leave_group group user) = group ∷ user ∷ []
arguments (list_requests group user) = group ∷ user ∷ []
arguments list_groups = []
arguments sync_all = []
arguments unknown = []
arguments (accept_request group user owner) = group ∷ user ∷ owner ∷ []
arguments (upload_file hash size group user name path) =
    hash ∷ size ∷ group ∷ user ∷ name ∷ path ∷ []
arguments (list_files group) = group ∷ []
arguments (stop_share group name user) = group ∷ name ∷ user ∷ []
arguments (give_sha group name user) = group ∷ name ∷ user ∷ []
arguments (give_seeders group name user) = group ∷ name ∷ user ∷ []
arguments (send_full_path user group name) = user ∷ group ∷ name ∷ []
arguments (logout_user user) = user ∷ []
arguments (give_details user) = user ∷ []
arguments (show user) = user ∷ []
arguments (sync_file file) = file ∷ []
arguments (add_file group name path user) = group ∷ name ∷ path ∷ user ∷ []
arguments (complete group name path user) = group ∷ name ∷ path ∷ user ∷ []

-- Reading the words of a line.
parse_spaced :
    (c : Text) (ws : List Text) (r : Request)
    → is_word c ≡ true
    → All IsWord ws
    → request_of (c ∷ ws) ≡ r
    → parse_request (spaced (c ∷ ws)) ≡ r
unfolding parse_request
parse_spaced c ws r h hs e = ap request_of (words-spaced (c ∷ ws) (is_word_sound c h, hs)) ∙ e

-- The tracker takes every line that is sent for a request as that request, with all its arguments,
-- where none of these is empty or has white space in it.
pub parse_request-line_of : (r : Request) → All IsWord (arguments r) → parse_request (line_of r) ≡ r
unfolding parse_request request_of eq_text words words_from
parse_request-line_of (login user password port ip) h =
    parse_spaced (codes "login") (user ∷ password ∷ port ∷ ip ∷ []) _ refl h refl
parse_request-line_of (create_user user password port ip) h =
    parse_spaced (codes "create_user") (user ∷ password ∷ port ∷ ip ∷ []) _ refl h refl
parse_request-line_of (create_group group user) h =
    parse_spaced (codes "create_group") (group ∷ user ∷ []) _ refl h refl
parse_request-line_of (join_group group user) h =
    parse_spaced (codes "join_group") (group ∷ user ∷ []) _ refl h refl
parse_request-line_of (leave_group group user) h =
    parse_spaced (codes "leave_group") (group ∷ user ∷ []) _ refl h refl
parse_request-line_of (list_requests group user) h =
    parse_spaced (codes "list_requests") (group ∷ user ∷ []) _ refl h refl
parse_request-line_of list_groups h = parse_spaced (codes "list_groups") [] _ refl h refl
parse_request-line_of sync_all h = parse_spaced (codes "SyncAll") [] _ refl h refl
parse_request-line_of (accept_request group user owner) h =
    parse_spaced (codes "accept_request") (group ∷ user ∷ owner ∷ []) _ refl h refl
parse_request-line_of (upload_file hash size group user name path) h =
    parse_spaced (codes "upload_file") (hash ∷ size ∷ group ∷ user ∷ name ∷ path ∷ []) _ refl h refl
parse_request-line_of (list_files group) h =
    parse_spaced (codes "list_files") (group ∷ []) _ refl h refl
parse_request-line_of (stop_share group name user) h =
    parse_spaced (codes "stop_share") (group ∷ name ∷ user ∷ []) _ refl h refl
parse_request-line_of (give_sha group name user) h =
    parse_spaced (codes "give_sha") (group ∷ name ∷ user ∷ []) _ refl h refl
parse_request-line_of (give_seeders group name user) h =
    parse_spaced (codes "give_seeders") (group ∷ name ∷ user ∷ []) _ refl h refl
parse_request-line_of (send_full_path user group name) h =
    parse_spaced (codes "send_full_path") (user ∷ group ∷ name ∷ []) _ refl h refl
parse_request-line_of (logout_user user) h = parse_spaced (codes "logout") (user ∷ []) _ refl h refl
parse_request-line_of (give_details user) h =
    parse_spaced (codes "give_details") (user ∷ []) _ refl h refl
parse_request-line_of (show user) h =
    parse_spaced (codes "show_downloads") (user ∷ []) _ refl h refl
parse_request-line_of (sync_file file) h = parse_spaced (codes "Sync") (file ∷ []) _ refl h refl
parse_request-line_of (add_file group name path user) h =
    parse_spaced (codes "add_file") (group ∷ name ∷ path ∷ user ∷ []) _ refl h refl
parse_request-line_of (complete group name path user) h =
    parse_spaced (codes "complete") (group ∷ name ∷ path ∷ user ∷ []) _ refl h refl
parse_request-line_of unknown h = refl
