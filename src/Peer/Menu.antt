-- ===== src/Peer/Menu.antt =====
-- The commands that a user types: `main` and `CheckTracker` of peer/peer.cpp.
-- The lines of the file with the trackers, the other files, the sockets and SHA-1 are parameters. A
-- line of the file without a port has no result.
pub mod History
pub mod Repeats
pub mod Signed
mod Tests
use torrent_based_file_shari.Common.{
  ℕ, zero, suc, ◌-◌, Bool, true, false, Option, none, some, List, [], ◌∷◌, ◌++◌, if◌then◌else◌,
  length, get_elem?, Text, codes, eq_text, split, words, newline,
}
use torrent_based_file_shari.Common.Decimal.{ℤ, pos, to_string, atoi}
use torrent_based_file_shari.Tracker.Fetch.{bind}
use torrent_based_file_shari.Tracker.Dispatch.{word}
use torrent_based_file_shari.Peer.Client.{
  is_yes, shown, login_line, create_user_line, create_group_line, join_group_line,
  list_requests_line, list_files_line, accept_request_line, upload_file_line, stop_share_line,
  leave_group_line, logout_line, show_downloads_line,
}
use torrent_based_file_shari.Peer.Pieces.{get_file_hash}

-- The variables of `main`, and the globals `username`, `si` and `sp`.
pub record Session : Type 0 where
  pub login_flag : Bool
  pub username : Text
  pub command_split : List Text
  pub tracker : Text × ℤ

-- What a command comes to: the loop ends; something is printed; a line is sent to the tracker and its
-- answer waited for; or `DownloadFile` is called.
pub data Turn : Type 0 where
  ends : Turn
  prints : Session → Text → Turn
  asks : Session → Text → (Option Text → Session × Text) → Turn
  downloads : Session → (group name path : Text) → Turn

-- `CheckTracker`: the last tracker of the file that can be reached becomes the current one.
unfoldable pub check_tracker : (Text × ℤ → Bool) → Text × ℤ → List Text → Option (Bool × (Text × ℤ))
check_tracker connects current [] = some (false, current)
check_tracker connects current (line ∷ ls) = bind (get_elem? (split line 32) 0) λ ip.
    bind (get_elem? (split line 32) 1) λ port. bind (atoi port) λ p.
      bind (check_tracker connects (if connects (ip, p) then (ip, p) else current) ls)
        λ (flag, t). some ((if connects (ip, p) then true else flag), t)

-- `command_object>>command_split[i]` for the first `n` places: a place keeps its text where the line has
-- no more words.
unfoldable pub refill : ℕ → List Text → List Text → List Text
refill zero ws old = old
refill (suc n) [] old = old
refill (suc n) (w ∷ ws) [] = []
refill (suc n) (w ∷ ws) (o ∷ old) = w ∷ refill n ws old

abbrev pub slot : Session → ℕ → Text
slot s i = word s.command_split i

-- `cout<<text<<endl`
abbrev pub say : Text → Text
say text = text ++ newline

-- The two messages for an answer, and the empty line behind each command that ran to its end.
abbrev pub report : Session → Text → Text → Option Text → Session × Text
report s good bad reply = (s, say (if is_yes reply then good else bad) ++ newline)

abbrev pub listing : Session → Text → Option Text → Session × Text
listing s title reply = (
  s,
  elim (shown reply) [
    | none ↦ newline
    | some text ↦ say (say title) ++ (say text ++ (say (codes "#####  #####") ++ newline))
  ],
)

-- `names[names.size()-1]`
abbrev pub last_name : Text → Text
last_name path = word (split path 47) (length (split path 47) - 1)

abbrev pub logged_in : Session → Turn → Turn
logged_in s turn = if s.login_flag then turn else prints s (say (codes "Log in first"))

-- The answer to `UserLogin` and `UserCreate`, and to `Logout`.
abbrev pub opened : Session → Bool → Session × Text
opened s true =
    (record s { login_flag = true; username = slot s 1 }, say (codes "Successful") ++ newline)
opened s false = (record s { login_flag = false }, say (codes "Failed") ++ newline)

abbrev pub closed : Session → Bool → Session × Text
closed s true = (record s { login_flag = false }, say (codes "Successful") ++ newline)
closed s false = (s, say (codes "Failed") ++ newline)

abbrev pub opens : Session → Option Text → Session × Text
opens s reply = opened s (is_yes reply)

abbrev pub closes : Session → Option Text → Session × Text
closes s reply = closed s (is_yes reply)

abbrev pub upload_with : Session → Text × ℕ → Turn
upload_with s ([], size) = prints s (say (codes "Cannot open file"))
upload_with s (c ∷ cs, size) =
    asks s
      (upload_file_line (c ∷ cs) (to_string size) (slot s 2) s.username (last_name (slot s 1))
        (slot s 1))
      (report s (codes "Successful") (codes "Invalid Request"))

-- The chain of comparisons in the loop, where `filled n` is the session after the first word of the
-- line and `n` more have been read; from `list_files` on, and before it.
abbrev pub second_chain : (ℕ → Session) → Turn
second_chain filled =
    let s = filled 0 in
    let is = λ (name : Text). eq_text (slot s 0) name in
    let done = codes "Successful" in
    let invalid = codes "Invalid Request" in
    if is (codes "list_files")
    then logged_in s (
        asks (filled 1) (list_files_line (slot (filled 1) 1))
          (listing (filled 1) (codes "##### List of Files #####")))
    else if is (codes "stop_share")
    then logged_in s (
        asks (filled 2) (stop_share_line (slot (filled 2) 1) (slot (filled 2) 2) s.username)
          (report (filled 2) done invalid))
    else if is (codes "leave_group")
    then logged_in s (
        asks (filled 1) (leave_group_line (slot (filled 1) 1) s.username)
          (report (filled 1) done invalid))
    else if is (codes "download_file")
    then logged_in s
        (downloads (filled 3) (slot (filled 3) 1) (slot (filled 3) 2) (slot (filled 3) 3))
    else if is (codes "show_downloads")
    then logged_in s (
        asks s (show_downloads_line s.username) (listing s (codes "##### List of Downloads #####")))
    else if is (codes "logout")
    then logged_in s (asks s (logout_line s.username) (closes s))
    else logged_in s (prints s (say (codes "Invalid command") ++ newline))

module _ (sha1 : Text → List ℕ) (files : Text → Option Text) (myip port : Text) where
  unfoldable pub chain : (ℕ → Session) → Turn
  chain filled =
      let s = filled 0 in
      let is = λ (name : Text). eq_text (slot s 0) name in
      let done = codes "Successful" in
      let invalid = codes "Invalid Request" in
      let already = prints s (say (codes "Already Logged in")) in
      if is (codes "login")
      then if s.login_flag
        then already
        else asks (filled 2) (login_line (slot (filled 2) 1) (slot (filled 2) 2) port myip)
            (opens (filled 2))
      else if is (codes "create_user")
      then if s.login_flag
        then already
        else asks (filled 2) (create_user_line (slot (filled 2) 1) (slot (filled 2) 2) port myip)
            (opens (filled 2))
      else if is (codes "create_group")
      then logged_in s (
          asks (filled 1) (create_group_line (slot (filled 1) 1) s.username)
            (report (filled 1) done (codes "Failed")))
      else if is (codes "list_groups")
      then logged_in s
          (asks s (codes "list_groups") (listing s (codes "##### List of Groups #####")))
      else if is (codes "join_group")
      then logged_in s (
          asks (filled 1) (join_group_line (slot (filled 1) 1) s.username) (λ reply. (
            filled 1,
            (if is_yes reply then [] else say (codes "Group Doesn't exists")) ++ newline,
          )))
      else if is (codes "list_requests")
      then logged_in s (
          asks (filled 1) (list_requests_line (slot (filled 1) 1) s.username)
            (listing (filled 1) (codes "##### List of Requests #####")))
      else if is (codes "accept_request")
      then logged_in s (
          asks (filled 2) (accept_request_line (slot (filled 2) 1) (slot (filled 2) 2) s.username)
            (report (filled 2) done invalid))
      else if is (codes "upload_file")
      then logged_in s (upload_with (filled 2) (get_file_hash sha1 (files (slot (filled 2) 1))))
      else second_chain filled

-- The session after the first `n + 1` reads from a line with these words, with the tracker `t`.
abbrev pub filled_from : Session → List Text → Text × ℤ → ℕ → Session
filled_from s ws t n = record s { command_split = refill (suc n) ws s.command_split; tracker = t }

-- One round of the loop.
unfoldable pub menu :
    (Text → List ℕ)
    → (Text → Option Text)
    → Text
    → Text
    → (Text × ℤ → Bool)
    → List Text
    → Session
    → Text
    → Option Turn
menu sha1 files myip port connects tracker_info s command =
    let ws = words command in
    if eq_text (slot (filled_from s ws s.tracker 0) 0) (codes "quit")
    then some ends
    else bind (check_tracker connects s.tracker tracker_info) λ (online, t). some (
        if online
        then chain sha1 files myip port (filled_from s ws t)
        else prints (filled_from s ws t 0) (say (codes "No tracker online")))
