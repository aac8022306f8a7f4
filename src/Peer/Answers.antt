-- ===== src/Peer/Answers.antt =====
-- The Boolean calls of peer/peer.cpp against the handlers of tracker/tracker.cpp.
use torrent_based_file_shari.Common.{
  ◌≡◌, refl, ap, ◌∙◌, Bool, true, false, Option, none, some, [], if◌then◌else◌, arith, All, Text,
  codes,
}
use torrent_based_file_shari.Common.Strings.Words.{IsWord}
use torrent_based_file_shari.Tracker.State.{Tracker, M, pure, ◌>>=◌}
use torrent_based_file_shari.Tracker.Downloads.{or_empty}
use torrent_based_file_shari.Tracker.Dispatch.{
  Request, login, create_user, create_group, join_group, leave_group, accept_request, upload_file,
  stop_share, logout_user, Outside, serve, tracker_kernel, yes_no,
}
use torrent_based_file_shari.Tracker.Accounts
use torrent_based_file_shari.Tracker.Groups
use torrent_based_file_shari.Tracker.Sharing
use torrent_based_file_shari.Peer.Client.{is_yes, output, c_string}
use torrent_based_file_shari.Peer.Client
use torrent_based_file_shari.Peer.Agreement.{line_of, arguments, parse_request-line_of}

-- What `TLSRecvMsg` gives the peer: the reply, and an empty text where the connection is closed
-- without one.
abbrev received : Option (Option Text × Tracker) → Text
received none = []
received (some (reply, s)) = or_empty reply

-- A connection to a tracker in the state `s`.
abbrev pub ask_tracker : Outside → Tracker → Text → Option Text
ask_tracker o s line = some (received (tracker_kernel o line s))

-- The calls of the peer that return a Boolean.
abbrev pub answer : (Text → Option Text) → Request → Option Bool
answer ask (login user password port ip) = some (Client.user_login ask user password port ip)
answer ask (create_user user password port ip) = some (Client.user_create ask user password port ip)
answer ask (create_group group user) = some (Client.group_create ask group user)
answer ask (join_group group user) = some (Client.group_join ask group user)
answer ask (leave_group group user) = some (Client.group_leave ask group user)
answer ask (accept_request group user owner) =
    some (Client.group_accept_request ask group user owner)
answer ask (upload_file hash size group user name path) =
    some (Client.file_upload ask (hash, size) group user name path)
answer ask (stop_share group name user) = some (Client.group_stop_share ask group name user)
answer ask (logout_user user) = some (Client.logout ask user)
answer ask _ = none

-- The handlers of the tracker for them.
abbrev pub handler : Outside → Request → Option (M Bool)
handler o (login user password port ip) = some (Accounts.user_login o.sha256 user password port ip)
handler o (create_user user password port ip) =
    some (Accounts.user_create o.sha256 o.random user password port ip)
handler o (create_group group user) = some (Groups.group_create group user)
handler o (join_group group user) = some (Groups.group_join group user)
handler o (leave_group group user) = some (Groups.group_leave group user)
handler o (accept_request group user owner) = some (Groups.group_accept_request group user owner)
handler o (upload_file hash size group user name path) =
    some (Sharing.group_file_upload hash size group user name path)
handler o (stop_share group name user) = some (Sharing.group_stop_share group name user)
handler o (logout_user user) = some (Accounts.logout user)
handler o _ = none

yes_no_reply :
    (m : M Bool) (b : Bool) (s s' : Tracker)
    → m s ≡ some (b, s')
    → is_yes (some (received (yes_no m s))) ≡ b
unfolding is_yes output c_string ◌>>=◌ pure
yes_no_reply m b s s' e =
    ap
      (λ (q : Option (Bool × Tracker)). is_yes (
        some (
          received (elim q [
            | none ↦ none
            | some (ok, t) ↦ some (some (if ok then codes "1" else codes "0"), t)
          ]))))
      e
    ∙ read b
  where
    read : (b : Bool) → is_yes (some (if b then codes "1" else codes "0")) ≡ b
    read true = refl
    read false = refl

of_some : (m n : M Bool) → some m ≡ some n → m ≡ n
of_some m n e = ap (λ o. elim o [ none ↦ m | some x ↦ x ]) e

-- A line of a call is served as its request.
reply_to :
    (o : Outside) (r : Request) (s : Tracker) (m n : M Bool) (b : Bool) (s' : Tracker)
    → All IsWord (arguments r)
    → serve o r ≡ yes_no n
    → some n ≡ some m
    → m s ≡ some (b, s')
    → is_yes (ask_tracker o s (line_of r)) ≡ b
unfolding tracker_kernel
reply_to o r s m n b s' w e h run =
    ap (λ q. is_yes (some (received (serve o q s)))) (parse_request-line_of r w)
    ∙ ap (λ k. is_yes (some (received (k s)))) e
    ∙ yes_no_reply n b s s' (ap (λ k. k s) (of_some n m h) ∙ run)

-- A Boolean call of a peer with words as arguments returns what the tracker's handler for it
-- returns in the state in which the tracker serves the line.
pub answer-handler :
    (o : Outside) (r : Request) (s : Tracker) (m : M Bool) (b : Bool) (s' : Tracker)
    → All IsWord (arguments r)
    → handler o r ≡ some m
    → m s ≡ some (b, s')
    → answer (ask_tracker o s) r ≡ some b
unfolding serve Client.user_login Client.user_create Client.group_create Client.group_join
    Client.group_leave Client.group_accept_request Client.file_upload Client.group_stop_share
    Client.logout
answer-handler o (login user password port ip) s m b s' w h e =
    ap some (reply_to o (login user password port ip) s m _ b s' w refl h e)
answer-handler o (create_user user password port ip) s m b s' w h e =
    ap some (reply_to o (create_user user password port ip) s m _ b s' w refl h e)
answer-handler o (create_group group user) s m b s' w h e =
    ap some (reply_to o (create_group group user) s m _ b s' w refl h e)
answer-handler o (join_group group user) s m b s' w h e =
    ap some (reply_to o (join_group group user) s m _ b s' w refl h e)
answer-handler o (leave_group group user) s m b s' w h e =
    ap some (reply_to o (leave_group group user) s m _ b s' w refl h e)
answer-handler o (accept_request group user owner) s m b s' w h e =
    ap some (reply_to o (accept_request group user owner) s m _ b s' w refl h e)
answer-handler o (upload_file hash size group user name path) s m b s' w h e =
    ap some (reply_to o (upload_file hash size group user name path) s m _ b s' w refl h e)
answer-handler o (stop_share group name user) s m b s' w h e =
    ap some (reply_to o (stop_share group name user) s m _ b s' w refl h e)
answer-handler o (logout_user user) s m b s' w h e =
    ap some (reply_to o (logout_user user) s m _ b s' w refl h e)
answer-handler o _ s m b s' w h e = absurd (ground (arith, h))
