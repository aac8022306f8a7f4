-- ===== src/Tracker/Tests.antt =====
-- The tracker's theorems at a small library of files: a group `g` of `alice` with the member `bob`,
-- a file that both share, and a pending request of `carol`.
mod Lives
mod Received
use torrent_based_file_shari.Common.{
  ℕ, ◌≡◌, ◌↔◌, refl, ap, true, ◌&&◌, not, Option, none, some, List, [], ◌∷◌, ◌++◌, arith, length,
  any, length-append, if◌then◌else◌, Text, codes, eq_text, lookup, split, split_from, mem_text,
  set_insert, lt_text, insert, contains, words, words_from,
}
use torrent_based_file_shari.Common.Strings.Words.{IsWord}
use torrent_based_file_shari.Tracker.State.{
  Disk, lines, write, Tables, Tracker, members_file, shared_file, user_file, pending_file, ◌>>=◌,
  get, on_disk, expect, modify,
}
use torrent_based_file_shari.Tracker.Fetch.{
  members, load_credentials, load_online, load_groups, load_pending, load, create_files,
  fetch_details,
}
use torrent_based_file_shari.Tracker.Safety.Rules.{Runs}
use torrent_based_file_shari.Tracker.Safety.Disk.{write-IsSafe, IsSafe, IsGroupName, IsUserName}
use torrent_based_file_shari.Tracker.Safety.Paths.{
  Fits-pending, Fits-members, Fits-shared, Fits-user,
}
use torrent_based_file_shari.Tracker.Safety.Fetching.{IsGood, write-IsGood}
use torrent_based_file_shari.Tracker.Dispatch.{Outside, tracker_kernel, parse_request, request_of}
use torrent_based_file_shari.Tracker.Safety.Sessions.{Reached, fetched, tracker_kernel-serves}
use torrent_based_file_shari.Tracker.Accounts.{user_create, user_login}
use torrent_based_file_shari.Tracker.Accounts.Hashing.{generate_salt, hash_password}
use torrent_based_file_shari.Tracker.Accounts.SignUp.{
  credentials_on, stored_for, user_create-user_login, user_create-Stored,
}
use torrent_based_file_shari.Tracker.Groups.{
  group_leave, group_join, group_accept_request, two_words,
}
use torrent_based_file_shari.Tracker.Groups.Joining.{
  writes_request, group_join-Requested, group_join-group_accept_request,
}
use torrent_based_file_shari.Tracker.Groups.Membership.{
  group_accept_request-Accepted, IsAuthorized, Accepted, is_member,
}
use torrent_based_file_shari.Tracker.Groups.Leaving.{group_leave-Left, IsLeaver, Left}
use torrent_based_file_shari.Tracker.Sharing.{
  group_file_upload, group_stop_share, send_seeders, seeders_reply,
}
use torrent_based_file_shari.Tracker.Sharing.Seeders.{shared_by, send_seeders-shared_by}
use torrent_based_file_shari.Tracker.Sharing.Integrity.{IsConsistent}
use torrent_based_file_shari.Tracker.Sharing.Upload.{group_file_upload-IsConsistent}
use torrent_based_file_shari.Tracker.Sharing.Withdraw.{group_stop_share-removes}

abbrev alice : Text
alice = codes "alice"

abbrev bob : Text
bob = codes "bob"

abbrev carol : Text
carol = codes "carol"

abbrev g : Text
g = codes "g"

abbrev shared_lines : List Text
shared_lines = codes "h1 10 alice notes" ∷ codes "h1 10 bob notes" ∷ []

abbrev empty : Disk
empty p = none

abbrev files : Disk
files = write (user_file bob) (codes "g notes /b" ∷ []) (
    write (shared_file g) shared_lines
      (write (members_file g) (alice ∷ bob ∷ []) (write pending_file (codes "carol g" ∷ []) empty)))

abbrev tables : Tables
tables = record {
  credentials = (alice, codes "s:h") ∷ (bob, codes "s:h") ∷ (carol, codes "s:h") ∷ [];
  online = [];
  online_users = [];
  groups = (g, alice) ∷ [];
  pending = (carol, g) ∷ [];
}

abbrev start : Tracker
start = record { disk = files; tables = tables; group_members = []; sibling = none }

g-IsGroupName : IsGroupName g
g-IsGroupName x e = omega (arith, ap length e, length-append x (codes "_files"))

bob-IsUserName : IsUserName bob
bob-IsUserName x = (
  (λ e. omega (arith, ap length e, length-append x (codes "_downloading"))),
  (λ e. omega (arith, ap length e, length-append x (codes "_downloaded"))),
)

empty-IsSafe : IsSafe empty
empty-IsSafe = record {
  online = tt;
  groups = tt;
  shared = λ u. tt;
  users = λ u n. tt;
  no_temp = refl;
}

pending_only : IsGood (write pending_file (codes "carol g" ∷ []) empty)
unfolding write eq_text
pending_only = record {
  safe = write-IsSafe pending_file _ empty (Fits-pending _) empty-IsSafe;
  pending = (_, refl);
}

files-IsGood : IsGood files
unfolding split_from split
files-IsGood = write-IsGood (user_file bob) _ _ (Fits-user _ bob (omega arith, tt)) (
    write-IsGood (shared_file g) _ _ (Fits-shared _ g (omega arith, (omega arith, tt)))
      (write-IsGood (members_file g) _ _ (Fits-members _ g g-IsGroupName) pending_only))

-- A digest for the tests: the length of the text.
abbrev digest : Text → List ℕ
digest t = length t ∷ []

abbrev around : Outside
around = record { sha256 = digest; random = 10 ∷ 255 ∷ []; reads = []; entries = [] }

group_accept_request-Accepted_example : Runs (group_accept_request g carol alice) start (λ r s'.
    ((r ≡ true) ↔ IsAuthorized g carol alice tables)
    × Accepted g carol (r && not (is_member g carol files)) files s'.disk)
group_accept_request-Accepted_example =
    group_accept_request-Accepted g carol alice start files-IsGood

group_leave-Left_example :
    Runs
      (group_leave g bob)
      start
      (λ r s'. ((r ≡ true) ↔ IsLeaver g bob start) × Left g bob r files s'.disk)
group_leave-Left_example = group_leave-Left g bob start g-IsGroupName bob-IsUserName files-IsGood

group_stop_share-removes_example : Runs (group_stop_share g (codes "notes") bob) start (λ r s'.
    (r ≡ true)
    × (lines s'.disk (shared_file g) ≡ codes "h1 10 alice notes" ∷ [])
    × (lines s'.disk (user_file bob) ≡ []))
unfolding write eq_text lookup mem_text members set_insert lt_text split split_from
group_stop_share-removes_example =
    group_stop_share-removes g (codes "notes") bob start bob-IsUserName files-IsGood

shared_lines-IsConsistent : IsConsistent (lines files (shared_file g))
unfolding write eq_text split split_from
shared_lines-IsConsistent = ((((λ e. refl), (λ e. refl)), tt), (λ e. cc), (tt, (λ e. cc), tt))

group_file_upload-IsConsistent_example :
    Runs
      (group_file_upload (codes "h1") (codes "10") g bob (codes "copy") (codes "/c"))
      start
      (λ _ s'. IsConsistent (lines s'.disk (shared_file g)))
group_file_upload-IsConsistent_example =
    group_file_upload-IsConsistent (codes "h1") (codes "10") g bob (codes "copy") (codes "/c")
      (refl, (refl, tt)) (refl, (refl, tt)) (refl, (refl, (refl, tt)))
      (refl, (refl, (refl, (refl, tt)))) (λ e. cc) start (files-IsGood.safe.shared g)
      shared_lines-IsConsistent

abbrev dave : Text
dave = codes "dave"

dave-IsWord : IsWord dave
dave-IsWord = ((λ e. cc), (refl, (refl, (refl, (refl, tt)))))

dave_free : lookup dave (credentials_on files) ≡ none
unfolding lookup load_credentials write eq_text
dave_free = refl

user_create-Stored_example :
    Runs
      (user_create digest (10 ∷ 255 ∷ []) dave (codes "pw") (codes "9") (codes "::1"))
      start
      (λ r s'.
        (r ≡ not (contains dave (credentials_on files)))
        × (credentials_on s'.disk ≡ (
            if r
            then insert dave (stored_for digest (10 ∷ 255 ∷ []) (codes "pw")) (credentials_on files)
            else credentials_on files))
        × (s'.tables.credentials ≡ credentials_on s'.disk)
        × IsGood s'.disk)
user_create-Stored_example =
    user_create-Stored digest (10 ∷ 255 ∷ []) dave (codes "pw") (codes "9") (codes "::1") start
      dave-IsWord files-IsGood

user_create-user_login_example :
    Runs
      (user_create digest (10 ∷ 255 ∷ []) dave (codes "pw") (codes "9") (codes "::1")
        >>= λ created?. user_login digest dave (codes "pw") (codes "9") (codes "::1"))
      start
      (λ r _.
        (r
          ≡ eq_text
              (hash_password digest (generate_salt (10 ∷ 255 ∷ [])) (codes "pw"))
              (hash_password digest (generate_salt (10 ∷ 255 ∷ [])) (codes "pw")))
        × (codes "pw" ≡ codes "pw" → r ≡ true))
user_create-user_login_example =
    user_create-user_login digest (10 ∷ 255 ∷ []) dave (codes "pw") (codes "9") (codes "::1")
      (codes "pw") (codes "9") (codes "::1") start dave-IsWord files-IsGood dave_free

-- A tracker that starts with no files.
abbrev fresh : Tracker
fresh = record {
  disk = create_files empty;
  tables = record { credentials = []; online = []; online_users = []; groups = []; pending = [] };
  group_members = [];
  sibling = none;
}

fresh-Reached : Reached empty fresh
unfolding fetch_details ◌>>=◌ on_disk get expect modify load create_files load_online load_groups
    load_credentials load_pending write eq_text
fresh-Reached = fetched none fresh refl

tracker_kernel-serves_example :
    (reply : Option Text) × (s' : Tracker) × (tracker_kernel around
        (codes "create_user bob pw 9 ::1")
        fresh
      ≡ some (reply, s'))
    × Reached empty s'
    × IsSafe s'.disk
unfolding parse_request request_of words words_from eq_text
tracker_kernel-serves_example =
    tracker_kernel-serves empty fresh around (codes "create_user bob pw 9 ::1") empty-IsSafe
      fresh-Reached ((refl, tt), tt)

group_join-Requested_example : Runs (group_join g carol) start (λ r s'.
    (r ≡ contains g tables.groups)
    × (lines s'.disk pending_file
        ≡ lines files pending_file
          ++ (if writes_request g carol start then two_words carol g ∷ [] else []))
    × (lines s'.disk (members_file g) ≡ lines files (members_file g)))
group_join-Requested_example = group_join-Requested g carol start files-IsGood

group_join-group_accept_request_example :
    Runs (group_join g carol >>= λ _. group_accept_request g carol alice) start (λ r s'.
      (r ≡ true) × (lines s'.disk (members_file g) ≡ lines files (members_file g) ++ carol ∷ []))
unfolding lookup eq_text mem_text write members set_insert lt_text
group_join-group_accept_request_example =
    group_join-group_accept_request g carol alice start files-IsGood refl refl refl

send_seeders-shared_by_example : Runs (send_seeders g (codes "notes")) start (λ r s'.
    (found : Text × List Text) × (r ≡ seeders_reply found)
    × ((u : Text)
        → mem_text u found.1 ≡ (
            mem_text u s'.tables.online
            && any (shared_by (codes "notes") u) (lines s'.disk (shared_file g)))))
send_seeders-shared_by_example = send_seeders-shared_by g (codes "notes") start files-IsGood
