-- ===== src/Peer/Tests.antt =====
-- The calls of a peer at small examples.
use torrent_based_file_shari.Common.{
  ℕ, List, Text, true, arith, ◌%◌, ◌≡◌, refl, false, none, some, [], ◌∷◌, codes, length, lookup,
}
use torrent_based_file_shari.Tracker.State.{Disk, Tracker, get, pure, ◌>>=◌, if_found}
use torrent_based_file_shari.Tracker.Dispatch.{leave_group, Outside, parse_request}
use torrent_based_file_shari.Tracker.Groups.{group_leave}
use torrent_based_file_shari.Peer.Agreement.{parse_request-line_of}
use torrent_based_file_shari.Peer.Pieces.{get_file_hash, get_file_hash_small, match_sha}
use torrent_based_file_shari.Peer.Pieces.Checks.{
  get_file_hash_small-get_file_hash, match_sha-get_file_hash_small,
}
use torrent_based_file_shari.Peer.Choice.{Cell, populate, decide}
use torrent_based_file_shari.Peer.Choice.Holders.{blank, blank_rows, decide-populate}
use torrent_based_file_shari.Peer.Answers.{answer, ask_tracker, answer-handler}

parse_request-line_of_example :
    parse_request (codes "leave_group g bob") ≡ leave_group (codes "g") (codes "bob")
parse_request-line_of_example =
    parse_request-line_of (leave_group (codes "g") (codes "bob"))
      (((λ e. cc), (refl, tt)), (((λ e. cc), (refl, (refl, (refl, tt)))), tt))

abbrev around : Outside
around = record { sha256 = λ t. length t ∷ []; random = []; reads = []; entries = [] }

abbrev no_files : Disk
no_files p = none

abbrev quiet : Tracker
quiet = record {
  disk = no_files;
  tables = record { credentials = []; online = []; online_users = []; groups = []; pending = [] };
  group_members = [];
  sibling = none;
}

no_group : group_leave (codes "g") (codes "bob") quiet ≡ some (false, quiet)
unfolding group_leave ◌>>=◌ get if_found pure lookup
no_group = refl

answer-handler_example :
    answer (ask_tracker around quiet) (leave_group (codes "g") (codes "bob")) ≡ some false
answer-handler_example =
    answer-handler around (leave_group (codes "g") (codes "bob")) quiet
      (group_leave (codes "g") (codes "bob")) false quiet
      (((λ e. cc), (refl, tt)), (((λ e. cc), (refl, (refl, (refl, tt)))), tt)) refl no_group

-- A digest of 20 bytes for the tests.
abbrev pub digest : Text → List ℕ
digest t =
    length t % 256
    ∷ 1
    ∷ 2
    ∷ 3
    ∷ 4
    ∷ 5
    ∷ 6
    ∷ 7
    ∷ 8
    ∷ 9
    ∷ 10
    ∷ 11
    ∷ 12
    ∷ 13
    ∷ 14
    ∷ 15
    ∷ 16
    ∷ 17
    ∷ 18
    ∷ 19
    ∷ []

get_file_hash_small-get_file_hash_example :
    get_file_hash_small digest (codes "abc") 0 (get_file_hash digest (some (codes "abc"))).0
    ≡ some true
get_file_hash_small-get_file_hash_example =
    get_file_hash_small-get_file_hash digest (λ t. refl) (codes "abc") 0 (omega arith) (omega arith)

match_sha-get_file_hash_small_example :
    match_sha digest (some (codes "abc")) (get_file_hash digest (some (codes "abc"))).0 ≡ true
match_sha-get_file_hash_small_example =
    match_sha-get_file_hash_small digest (λ t. refl) (codes "abc") (codes "abc") refl
      (λ i l. get_file_hash_small-get_file_hash digest (λ t. refl) (codes "abc") i (omega arith) l)

-- Two seeders of three pieces: the first has only the second piece, nobody has the third.
abbrev offers : List (ℕ × List ℕ)
offers = (1, 2 ∷ []) ∷ (0, 1 ∷ 2 ∷ []) ∷ []

decide-populate_example :
    (m : List (List Cell)) × (populate (blank_rows 3 offers) offers ≡ some m)
    × (decide m (blank 3) ≡ some (some 0 ∷ some 1 ∷ none ∷ []))
decide-populate_example = decide-populate 3 offers (
  ((omega arith, omega arith), tt),
  (((omega arith, omega arith), ((omega arith, omega arith), tt)), tt),
)
