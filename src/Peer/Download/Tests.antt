-- ===== src/Peer/Download/Tests.antt =====
-- Downloads at small examples.
mod Sorting
mod Swarms
use torrent_based_file_shari.Common.{
  ℕ, zero, suc, ◌*◌, ◌<◌, ◌≡◌, ◌≢◌, refl, subst, inl, inr, Bool, true, Option, none, some, List, [],
  ◌∷◌, arith, if◌then◌else◌, length, All, Text, codes, eq_text, Table, lookup,
}
use torrent_based_file_shari.Common.Decimal.{ℤ, pos, to_string, digits}
use torrent_based_file_shari.Tracker.Accounts.Hashing.{hex}
use torrent_based_file_shari.Peer.Client.{give_sha_line, give_seeders_line}
use torrent_based_file_shari.Peer.Choice.{Cell}
use torrent_based_file_shari.Peer.Pieces.{chunk_size, temp_hash, get_file_hash, get_file_hash_small}
use torrent_based_file_shari.Peer.Server.{send_loop, send_from, client_server_kernel}
use torrent_based_file_shari.Peer.Download.{
  FileData, address, get_chunks, nchunks_of, Local, running, gave_up, recorded, send_chunk_line,
  receive, record_chunk, download_kernel,
}
use torrent_based_file_shari.Peer.Download.Writes.{Write, writes_of, all_writes, Occurs}
use torrent_based_file_shari.Peer.Download.Assembly.{all_writes-assembles}
use torrent_based_file_shari.Peer.Download.Retries.{
  download_kernel-gives_up, download_kernel-Checked, Checked,
}
use torrent_based_file_shari.Peer.Download.Delivery.{
  download_kernel-delivers, download_kernel-stuck,
}
use torrent_based_file_shari.Peer.Download.Limits.{nchunks_of-bounds, get_chunks-unreachable, Named}
use torrent_based_file_shari.Peer.Download.Assigned.{AllAskedWell, get_chunks-AllAskedWell}
use torrent_based_file_shari.Peer.Download.Requests.{
  tracker_line, two_trackers, server_path_lem, client_server_kernel-send_chunk,
}
use torrent_based_file_shari.Peer.Download.Outcome.{download_end-all_writes}
use torrent_based_file_shari.Peer.Download.Start.{download_end, downloading, fives, download_start}
use torrent_based_file_shari.Peer.Download.Seeders.{download_start-seeders_reply}
use torrent_based_file_shari.Peer.Tests.{digest}

-- A file of one piece, and two seeders of it.
abbrev meta : FileData
meta = record {
  name = codes "f";
  path = codes "p";
  hash = (get_file_hash digest (some (codes "abc"))).0;
  size = codes "3";
  groupname = codes "g";
  serverpath = two_trackers (codes "h", 1) (codes "h", 2);
  username = codes "bob";
  tracker_ip = codes "h";
  tracker_port = pos 1;
  seeders = codes "x" ∷ codes "y" ∷ [];
  details = (codes "x", (codes "x", codes "1")) ∷ (codes "y", (codes "y", codes "2")) ∷ [];
}

abbrev empty_place : Local
empty_place = record { file = codes "555"; filechunks_map = []; told = [] }

-- The bytes of the only piece, received in two parts.
abbrev two_parts : List Text
two_parts = codes "ab" ∷ codes "c" ∷ []

abbrev one_place : List Write
one_place = (2, codes "c") ∷ (0, codes "ab") ∷ (2, codes "c") ∷ []

first_only : (P : ℕ → Type 0) (i : ℕ) → i * chunk_size < 3 → P 0 → P i
first_only P i l p = let none_else : 0 ≡ i = omega arith in subst P none_else p

all_writes-assembles_example : all_writes one_place (codes "555") ≡ codes "abc"
unfolding writes_of send_from send_loop
all_writes-assembles_example =
    all_writes-assembles (codes "abc") (codes "555") (λ i. two_parts) one_place refl
      (λ i l.
        first_only
          (λ j.
            (codes "abc" ≡ send_from (j * chunk_size) (codes "abc")) × All (λ p. p ≢ []) two_parts)
          i l (refl, ((λ e. cc), ((λ e. cc), tt))))
      (λ w o. (
        0,
        omega arith,
        elim o [
          | inl e ↦ inr (inl e)
          | inr o' ↦ elim o' [
            | inl e ↦ inl e
            | inr o'' ↦ elim o'' [ inl e ↦ inr (inl e) | inr n ↦ absurd n ]
          ]
        ],
      ))
      (λ i l w.
        first_only
          (λ j. Occurs w (writes_of (j * chunk_size) chunk_size two_parts) → Occurs w one_place) i l
          (λ o. elim o [
            | inl e ↦ inr (inl e)
            | inr o' ↦ elim o' [ inl e ↦ inl e | inr n ↦ absurd n ]
          ]))

-- The same writes at the end of a download.
download_end-all_writes_example :
    (download_end digest meta (record empty_place { file = all_writes one_place (codes "555") })).0
    ≡ codes "Full file matched"
unfolding writes_of send_from send_loop
download_end-all_writes_example =
    download_end-all_writes digest (codes "abc") (codes "555") (λ i. two_parts) one_place meta
      (record empty_place { file = all_writes one_place (codes "555") }) refl refl refl
      (λ i l.
        first_only
          (λ j.
            (codes "abc" ≡ send_from (j * chunk_size) (codes "abc")) × All (λ p. p ≢ []) two_parts)
          i l (refl, ((λ e. cc), ((λ e. cc), tt))))
      (λ w o. (
        0,
        omega arith,
        elim o [
          | inl e ↦ inr (inl e)
          | inr o' ↦ elim o' [
            | inl e ↦ inl e
            | inr o'' ↦ elim o'' [ inl e ↦ inr (inl e) | inr n ↦ absurd n ]
          ]
        ],
      ))
      (λ i l w.
        first_only
          (λ j. Occurs w (writes_of (j * chunk_size) chunk_size two_parts) → Occurs w one_place) i l
          (λ o. elim o [
            | inl e ↦ inr (inl e)
            | inr o' ↦ elim o' [ inl e ↦ inl e | inr n ↦ absurd n ]
          ]))

-- The first seeder cannot be reached in the first round.
abbrev second_round : ℕ → Text × Text → Text → Option (List Text)
second_round zero a line = none
second_round (suc k) a line = some two_parts

download_kernel-delivers_example :
    download_kernel digest second_round meta 0 2 0 0 0 empty_place ≡ (
      recorded,
      record_chunk digest second_round meta 0
          (receive digest second_round meta 0 two_parts empty_place),
    )
unfolding send_from send_loop
download_kernel-delivers_example =
    download_kernel-delivers digest (λ t. refl) second_round meta 0 (codes "abc") 1 2 0 two_parts
      empty_place (refl, omega arith, omega arith) refl (omega arith) (omega arith)
      (λ j l seeder e. at_zero j l seeder) ((λ seeder e. refl), refl, ((λ e. cc), ((λ e. cc), tt)))
      (omega arith)
  where
    at_zero :
        (j : ℕ)
        → j < 1
        → (seeder : Text)
        → second_round j (address meta seeder) (send_chunk_line meta 0 seeder) ≡ none
    at_zero zero l seeder = refl
    at_zero (suc j) l seeder = absurd (omega arith)

abbrev nobody : ℕ → Text × Text → Text → Option (List Text)
nobody k a line = none

download_kernel-gives_up_example :
    download_kernel digest nobody meta 0 5 0 0 0 empty_place ≡ (gave_up, empty_place)
download_kernel-gives_up_example =
    download_kernel-gives_up digest nobody meta 0 5 0 empty_place (omega arith) (λ k a line. refl)

download_kernel-Checked_example :
    Checked digest second_round meta 0 empty_place
      (download_kernel digest second_round meta 0 2 0 0 0 empty_place)
download_kernel-Checked_example =
    download_kernel-Checked digest second_round meta 0 2 0 0 0 empty_place

-- A digest that is always the same, and a hash that it never is.
abbrev zeros : Text → List ℕ
zeros t = 0 ∷ 0 ∷ 0 ∷ 0 ∷ 0 ∷ 0 ∷ 0 ∷ 0 ∷ 0 ∷ 0 ∷ 0 ∷ 0 ∷ 0 ∷ 0 ∷ 0 ∷ 0 ∷ 0 ∷ 0 ∷ 0 ∷ 0 ∷ []

abbrev other_meta : FileData
other_meta = record meta { hash = codes "ffffffffffffffffffff" }

abbrev always : ℕ → Text × Text → Text → Option (List Text)
always k a line = some two_parts

download_kernel-stuck_example :
    (download_kernel zeros always other_meta 0 9 0 0 0 empty_place).0 ≡ running
unfolding get_file_hash_small temp_hash hex eq_text
download_kernel-stuck_example =
    download_kernel-stuck zeros always other_meta 0 (codes "x") 0 two_parts refl (λ k. refl)
      (λ s. refl) 9 0 0 empty_place

nchunks_of-bounds_example :
    (1 < nchunks_of 524289 → 1 * chunk_size < 524289)
    × (1 * chunk_size < 524289 → 1 < nchunks_of 524289)
nchunks_of-bounds_example = nchunks_of-bounds 524289 1

get_chunks-unreachable_example : get_chunks (λ a line. none) (λ v. v) meta ≡ none
get_chunks-unreachable_example =
    get_chunks-unreachable (λ a line. none) (λ v. v) meta (codes "y") (inr (inl refl)) refl

-- The seeder x has no piece yet, and y has the file.
abbrev tables : Text → Table (List ℕ)
tables s = if eq_text s (codes "x") then (codes "f", []) ∷ [] else []

abbrev online : Text × ℤ → Bool
online t = true

abbrev path_at : Text × ℤ → Text → Option Text
path_at t line = some (codes "p")

abbrev disk : Text → Option Text
disk p = some (codes "abc")

abbrev swarm : Text × Text → Text → Option Text
swarm a line = client_server_kernel online path_at disk (tables a.0) line

get_chunks-AllAskedWell_example :
    (cells : List Cell) × (get_chunks swarm (λ v. v) meta ≡ some cells)
    × (length cells ≡ 1)
    × AllAskedWell tables meta 0 cells
unfolding lookup eq_text to_string digits
get_chunks-AllAskedWell_example =
    get_chunks-AllAskedWell swarm online path_at disk tables meta (λ v. v) 3
      (λ v differ. (refl, λ p. refl)) ((λ e. cc), (refl, tt)) (omega arith) refl (omega arith)
      (refl, (refl, tt)) (tt, (tt, tt)) (((λ e. absurd (omega (arith, e))), tt), (tt, tt))

client_server_kernel-send_chunk_example :
    client_server_kernel online path_at disk [] (send_chunk_line meta 0 (codes "x"))
    ≡ some (send_from (0 * chunk_size) (codes "abc"))
client_server_kernel-send_chunk_example =
    client_server_kernel-send_chunk meta 0 (codes "x") (codes "h", 1) (codes "h", 2) online path_at
      disk [] (codes "abc") ((refl, tt), (refl, tt), (refl, tt), (refl, tt), (refl, tt))
      (server_path_lem (codes "h", 1) (codes "h", 2) (refl, tt) (refl, tt)) (omega arith)
      (omega arith) (omega arith) refl

-- A tracker that knows one file.
abbrev one_file : Text → Option Text
one_file line =
    if eq_text line (give_sha_line (codes "g") (codes "f") (codes "bob"))
    then some (codes "hash")
    else if eq_text line (give_seeders_line (codes "g") (codes "f") (codes "bob"))
    then some (codes "x 3")
    else some (codes "h 1")

download_start-seeders_reply_example :
    (m : FileData) × (download_start one_file
        (codes "g")
        (codes "f")
        (codes "p")
        (codes "bob")
        (codes "h")
        (pos 1)
        (tracker_line (codes "h", 1) ∷ tracker_line (codes "h", 2) ∷ [])
      ≡ some (downloading m (fives 3)))
    × (m.hash ≡ codes "hash")
    × (m.seeders ≡ codes "x" ∷ [])
    × (m.size ≡ to_string 3)
    × ((s : Text) → Named s (codes "x" ∷ []) → address m s ≡ (codes "h", codes "1"))
unfolding eq_text to_string digits
download_start-seeders_reply_example =
    download_start-seeders_reply one_file (λ s. (codes "h", codes "1")) (codes "g") (codes "f")
      (codes "p") (codes "bob") (codes "h") (pos 1)
      (tracker_line (codes "h", 1) ∷ tracker_line (codes "h", 2) ∷ []) b'h' (codes "ash")
      (codes "x") [] 3 (two_trackers (codes "h", 1) (codes "h", 2)) refl refl ((refl, tt), tt)
      (λ e. cc) ((refl, (refl, tt), (refl, tt)), tt)
      (server_path_lem (codes "h", 1) (codes "h", 2) (refl, tt) (refl, tt)) (omega arith)
