-- ===== src/Tracker/Tests/Lives.antt =====
-- A group that is made, and a download of its file.
use torrent_based_file_shari.Common.{
  ◌≡◌, ◌⊎◌, refl, Bool, true, false, not, some, none, List, [], ◌∷◌, ◌++◌, arith, keep, codes,
  eq_text, split, split_from, words, words_from, lookup, insert, set_insert, length, length-append,
  ap,
}
use torrent_based_file_shari.Tracker.State.{
  Disk, lines, write, downloading_file, downloaded_file, group_file, Tables, Tracker, ◌>>=◌,
}
use torrent_based_file_shari.Tracker.Fetch.{
  load, load_credentials, load_online, load_groups, load_pending, create_files,
}
use torrent_based_file_shari.Tracker.Groups.{group_create, two_words}
use torrent_based_file_shari.Tracker.Groups.Creation.{Created, group_create-Created}
use torrent_based_file_shari.Tracker.Groups.Races.{
  asked, answered, Event, step_begins, step_ends, interleave, overlapping,
}
use torrent_based_file_shari.Tracker.Groups.Races.Crossing.{
  crossing, BothCreated, interleave-BothCreated,
}
use torrent_based_file_shari.Tracker.Groups.Races.Schedules.{AnsweredWell, overlapping-AnsweredWell}
use torrent_based_file_shari.Tracker.Downloads.{send_sha, complete_download, show_downloads, marked}
use torrent_based_file_shari.Tracker.Downloads.Life.{
  begins, with_line, show_downloads-complete_download,
}
use torrent_based_file_shari.Tracker.Safety.Rules.{Runs}
use torrent_based_file_shari.Tracker.Safety.Disk.{IsGroupName}
use torrent_based_file_shari.Tracker.Safety.Paths.{Fits-group}
use torrent_based_file_shari.Tracker.Safety.Fetching.{IsGood, write-IsGood}
use torrent_based_file_shari.Tracker.Tests.{
  g-IsGroupName, files, files-IsGood, bob, g, alice, carol,
}

abbrev pub known_files : Disk
known_files = write group_file (codes "g alice" ∷ []) files

pub known_files-IsGood : IsGood known_files
unfolding split split_from
known_files-IsGood = write-IsGood group_file _ files (Fits-group _ (omega arith, tt)) files-IsGood

abbrev one_group : Tables
one_group = record {
  credentials = [];
  online = [];
  online_users = [];
  groups = (g, alice) ∷ [];
  pending = (carol, g) ∷ [];
}

abbrev pub at_rest : Tracker
at_rest = record { disk = known_files; tables = one_group; group_members = []; sibling = none }

loaded : load (create_files known_files) ≡ some one_group
unfolding load load_credentials load_online load_groups load_pending create_files write split
    split_from words words_from insert set_insert eq_text
loaded = refl

show_downloads-complete_download_example :
    Runs (send_sha g (codes "notes") bob >>= λ _. show_downloads bob) at_rest (λ r _.
      r
      ≡ marked (codes "[D] ") (
          with_line g
            (codes "notes")
            bob
            (begins g (codes "notes") bob one_group known_files)
            (lines known_files (downloading_file bob)))
        ++ marked (codes "[C] ") (lines known_files (downloaded_file bob)))
    × Runs (complete_download g (codes "notes") bob >>= λ _. show_downloads bob) at_rest (λ r _.
      r
      ≡ marked (codes "[D] ") (
          keep
            (λ l. not (eq_text l (two_words g (codes "notes"))))
            (lines known_files (downloading_file bob)))
        ++ marked
            (codes "[C] ")
            (lines known_files (downloaded_file bob) ++ two_words g (codes "notes") ∷ []))
show_downloads-complete_download_example =
    show_downloads-complete_download g (codes "notes") bob at_rest one_group known_files-IsGood
      loaded

h-IsGroupName : IsGroupName (codes "h")
h-IsGroupName x e = omega (arith, ap length e, length-append x (codes "_files"))

group_create-Created_example :
    Runs
      (group_create (codes "h") bob)
      at_rest
      (λ r s'. (r ≡ true) × Created (codes "h") bob r one_group known_files s')
unfolding lookup eq_text
group_create-Created_example =
    group_create-Created (codes "h") bob at_rest one_group h-IsGroupName (refl, tt)
      (refl, (refl, (refl, tt))) known_files-IsGood loaded

interleave-BothCreated_example :
    Runs (interleave g bob carol crossing asked asked) at_rest (BothCreated g bob carol known_files)
interleave-BothCreated_example =
    interleave-BothCreated g bob carol at_rest g-IsGroupName (refl, tt)
      (refl, (refl, (refl, (refl, (refl, tt))))) known_files-IsGood

read_before : load known_files ≡ some one_group
unfolding load load_credentials load_online load_groups load_pending write split split_from words
    words_from insert set_insert eq_text
read_before = refl

abbrev whole_step : Bool → List Event → List Event
whole_step t es = step_begins t ∷ step_ends t ∷ es

abbrev six_of_carol : List Event
six_of_carol = whole_step false (
    whole_step false (whole_step false (whole_step false (whole_step false (whole_step false [])))))

-- The second thread clears the tables while the first copies its files to the other tracker.
abbrev beside_copies : List Event
beside_copies = whole_step true (
    whole_step true (
      whole_step true (
        whole_step true (
          step_begins true
          ∷ whole_step false (step_ends true ∷ whole_step true (whole_step true six_of_carol))))))

overlapping-AnsweredWell_example :
    Runs (overlapping (codes "h") bob carol beside_copies false false asked asked) at_rest (λ r s'.
      (r ≡ none)
      ⊎ ((p : Bool) × (q : Bool) × (r ≡ some (answered p, answered q))
          × AnsweredWell (codes "h") bob carol at_rest p q s'))
overlapping-AnsweredWell_example =
    overlapping-AnsweredWell (codes "h") bob carol at_rest read_before h-IsGroupName beside_copies
      known_files-IsGood (omega arith) (omega arith)
