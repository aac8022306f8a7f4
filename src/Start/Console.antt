-- ===== src/Start/Console.antt =====
-- The console of a tracker: the loop of `main` of tracker/tracker.cpp over the words that are typed, and
-- `print_all`.
use torrent_based_file_shari.Common.{
  ◌≡◌, refl, true, false, List, [], ◌∷◌, ◌++◌, if◌then◌else◌, Text, codes, newline, eq_text,
  is_space, push_word, Table,
}
use torrent_based_file_shari.Tracker.State.{
  Tracker, M, get, pure, ◌>>=◌, ◌>>◌, when◌perform◌otherwise◌,
}
use torrent_based_file_shari.Tracker.Fetch.{fetch_details}
use torrent_based_file_shari.Tracker.Groups.{two_words}
use torrent_based_file_shari.Tracker.Safety.Rules.{Runs, Runs-bind, Runs-get, Runs-pure, Runs-when}
use torrent_based_file_shari.Tracker.Safety.Fetching.{IsGood, Good, fetch_details-Good}

-- `cout<<i.first<<" "<<i.second<<endl` for each of a list.
abbrev pub print_pairs : List (Text × Text) → Text
print_pairs [] = []
print_pairs ((a, b) ∷ ps) = two_words a b ++ (newline ++ print_pairs ps)

abbrev pub print_addresses : Table (Text × Text) → Text
print_addresses [] = []
print_addresses ((a, (b, c)) ∷ ps) = two_words a (two_words b c) ++ (newline ++ print_addresses ps)

abbrev pub print_names : List Text → Text
print_names [] = []
print_names (a ∷ rest) = a ++ (newline ++ print_names rest)

abbrev pub section : Text → Text → Text
section title rows = codes "##### " ++ (title ++ (newline ++ rows))

unfoldable pub print_all : List (Text × Text) → M Text
print_all tracker_info = do
  fetch_details
  s ← get
  pure (
      section (codes "credentials") (print_pairs s.tables.credentials)
      ++ (section (codes "online_users") (print_addresses s.tables.online_users)
          ++ (section (codes "groups") (print_pairs s.tables.groups)
              ++ (section (codes "online") (print_names s.tables.online)
                  ++ (section (codes "tracker_info") (print_pairs tracker_info)
                      ++ section (codes "pending") (print_pairs s.tables.pending))))))

-- The words that `cin>>command` reads with no end of the input: the last word counts only where a blank or a line's
-- end comes behind it.
unfoldable pub typed_from : Text → Text → List Text
typed_from temp [] = []
typed_from temp (c ∷ cs) = elim (is_space c) [
  | true ↦ push_word temp (typed_from [] cs)
  | false ↦ typed_from (temp ++ c ∷ []) cs
]

-- How the loop ends: by `quit`, or at the end of the input, where `main` waits for the server's thread.
pub data ConsoleEnd : Type 0 where
  quit waits : ConsoleEnd

unfoldable pub console : List (Text × Text) → List Text → M (Text × ConsoleEnd)
console tracker_info [] = pure ([], waits)
console tracker_info (command ∷ commands) =
    when eq_text command (codes "quit") perform pure ([], quit) otherwise (do
      shown ← when eq_text command (codes "print") perform print_all tracker_info otherwise pure []
      rest ← console tracker_info commands
      pure (shown ++ rest.0, rest.1))

print_all-Good :
    (tracker_info : List (Text × Text)) (s : Tracker)
    → IsGood s.disk
    → Runs (print_all tracker_info) s Good
unfolding print_all
print_all-Good tracker_info s h =
    Runs-bind _ _ (fetch_details-Good s h.safe) λ _ s' h'. Runs-get _ (Runs-pure _ h')

-- How the console ends, as the words say.
abbrev pub ends_by : List Text → ConsoleEnd
ends_by [] = waits
ends_by (command ∷ commands) = if eq_text command (codes "quit") then quit else ends_by commands

-- On good files the console ends whatever is typed, by `quit` exactly if that is typed, and the files
-- are good after it.
pub console-Good :
    (tracker_info : List (Text × Text)) (commands : List Text) (s : Tracker)
    → IsGood s.disk
    → Runs (console tracker_info commands) s (λ r s'. (r.1 ≡ ends_by commands) × IsGood s'.disk)
unfolding console
console-Good tracker_info [] s h = Runs-pure _ (refl, h)
console-Good tracker_info (command ∷ commands) s h =
    Runs-when _ _ _ (λ e. Runs-pure _ (rw e (refl, h)))
      λ e.
        Runs-bind _ _ {P = λ _ s1. IsGood s1.disk}
          (Runs-when _ _ _ (λ _. print_all-Good tracker_info s h) (λ _. Runs-pure _ h))
          λ _ s1 h1.
            Runs-bind _ _ (console-Good tracker_info commands s1 h1)
              λ r s2 (ends, h2). Runs-pure _ (rw e (ends, h2))
