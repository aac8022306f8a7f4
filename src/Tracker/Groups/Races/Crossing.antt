-- ===== src/Tracker/Groups/Races/Crossing.antt =====
-- Two threads of tracker/tracker.cpp that both create one group, known or not: each clears the tables just before
-- the other looks the group up.
use torrent_based_file_shari.Common.{
  ◌≡◌, refl, sym, ap, subst, ◌∙◌, Bool, true, false, Option, some, List, [], ◌∷◌, ◌++◌, Text,
  lookup, insert, contains,
}
use torrent_based_file_shari.Common.Sets.{lookup-insert_same}
use torrent_based_file_shari.Common.Strings.Split.{Lacks}
use torrent_based_file_shari.Tracker.State.{
  Disk, lines, group_file, members_file, shared_file, Tracker, M, ◌>>=◌,
}
use torrent_based_file_shari.Tracker.Fetch.{space, load_groups, create_files}
use torrent_based_file_shari.Tracker.Files.Deletion.{lines-create_files}
use torrent_based_file_shari.Tracker.Groups.{two_words}
use torrent_based_file_shari.Tracker.Groups.Creation.{load_groups-append, lines-made}
use torrent_based_file_shari.Tracker.Groups.Races.{
  no_tables, clear_tables, Creating, asked, cleared, fetched, free, wrote, copied, recleared,
  answered, creating_step, interleave,
}
use torrent_based_file_shari.Tracker.Groups.Races.Files.{made-Exists, Runs-read_in}
use torrent_based_file_shari.Tracker.Safety.Rules.{
  Runs, Exists, Runs-bind, Runs-get, Runs-pure, Runs-on_disk, Runs-on_tables, Runs-sync,
}
use torrent_based_file_shari.Tracker.Safety.Disk.{IsGroupName}
use torrent_based_file_shari.Tracker.Safety.Lines.{Has-load_groups}
use torrent_based_file_shari.Tracker.Safety.Fetching.{IsGood, create_files-IsGood}
use torrent_based_file_shari.Tracker.Safety.Groups.{made, made-IsGood}

module _ (group owner : Text) {B : Type 0} {Q : B → Tracker → Type 0} where
  Runs-clears :
      (f : Creating → M B) {s : Tracker}
      → Runs (f cleared) (record s { tables = no_tables }) Q
      → Runs (creating_step group owner asked >>= f) s Q
  unfolding creating_step clear_tables
  Runs-clears f k =
      Runs-bind _ f {P = λ x s'. Runs (f x) s' Q} (Runs-on_tables _ _ (Runs-pure _ k)) λ _ _ h'. h'

  Runs-clears_again :
      (f : Creating → M B) {s : Tracker}
      → Runs (f recleared) (record s { tables = no_tables }) Q
      → Runs (creating_step group owner copied >>= f) s Q
  unfolding creating_step clear_tables
  Runs-clears_again f k =
      Runs-bind _ f {P = λ x s'. Runs (f x) s' Q} (Runs-on_tables _ _ (Runs-pure _ k)) λ _ _ h'. h'

  Runs-reads :
      (f : Creating → M B) {s : Tracker}
      → IsGood s.disk
      → ((s' : Tracker) → s'.disk ≡ create_files s.disk → Runs (f fetched) s' Q)
      → Runs (creating_step group owner cleared >>= f) s Q
  unfolding creating_step
  Runs-reads f {s} h k =
      Runs-bind _ f {P = λ x s'. Runs (f x) s' Q}
        (Runs-bind _ _ (Runs-read_in s h) λ _ s' (d, t). Runs-pure _ (k s' d)) λ _ _ h'. h'

  Runs-reads_again :
      (f : Creating → M B) {s : Tracker}
      → IsGood s.disk
      → ((s' : Tracker)
          → s'.disk ≡ create_files s.disk
          → load_groups s.tables.groups (lines s.disk group_file) ≡ some s'.tables.groups
          → Runs (f (answered true)) s' Q)
      → Runs (creating_step group owner recleared >>= f) s Q
  unfolding creating_step
  Runs-reads_again f {s} h k =
      Runs-bind _ f {P = λ x s'. Runs (f x) s' Q}
        (Runs-bind _ _ (Runs-read_in s h) λ _ s' (d, t). Runs-pure _ (k s' d t)) λ _ _ h'. h'

  Runs-finds_none :
      (f : Creating → M B) {s : Tracker}
      → contains group s.tables.groups ≡ false
      → Runs (f free) s Q
      → Runs (creating_step group owner fetched >>= f) s Q
  unfolding creating_step
  Runs-finds_none f {s} new k =
      Runs-bind _ f {P = λ x s'. Runs (f x) s' Q} (Runs-get _ (Runs-pure _ (rw new k))) λ _ _ h'. h'

  Runs-writes :
      (f : Creating → M B) {s : Tracker}
      → Runs (f wrote) (record s { disk = made group owner s.disk }) Q
      → Runs (creating_step group owner free >>= f) s Q
  unfolding creating_step made
  Runs-writes f k =
      Runs-bind _ f {P = λ x s'. Runs (f x) s' Q}
        (Runs-on_disk _ _ (Runs-on_disk _ _ (Runs-on_disk _ _ (Runs-pure _ k)))) λ _ _ h'. h'

  Runs-copies :
      (f : Creating → M B) {s : Tracker}
      → Exists s.disk group_file
        × Exists s.disk (members_file group)
        × Exists s.disk (shared_file group)
      → ((e : Option Disk) → Runs (f copied) (record s { sibling = e }) Q)
      → Runs (creating_step group owner wrote >>= f) s Q
  unfolding creating_step
  Runs-copies f (g, m, l) k =
      Runs-bind _ f {P = λ x s'. Runs (f x) s' Q}
        (Runs-sync _ _ g λ e1. Runs-sync _ _ m λ e2. Runs-sync _ _ l λ e3. Runs-pure _ (k e3))
        λ _ _ h'. h'

-- The steps of the two threads: `true` for the first.
abbrev pub crossing : List Bool
crossing =
    true ∷ true ∷ false ∷ true ∷ false ∷ true ∷ true ∷ true ∷ false ∷ false ∷ false ∷ true ∷ false
    ∷ false ∷ []

module _ (group a b : Text) where
  -- What is left after both threads.
  abbrev pub BothCreated : Disk → Creating × Creating → Tracker → Type 0
  BothCreated d r s' =
      (r ≡ (answered true, answered true))
      × (lines s'.disk group_file
          ≡ (lines d group_file ++ two_words group a ∷ []) ++ two_words group b ∷ [])
      × (lines s'.disk (members_file group) ≡ b ∷ [])
      × (lookup group s'.tables.groups ≡ some b)

  created_last :
      (s s2 s3 s4 : Tracker)
      → Lacks space group
      → Lacks space b
      → ((q : Text) → lines s2.disk q ≡ lines s.disk q)
      → IsGood (made group a s2.disk)
      → s3.disk ≡ create_files (made group b (made group a s2.disk))
      → s4.disk ≡ create_files s3.disk
      → load_groups [] (lines s3.disk group_file) ≡ some s4.tables.groups
      → BothCreated s.disk (answered true, answered true) s4
  created_last s s2 s3 s4 g ob back good d3 d4 t4 =
      let one = made group a s2.disk in
      let (groups_a, _, _) = lines-made group a s2.disk in
      let (groups_b, members_b, _) = lines-made group b one in
      let third = λ (q : Text). ap (λ d. lines d q) d3 ∙ lines-create_files q (made group b one) in
      let last = λ (q : Text). ap (λ d. lines d q) d4 ∙ lines-create_files q s3.disk ∙ third q in
      let (groups, e) = Has-load_groups [] (lines one group_file) good.safe.groups in
      let read : some s4.tables.groups ≡ some (insert group b groups) =
        sym t4
        ∙ ap (load_groups []) (third group_file ∙ groups_b)
        ∙ load_groups-append group b [] groups (lines one group_file) g ob e in
      let known : s4.tables.groups ≡ insert group b groups = cc in
      (
        refl,
        last group_file
            ∙ groups_b
            ∙ ap (λ ls. ls ++ two_words group b ∷ []) groups_a
            ∙ ap (λ ls. (ls ++ two_words group a ∷ []) ++ two_words group b ∷ []) (back group_file),
        last (members_file group) ∙ members_b,
        ap (lookup group) known ∙ lookup-insert_same group b groups,
      )

  -- If two threads create one group, whose name does not end in "_files", for `a` and for `b`, on good files, the
  -- names of the group and of `b` have no blank, and the steps come in the order of `crossing`, then both
  -- answer yes, whether the group was known or not, and both lines are added to the file of the
  -- groups; but the group is `b`'s, who is its only member.
  pub interleave-BothCreated :
      (s : Tracker)
      → IsGroupName group
      → Lacks space group
      → Lacks space b
      → IsGood s.disk
      → Runs (interleave group a b crossing asked asked) s (BothCreated s.disk)
  unfolding interleave lookup
  interleave-BothCreated s name g ob h = Runs-clears group a _ (
      Runs-reads group a _ h λ s1 d1.
        let h1 : IsGood s1.disk = subst IsGood (sym d1) (create_files-IsGood s.disk h.safe) in
        Runs-clears group b _ (
          Runs-finds_none group a _ refl (
            Runs-reads group b _ h1 λ s2 d2.
              let h2 : IsGood s2.disk =
                subst IsGood (sym d2) (create_files-IsGood s1.disk h1.safe) in
              let back : (q : Text) → lines s2.disk q ≡ lines s.disk q = λ q.
                ap (λ d. lines d q) d2
                ∙ lines-create_files q s1.disk
                ∙ ap (λ d. lines d q) d1
                ∙ lines-create_files q s.disk in
              let one = made group a s2.disk in
              let h3 : IsGood one = made-IsGood group a s2.disk name h2 in
              let both = made group b one in
              let h4 : IsGood both = made-IsGood group b one name h3 in
              Runs-writes group a _ (
                Runs-copies group a _ (made-Exists group a s2.disk) λ e1.
                  Runs-clears_again group a _ (
                    Runs-finds_none group b _ refl (
                      Runs-writes group b _ (
                        Runs-copies group b _ (made-Exists group b one) λ e2.
                          Runs-reads_again group a _ h4 λ s3 d3 _. Runs-clears_again group b _ (
                            Runs-reads_again group b _
                              (subst IsGood (sym d3) (create_files-IsGood both h4.safe))
                              λ s4 d4 t4.
                                Runs-pure _ (created_last s s2 s3 s4 g ob back h3 d3 d4 t4)))))))))
