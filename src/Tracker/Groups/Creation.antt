-- ===== src/Tracker/Groups/Creation.antt =====
-- `GroupCreate` of tracker/tracker.cpp: what it writes, and the groups that the tracker then knows.
use torrent_based_file_shari.Common.{
  ◌≡◌, refl, sym, ap, subst, ◌∙◌, Bool, true, false, not, Option, none, some, List, [], ◌∷◌, ◌++◌,
  append-nil, if◌then◌else◌, get_elem?, Text, codes, eq_text, eq_text-append_left, split, Table,
  insert, contains, Option-cases, inl, inr,
}
use torrent_based_file_shari.Common.Strings.Split.{Lacks, split-field, split-Lacks}
use torrent_based_file_shari.Tracker.State.{
  Disk, lines, write, append_line, group_file, online_file, members_file, shared_file, Tables,
  Tracker,
}
use torrent_based_file_shari.Tracker.Fetch.{space, load, load_groups, load_online, create_files}
use torrent_based_file_shari.Tracker.Files.Deletion.{lines-create_files, Runs-fetch_details}
use torrent_based_file_shari.Tracker.Groups.{two_words, group_create}
use torrent_based_file_shari.Tracker.Safety.Rules.{
  Runs, Runs-bind, Runs-get, Runs-pure, Runs-when, Runs-on_disk, Runs-sync,
}
use torrent_based_file_shari.Tracker.Safety.Disk.{IsGroupName, lines-write_self, lines-write_other}
use torrent_based_file_shari.Tracker.Safety.Fetching.{
  IsGood, create_files-IsGood, Exists-write, Exists-write_self,
}
use torrent_based_file_shari.Tracker.Safety.Groups.{made, made-IsGood}

abbrev groups_in : Option Tables → Option (Table Text)
groups_in none = none
groups_in (some t) = some t.groups

pub load-groups :
    (d : Disk) (t : Tables) → load d ≡ some t → load_groups [] (lines d group_file) ≡ some t.groups
unfolding load
load-groups d t e = elim (Option-cases (load_online ([], []) (lines d online_file))) [
  | inl n ↦ let bad : none ≡ some t = rw n at e in cc
  | inr (on, f) ↦ elim (Option-cases (load_groups [] (lines d group_file))) [
    | inl n ↦ let bad : none ≡ some t = rw (f, n) at e in cc
    | inr (groups, g) ↦ g ∙ ap groups_in (rw (f, g) at e)
  ]
]

-- The line of a new group is read after the others.
pub load_groups-append :
    (group owner : Text) (acc groups : Table Text) (ls : List Text)
    → Lacks space group
    → Lacks space owner
    → load_groups acc ls ≡ some groups
    → load_groups acc (ls ++ two_words group owner ∷ []) ≡ some (insert group owner groups)
unfolding load_groups
load_groups-append group owner acc groups [] g o e =
    let same : acc ≡ groups = cc in
    let fields : split (two_words group owner) space ≡ group ∷ owner ∷ [] =
      split-field group owner g ∙ ap (λ l. group ∷ l) (split-Lacks space owner o) in
    rw (fields, same) refl
load_groups-append group owner acc groups (l ∷ ls) g o e =
    elim (Option-cases (get_elem? (split l space) 0)) [
      | inl n ↦ let bad : none ≡ some groups = rw n at e in cc
      | inr (name, n) ↦ elim (Option-cases (get_elem? (split l space) 1)) [
        | inl w ↦ let bad : none ≡ some groups = rw (n, w) at e in cc
        | inr (by, w) ↦
            rw (n, w)
              (load_groups-append group owner (insert name by acc) groups ls g o (rw (n, w) at e))
      ]
    ]

module _ (group owner : Text) where
  -- The tables and the files of a group after `GroupCreate`, by whether it is new.
  abbrev pub Created : Bool → Tables → Disk → Tracker → Type 0
  Created new t d s' =
      (s'.tables.groups ≡ (if new then insert group owner t.groups else t.groups))
      × (lines s'.disk group_file
          ≡ lines d group_file ++ (if new then two_words group owner ∷ [] else []))
      × (lines s'.disk (members_file group)
          ≡ (if new then owner ∷ [] else lines d (members_file group)))
      × (lines s'.disk (shared_file group) ≡ (if new then [] else lines d (shared_file group)))

  members-ne-group : eq_text (members_file group) group_file ≡ false
  unfolding eq_text
  members-ne-group = refl

  shared-ne-members : eq_text (shared_file group) (members_file group) ≡ false
  unfolding eq_text
  shared-ne-members = eq_text-append_left group (codes "_files.txt") (codes ".txt")

  pub lines-made :
      (d : Disk)
      → (lines (made group owner d) group_file ≡ lines d group_file ++ two_words group owner ∷ [])
        × (lines (made group owner d) (members_file group) ≡ owner ∷ [])
        × (lines (made group owner d) (shared_file group) ≡ [])
  unfolding made eq_text
  lines-made d =
      let d1 = append_line group_file (two_words group owner) d in
      let d2 = write (members_file group) (owner ∷ []) d1 in
      (
        lines-write_other (shared_file group) group_file [] d2 refl
            ∙ lines-write_other (members_file group) group_file (owner ∷ []) d1 refl
            ∙ lines-write_self group_file _ d,
        lines-write_other (shared_file group) (members_file group) [] d2 shared-ne-members
            ∙ lines-write_self (members_file group) _ d1,
        lines-write_self (shared_file group) [] d2,
      )

  -- The tables that are read in after the group was written.
  Created-made :
      (d d1 : Disk) (t t1 : Tables) (s2 : Tracker)
      → Lacks space group
      → Lacks space owner
      → load d1 ≡ some t1
      → t1 ≡ t
      → lines d1 group_file ≡ lines d group_file
      → s2.disk ≡ create_files (made group owner d1)
      → load s2.disk ≡ some s2.tables
      → Created true t d s2
  Created-made d d1 t t1 s2 g o e tables same made2 f =
      let (at_groups, at_members, at_shared) = lines-made d1 in
      let at =
        λ (q : Text). ap (λ x. lines x q) made2 ∙ lines-create_files q (made group owner d1) in
      let read : some s2.tables.groups ≡ some (insert group owner t1.groups) =
        sym (load-groups s2.disk s2.tables f)
        ∙ ap (load_groups []) (at group_file ∙ at_groups)
        ∙ load_groups-append group owner [] t1.groups (lines d1 group_file) g o
            (load-groups d1 t1 e) in
      let known : s2.tables.groups ≡ insert group owner t1.groups = cc in
      (
        known ∙ ap (λ x. insert group owner x.groups) tables,
        at group_file ∙ at_groups ∙ ap (λ ls. ls ++ two_words group owner ∷ []) same,
        at (members_file group) ∙ at_members,
        at (shared_file group) ∙ at_shared,
      )

  -- On good files, whose tables are `t`, and for names with no blank in them, the group's not ending in
  -- "_files": `GroupCreate` ends and answers yes exactly if the group is not known. Then it is added to the
  -- file of the groups and to those that are known, with this owner, who is its only member, and
  -- with no shared file; else its files and the groups stay as they are.
  pub group_create-Created :
      (s : Tracker) (t : Tables)
      → IsGroupName group
      → Lacks space group
      → Lacks space owner
      → IsGood s.disk
      → load (create_files s.disk) ≡ some t
      → Runs
          (group_create group owner)
          s
          (λ r s'. (r ≡ not (contains group t.groups)) × Created r t s.disk s')
  unfolding group_create made
  group_create-Created s t name g o h loaded =
      Runs-bind _ _ (Runs-fetch_details s h.safe) λ _ s1 (made1, e, _).
        let tables : s1.tables ≡ t =
          let both : some s1.tables ≡ some t = sym e ∙ ap load made1 ∙ loaded in cc in
        let same = λ (q : Text). ap (λ d. lines d q) made1 ∙ lines-create_files q s.disk in
        let good : IsGood s1.disk = subst IsGood (sym made1) (create_files-IsGood s.disk h.safe) in
        let of_tables = λ (b : Bool) (k : contains group s1.tables.groups ≡ b).
          sym (ap not (ap (λ x. contains group x.groups) (sym tables) ∙ k)) in
        Runs-get _ (
          Runs-when _ _ _
            (λ known. Runs-pure _ (
              of_tables true known,
              (
                ap (λ x. x.groups) tables,
                same group_file ∙ sym (append-nil _),
                same (members_file group),
                same (shared_file group),
              ),
            ))
            λ new. Runs-on_disk _ _ (
              Runs-on_disk _ _ (
                Runs-on_disk _ _ (
                  Runs-sync _ _ (search (Exists-write, Exists-write_self)) λ e1.
                    Runs-sync _ _ (search (Exists-write, Exists-write_self)) λ e2.
                      Runs-sync _ _ (search (Exists-write, Exists-write_self)) λ e3.
                        Runs-bind _ _
                          (Runs-fetch_details _ (made-IsGood group owner s1.disk name good).safe)
                          λ _ s2 (made2, f, _). Runs-pure _ (
                            of_tables false new,
                            Created-made s.disk s1.disk t s1.tables s2 g o e tables
                                (same group_file) made2 f,
                          )))))
