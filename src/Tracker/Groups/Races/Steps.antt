-- ===== src/Tracker/Groups/Races/Steps.antt =====
-- Each step of a thread in `GroupCreate` of tracker/tracker.cpp keeps the invariant.
use torrent_based_file_shari.Common.{
  ◌≡◌, refl, sym, ap, subst, ◌∙◌, ◌⊎◌, inl, inr, ◌-◌, ◌≤◌, arith, Bool, true, false, some, [], ◌∷◌,
  ◌++◌, append_assoc, append-nil, if◌then◌else◌, Text, contains, lookup, Bool-cases,
}
use torrent_based_file_shari.Tracker.State.{Disk, lines, group_file, Tracker}
use torrent_based_file_shari.Tracker.Fetch.{load, load_groups, create_files}
use torrent_based_file_shari.Tracker.Files.Deletion.{lines-create_files}
use torrent_based_file_shari.Tracker.Groups.{two_words}
use torrent_based_file_shari.Tracker.Groups.Creation.{load-groups, lines-made}
use torrent_based_file_shari.Tracker.Groups.Races.{
  no_tables, clear_tables, Creating, asked, cleared, fetched, free, wrote, copied, recleared,
  answered, creating_step,
}
use torrent_based_file_shari.Tracker.Safety.Rules.{
  Runs, Runs-bind, Runs-get, Runs-pure, Runs-on_disk, Runs-on_tables, Runs-sync,
}
use torrent_based_file_shari.Tracker.Safety.Disk.{IsGroupName}
use torrent_based_file_shari.Tracker.Safety.Fetching.{IsGood, create_files-IsGood}
use torrent_based_file_shari.Tracker.Safety.Groups.{made, made-IsGood}
use torrent_based_file_shari.Tracker.Groups.Races.Files.{
  Exists-create_files, made-Exists, Runs-read_in,
}
use torrent_based_file_shari.Tracker.Groups.Races.Known.{contains-load_groups}
use torrent_based_file_shari.Tracker.Groups.Races.Invariant.{
  has_written, steps_left, Written, Made, known, Fair,
}

Made-create_files : (group : Text) (d : Disk) → Made group d → Made group (create_files d)
Made-create_files group d (g, m, l) =
    (Exists-create_files _ d g, Exists-create_files _ d m, Exists-create_files _ d l)

module _ (group a b : Text) (start : Tracker) (loaded : load start.disk ≡ some start.tables)
    (name : IsGroupName group) where
  -- That the group is known has a reason.
  abbrev Reason : Creating → Creating → Type 0
  Reason x y = (known group start ≡ true) ⊎ ((has_written x ≡ true) ⊎ (has_written y ≡ true))

  -- A step that writes no line.
  Fair-moved :
      (x x' y : Creating) (s s' : Tracker)
      → has_written x' ≡ has_written x
      → (x' ≡ answered false → (known group start ≡ true) ⊎ (has_written y ≡ true))
      → Fair group start a b x y s
      → IsGood s'.disk
      → lines s'.disk group_file ≡ lines s.disk group_file
      → (Made group s.disk → Made group s'.disk)
      → (contains group s'.tables.groups ≡ true → Reason x y)
      → Fair group start a b x' y s'
  Fair-moved x x' y s s' hw no_ f good same kept reason = record {
    good = good;
    lines_written = f.lines_written;
    file = same ∙ f.file;
    by =
        subst
          (λ r. Written (two_words group a) (two_words group b) r (has_written y) f.lines_written)
          (sym hw) f.by;
    there_x = λ h. kept (f.there_x (sym hw ∙ h));
    there_y = λ h. kept (f.there_y h);
    tables = λ k. moved (reason k);
    no_x = no_;
    no_y = λ k. turned (f.no_y k);
  }
    where
      moved : Reason x y → Reason x' y
      moved (inl k) = inl k
      moved (inr (inl h)) = inr (inl (hw ∙ h))
      moved (inr (inr h)) = inr (inr h)

      turned :
          (known group start ≡ true) ⊎ (has_written x ≡ true)
          → (known group start ≡ true) ⊎ (has_written x' ≡ true)
      turned (inl k) = inl k
      turned (inr h) = inr (hw ∙ h)

  Fair-clears :
      (x x' y : Creating) (s : Tracker)
      → has_written x' ≡ has_written x
      → (x' ≡ answered false → (known group start ≡ true) ⊎ (has_written y ≡ true))
      → Fair group start a b x y s
      → Fair group start a b x' y (record s { tables = no_tables })
  unfolding lookup
  Fair-clears x x' y s hw no_ f =
      Fair-moved x x' y s (record s { tables = no_tables }) hw no_ f f.good refl (λ m. m)
        λ k. let bad : false ≡ true = k in cc

  -- Why a group is known after `FetchDetails`.
  reads-Reason :
      (x y : Creating) (s s' : Tracker)
      → Fair group start a b x y s
      → load_groups s.tables.groups (lines s.disk group_file) ≡ some s'.tables.groups
      → contains group s'.tables.groups ≡ true
      → Reason x y
  reads-Reason x y s s' f e k = by_cases (Bool-cases (has_written x)) (Bool-cases (has_written y))
    where
      unwritten :
          has_written x ≡ false
          → has_written y ≡ false
          → lines s.disk group_file ≡ lines start.disk group_file
      unwritten p q =
          let none_yet : f.lines_written ≡ [] =
            subst (λ r. Written (two_words group a) (two_words group b) r false f.lines_written) p
              (subst
                (λ r.
                  Written (two_words group a) (two_words group b) (has_written x) r f.lines_written)
                q f.by) in
          f.file ∙ ap (λ ws. lines start.disk group_file ++ ws) none_yet ∙ append-nil _

      by_cases :
          (has_written x ≡ true) ⊎ (has_written x ≡ false)
          → (has_written y ≡ true) ⊎ (has_written y ≡ false)
          → Reason x y
      by_cases (inl p) q = inr (inl p)
      by_cases (inr p) (inl q) = inr (inr q)
      by_cases (inr p) (inr q) =
          elim (contains-load_groups group s.tables.groups [] s'.tables.groups start.tables.groups
            (lines start.disk group_file)
            (ap (load_groups s.tables.groups) (sym (unwritten p q)) ∙ e)
            (load-groups start.disk start.tables loaded) k) [
              | inl old ↦ f.tables old
              | inr there ↦ inl there
            ]

  Fair-reads :
      (x x' y : Creating) (s s' : Tracker)
      → has_written x' ≡ has_written x
      → (x' ≡ answered false → (known group start ≡ true) ⊎ (has_written y ≡ true))
      → Fair group start a b x y s
      → s'.disk ≡ create_files s.disk
      → load_groups s.tables.groups (lines s.disk group_file) ≡ some s'.tables.groups
      → Fair group start a b x' y s'
  Fair-reads x x' y s s' hw no_ f d e =
      Fair-moved x x' y s s' hw no_ f
        (subst IsGood (sym d) (create_files-IsGood s.disk f.good.safe))
        (ap (λ d. lines d group_file) d ∙ lines-create_files group_file s.disk)
        (λ m. subst (Made group) (sym d) (Made-create_files group s.disk m))
        (reads-Reason x y s s' f e)

  -- The writes of a thread, under one lock.
  Fair-writes :
      (y : Creating) (s : Tracker)
      → Fair group start a b free y s
      → Fair group start a b wrote y (record s { disk = made group a s.disk })
  Fair-writes y s f = record {
    good = still_good;
    lines_written = f.lines_written ++ two_words group a ∷ [];
    file =
        (lines-made group a s.disk).0
        ∙ ap (λ ls. ls ++ two_words group a ∷ []) f.file
        ∙ append_assoc (lines start.disk group_file) f.lines_written (two_words group a ∷ []);
    by = behind (has_written y) f.by;
    there_x = λ _. made-Exists group a s.disk;
    there_y = λ _. made-Exists group a s.disk;
    tables = λ _. inr (inl refl);
    no_x = λ e. cc;
    no_y = λ _. inr refl;
  }
    where
      still_good : IsGood (made group a s.disk)
      still_good = made-IsGood group a s.disk name f.good

      behind :
          (q : Bool)
          → Written (two_words group a) (two_words group b) false q f.lines_written
          → Written
              (two_words group a)
              (two_words group b)
              true
              q
              (f.lines_written ++ two_words group a ∷ [])
      behind false e = ap (λ ws. ws ++ two_words group a ∷ []) e
      behind true e = inr (ap (λ ws. ws ++ two_words group a ∷ []) e)

  -- A refusal has a reason other than the thread itself.
  refused : (y : Creating) → Reason fetched y → (known group start ≡ true) ⊎ (has_written y ≡ true)
  refused y (inl k) = inl k
  refused y (inr (inl h)) = let bad : false ≡ true = h in cc
  refused y (inr (inr h)) = inr h

  -- A step of the first thread.
  pub Fair-step :
      (x y : Creating) (s : Tracker)
      → Fair group start a b x y s
      → Runs
          (creating_step group a x)
          s
          (λ x' s'. Fair group start a b x' y s' × (steps_left x' ≤ steps_left x - 1))
  unfolding creating_step clear_tables made
  Fair-step asked y s f =
      Runs-on_tables _ _ (Runs-pure _ (Fair-clears asked cleared y s refl (λ k. cc) f, omega arith))
  Fair-step cleared y s f = Runs-bind _ _ (Runs-read_in s f.good) λ _ s' (d, e).
      Runs-pure _ (Fair-reads cleared fetched y s s' refl (λ k. cc) f d e, omega arith)
  Fair-step fetched y s f = Runs-get _ (Runs-pure _ (look (contains group s.tables.groups) refl))
    where
      look :
          (k : Bool)
          → contains group s.tables.groups ≡ k
          → Fair group start a b (if k then answered false else free) y s
            × (steps_left (if k then answered false else free) ≤ 4)
      look true k = (
        Fair-moved fetched (answered false) y s s refl (λ _. refused y (f.tables k)) f f.good refl
            (λ m. m) f.tables,
        omega arith,
      )
      look false k = (
        Fair-moved fetched free y s s refl (λ e. cc) f f.good refl (λ m. m) f.tables,
        omega arith,
      )
  Fair-step free y s f =
      Runs-on_disk _ _
        (Runs-on_disk _ _ (Runs-on_disk _ _ (Runs-pure _ (Fair-writes y s f, omega arith))))
  Fair-step wrote y s f =
      let (g, m, l) = f.there_x refl in
      Runs-sync _ _ g λ e1. Runs-sync _ _ m λ e2. Runs-sync _ _ l λ e3. Runs-pure _ (
        Fair-moved wrote copied y s (record s { sibling = e3 }) refl (λ k. cc) f f.good refl
            (λ m. m) f.tables,
        omega arith,
      )
  Fair-step copied y s f =
      Runs-on_tables _ _
        (Runs-pure _ (Fair-clears copied recleared y s refl (λ k. cc) f, omega arith))
  Fair-step recleared y s f = Runs-bind _ _ (Runs-read_in s f.good) λ _ s' (d, e).
      Runs-pure _ (Fair-reads recleared (answered true) y s s' refl (λ k. cc) f d e, omega arith)
  Fair-step (answered r) y s f = Runs-pure _ (f, omega arith)
