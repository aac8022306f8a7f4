-- ===== src/Tracker/Groups/Races/Invariant.antt =====
-- What holds between the steps of two threads in `GroupCreate` of tracker/tracker.cpp, in whatever order
-- they come.
use torrent_based_file_shari.Common.{
  ◌≡◌, ◌⊎◌, inl, inr, ℕ, Bool, true, false, List, [], ◌∷◌, ◌++◌, Text, contains,
}
use torrent_based_file_shari.Tracker.State.{
  Disk, lines, group_file, members_file, shared_file, Tracker,
}
use torrent_based_file_shari.Tracker.Groups.{two_words}
use torrent_based_file_shari.Tracker.Groups.Races.{
  Creating, asked, cleared, fetched, free, wrote, copied, recleared, answered,
}
use torrent_based_file_shari.Tracker.Safety.Rules.{Exists}
use torrent_based_file_shari.Tracker.Safety.Fetching.{IsGood}

-- Whether a thread has written its group, and how many of its steps are left at most.
abbrev pub has_written : Creating → Bool
has_written wrote = true
has_written copied = true
has_written recleared = true
has_written (answered r) = r
has_written _ = false

abbrev pub steps_left : Creating → ℕ
steps_left asked = 7
steps_left cleared = 6
steps_left fetched = 5
steps_left free = 4
steps_left wrote = 3
steps_left copied = 2
steps_left recleared = 1
steps_left (answered r) = 0

-- The lines that two threads have written, by which of them has.
abbrev pub Written : Text → Text → Bool → Bool → List Text → Type 0
Written la lb false false ws = ws ≡ []
Written la lb true false ws = ws ≡ la ∷ []
Written la lb false true ws = ws ≡ lb ∷ []
Written la lb true true ws = (ws ≡ la ∷ lb ∷ []) ⊎ (ws ≡ lb ∷ la ∷ [])

-- The files of the group are there.
abbrev pub Made : Text → Disk → Type 0
Made group d = Exists d group_file × Exists d (members_file group) × Exists d (shared_file group)

module _ (group : Text) (start : Tracker) where
  -- Whether the group is known at the start.
  abbrev pub known : Bool
  known = contains group start.tables.groups

  -- What holds between two steps of the threads for `a` and `b`.
  pub record Fair (a b : Text) (x y : Creating) (s : Tracker) : Type 0 where
    pub good : IsGood s.disk
    pub lines_written : List Text
    pub file : lines s.disk group_file ≡ lines start.disk group_file ++ lines_written
    pub by :
        Written
          (two_words group a)
          (two_words group b)
          (has_written x)
          (has_written y)
          lines_written
    pub there_x : has_written x ≡ true → Made group s.disk
    pub there_y : has_written y ≡ true → Made group s.disk
    pub tables :
        contains group s.tables.groups ≡ true
        → (known ≡ true) ⊎ ((has_written x ≡ true) ⊎ (has_written y ≡ true))
    pub no_x : x ≡ answered false → (known ≡ true) ⊎ (has_written y ≡ true)
    pub no_y : y ≡ answered false → (known ≡ true) ⊎ (has_written x ≡ true)

  pub Fair-swap : (a b : Text) (x y : Creating) (s : Tracker) → Fair a b x y s → Fair b a y x s
  Fair-swap a b x y s f = record {
    good = f.good;
    lines_written = f.lines_written;
    file = f.file;
    by = swapped (has_written x) (has_written y) f.lines_written f.by;
    there_x = f.there_y;
    there_y = f.there_x;
    tables = λ k. turned (f.tables k);
    no_x = f.no_y;
    no_y = f.no_x;
  }
    where
      swapped :
          (p q : Bool) (ws : List Text)
          → Written (two_words group a) (two_words group b) p q ws
          → Written (two_words group b) (two_words group a) q p ws
      swapped false false ws e = e
      swapped true false ws e = e
      swapped false true ws e = e
      swapped true true ws (inl e) = inr e
      swapped true true ws (inr e) = inl e

      turned : {P Q R : Type 0} → P ⊎ (Q ⊎ R) → P ⊎ (R ⊎ Q)
      turned (inl p) = inl p
      turned (inr (inl q)) = inr (inr q)
      turned (inr (inr r)) = inr (inl r)
