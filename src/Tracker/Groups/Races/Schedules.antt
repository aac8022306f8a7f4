-- ===== src/Tracker/Groups/Races/Schedules.antt =====
-- Every way in which the steps of two threads in `GroupCreate` of tracker/tracker.cpp can begin and end.
use torrent_based_file_shari.Common.{
  ◌≡◌, refl, sym, subst, ◌∙◌, ◌⊎◌, inl, inr, ℕ, suc, ◌-◌, ◌≤◌, arith, not, ap₂, Bool, true, false,
  Option, none, some, List, [], ◌∷◌, ◌++◌, append-nil, if◌then◌else◌, Text, Option-cases,
}
use torrent_based_file_shari.Tracker.State.{
  lines, group_file, Tracker, M, pure, ◌>>=◌, when◌perform◌otherwise◌,
}
use torrent_based_file_shari.Tracker.Fetch.{load}
use torrent_based_file_shari.Tracker.Groups.{two_words}
use torrent_based_file_shari.Tracker.Groups.Races.{
  Creating, asked, cleared, fetched, free, wrote, copied, recleared, answered, Event, step_begins,
  step_ends, overlapping, interleave, creating_step,
}
use torrent_based_file_shari.Tracker.Safety.Rules.{
  Runs, Runs-bind, Runs-pure, Runs-weaken, Runs-when,
}
use torrent_based_file_shari.Tracker.Safety.Disk.{IsGroupName}
use torrent_based_file_shari.Tracker.Safety.Fetching.{IsGood}
use torrent_based_file_shari.Tracker.Groups.Races.Invariant.{
  steps_left, Written, known, Fair, Fair-swap,
}
use torrent_based_file_shari.Tracker.Groups.Races.Steps.{Fair-step}

abbrev same_turn : Bool → Bool → Bool
same_turn true t = t
same_turn false t = not t

-- How many steps of one of the threads end.
abbrev pub ended_in : Bool → List Event → ℕ
ended_in which [] = 0
ended_in which (step_begins t ∷ es) = ended_in which es
ended_in which (step_ends t ∷ es) =
    if same_turn which t then suc (ended_in which es) else ended_in which es

module _ (group a b : Text) (start : Tracker) where
  -- What two threads leave that have answered `p` and `q`.
  abbrev pub AnsweredWell : Bool → Bool → Tracker → Type 0
  AnsweredWell p q s' =
      (ws : List Text) × (lines s'.disk group_file ≡ lines start.disk group_file ++ ws)
      × Written (two_words group a) (two_words group b) p q ws
      × (known group start ≡ false → (p ≡ true) ⊎ (q ≡ true))
      × IsGood s'.disk

module _ (group a b : Text) (start : Tracker) (loaded : load start.disk ≡ some start.tables)
    (name : IsGroupName group) where
  -- What is known of two threads at `x` and `y` after the events, unless two steps clashed.
  abbrev Kept : List Event → Creating → Creating → Option (Creating × Creating) → Tracker → Type 0
  Kept es x y r s' =
      (r ≡ none)
      ⊎ ((z : Creating × Creating) × (r ≡ some z)
          × Fair group start a b z.0 z.1 s'
          × (steps_left z.0 ≤ steps_left x - ended_in true es)
          × (steps_left z.1 ≤ steps_left y - ended_in false es))

  Fair-overlapping :
      (es : List Event) (p q : Bool) (x y : Creating) (s : Tracker)
      → Fair group start a b x y s
      → Runs (overlapping group a b es p q x y) s (Kept es x y)
  unfolding overlapping
  Fair-overlapping [] p q x y s f = Runs-pure _ (inr ((x, y), refl, f, omega arith, omega arith))
  Fair-overlapping (step_begins true ∷ es) p q x y s f =
      Runs-when _ _ _ (λ _. Runs-pure _ (inl refl)) (λ _. Fair-overlapping es true q x y s f)
  Fair-overlapping (step_begins false ∷ es) p q x y s f =
      Runs-when _ _ _ (λ _. Runs-pure _ (inl refl)) (λ _. Fair-overlapping es p true x y s f)
  Fair-overlapping (step_ends true ∷ es) p q x y s f =
      Runs-when _ _ _
        (λ _. Runs-bind _ _ (Fair-step group a b start loaded name x y s f) λ x' s1 (f1, less).
          Runs-weaken (Fair-overlapping es false q x' y s1 f1) λ r s' k. elim k [
            | inl clashed ↦ inl clashed
            | inr (z, e, f2, left_x, left_y) ↦ inr (z, e, f2, omega (arith, less, left_x), left_y)
          ])
        (λ _. Runs-pure _ (inl refl))
  Fair-overlapping (step_ends false ∷ es) p q x y s f =
      Runs-when _ _ _
        (λ _.
          Runs-bind _ _
            (Fair-step group b a start loaded name y x s (Fair-swap group start a b x y s f))
            λ y' s1 (f1, less).
              Runs-weaken
                (Fair-overlapping es p false x y' s1 (Fair-swap group start b a y' x s1 f1))
                λ r s' k. elim k [
                  | inl clashed ↦ inl clashed
                  | inr (z, e, f2, left_x, left_y) ↦
                      inr (z, e, f2, left_x, omega (arith, less, left_y))
                ])
        (λ _. Runs-pure _ (inl refl))

  ended_of : (x : Creating) → steps_left x ≤ 0 → (p : Bool) × (x ≡ answered p)
  ended_of asked h = absurd (omega arith)
  ended_of cleared h = absurd (omega arith)
  ended_of copied h = absurd (omega arith)
  ended_of recleared h = absurd (omega arith)
  ended_of fetched h = absurd (omega arith)
  ended_of free h = absurd (omega arith)
  ended_of wrote h = absurd (omega arith)
  ended_of (answered p) h = (p, refl)

  answered-AnsweredWell :
      (p q : Bool) (s' : Tracker)
      → Fair group start a b (answered p) (answered q) s'
      → AnsweredWell group a b start p q s'
  answered-AnsweredWell p q s' f = (f.lines_written, f.file, f.by, some_one p q f, f.good)
    where
      some_one :
          (p q : Bool)
          → Fair group start a b (answered p) (answered q) s'
          → known group start ≡ false
          → (p ≡ true) ⊎ (q ≡ true)
      some_one true q f k = inl refl
      some_one false q f k = elim (f.no_x refl) [
        | inl h ↦ let bad : true ≡ false = sym h ∙ k in cc
        | inr h ↦ inr h
      ]

  -- In whatever order the steps of two threads begin and end that create one group, for `a` and for `b`, whose
  -- name does not end in "_files", on good files and with tables that were read from them: either a
  -- step begins that clashes with one under way, which is undefined behaviour or kept out by the lock (or the
  -- events are not those of two threads), or after at least seven steps of each both have answered; the
  -- lines added to the file of the groups are those of the threads that answered yes; if the group was not
  -- known at least one did; and the files are good.
  pub overlapping-AnsweredWell :
      (es : List Event)
      → IsGood start.disk
      → 7 ≤ ended_in true es
      → 7 ≤ ended_in false es
      → Runs (overlapping group a b es false false asked asked) start (λ r s'.
        (r ≡ none)
        ⊎ ((p : Bool) × (q : Bool) × (r ≡ some (answered p, answered q))
            × AnsweredWell group a b start p q s'))
  overlapping-AnsweredWell es good enough_a enough_b =
      Runs-weaken (Fair-overlapping es false false asked asked start at_start) λ r s' k. elim k [
        | inl clashed ↦ inl clashed
        | inr (z, e, f, left_x, left_y) ↦
            let (p, end_x) = ended_of z.0 (omega (arith, left_x, enough_a)) in
            let (q, end_y) = ended_of z.1 (omega (arith, left_y, enough_b)) in
            inr (
              p,
              q,
              e ∙ ap₂ (λ x y. some (x, y)) end_x end_y,
              answered-AnsweredWell p q s' (
                  subst (λ y. Fair group start a b (answered p) y s') end_y
                    (subst (λ x. Fair group start a b x z.1 s') end_x f)),
            )
      ]
    where
      at_start : Fair group start a b asked asked start
      at_start = record {
        good = good;
        lines_written = [];
        file = sym (append-nil _);
        by = refl;
        there_x = λ h. let bad : false ≡ true = h in cc;
        there_y = λ h. let bad : false ≡ true = h in cc;
        tables = λ k. inl k;
        no_x = λ e. cc;
        no_y = λ e. cc;
      }

-- The steps one after the other.
abbrev in_order : List Bool → List Event
in_order [] = []
in_order (t ∷ turns) = step_begins t ∷ step_ends t ∷ in_order turns

-- The result of two threads that did not clash.
abbrev unclashed : Creating × Creating → M (Option (Creating × Creating))
unclashed z = pure (some z)

-- Steps that come one after the other do not clash: they do what `interleave` does.
overlapping-interleave :
    (group a b : Text) (turns : List Bool) (x y : Creating) (s : Tracker)
    → overlapping group a b (in_order turns) false false x y s
      ≡ (interleave group a b turns x y >>= unclashed) s
unfolding overlapping interleave ◌>>=◌ pure when◌perform◌otherwise◌
overlapping-interleave group a b [] x y s = refl
overlapping-interleave group a b (true ∷ turns) x y s =
    elim (Option-cases (creating_step group a x s)) [
      | inl n ↦ rw (overlapping, interleave, ◌>>=◌, n) refl
      | inr ((x', s'), e) ↦
          rw (overlapping, interleave, ◌>>=◌, e) (overlapping-interleave group a b turns x' y s')
    ]
overlapping-interleave group a b (false ∷ turns) x y s =
    elim (Option-cases (creating_step group b y s)) [
      | inl n ↦ rw (overlapping, interleave, ◌>>=◌, n) refl
      | inr ((y', s'), e) ↦
          rw (overlapping, interleave, ◌>>=◌, e) (overlapping-interleave group a b turns x y' s')
    ]
