-- ===== src/Threads/Joins.antt =====
-- The invariant of the thread slots: the slots below the counter hold, in order, the threads that
-- are not joined yet. An array of 51 slots is enough for the loops of tracker/tracker.cpp and peer/.
use torrent_based_file_shari.Common.{
  ◌≡◌, refl, sym, ap, ◌∙◌, append_assoc, append-nil, ℕ, zero, suc, ◌+◌, ◌-◌, ◌≤◌, ◌<◌, ltb, ◌==◌,
  arith, fun_ext, true, false, inl, inr, Bool-cases, Option, none, some, List, [], ◌∷◌, ◌++◌,
  if◌then◌else◌, length, get_elem?,
}
use torrent_based_file_shari.Tracker.Fetch.{bind}
use torrent_based_file_shari.Threads.{
  Call, create, join_slot, join_from, Slots, set_slot, call_on, calls_on,
}

bind_assoc :
    {A B C : Type 0} (o : Option A) (f : A → Option B) (g : B → Option C)
    → bind o (λ a. bind (f a) g) ≡ bind (bind o f) g
bind_assoc none f g = refl
bind_assoc (some a) f g = refl

module _ {A : Type 0} where
  -- What slot `i` holds where the slots from `j` on hold the threads of `running`.
  abbrev pub held_at : ℕ → List A → ℕ → Option A
  held_at j running i = if ltb i j then none else get_elem? running (i - j)

  -- The slots from `j` on hold the threads of `running`, and no other slot holds one.
  pub record IsAt (j : ℕ) (running done : List A) (s : Slots A) : Type 0 where
    pub tid : (i : ℕ) → s.tid i ≡ held_at j running i
    pub joined : s.joined ≡ done

  pub calls_on-append :
      (size : ℕ) (cs ds : List (Call A)) (s : Slots A)
      → calls_on size (cs ++ ds) s ≡ bind (calls_on size cs s) (calls_on size ds)
  unfolding calls_on
  calls_on-append size [] ds s = refl
  calls_on-append size (c ∷ cs) ds s =
      ap (bind (call_on size c s)) (fun_ext (calls_on-append size cs ds))
      ∙ bind_assoc (call_on size c s) (calls_on size cs) (calls_on size ds)

  get_elem?-snoc :
      (xs : List A) (x : A) (i : ℕ)
      → get_elem? (xs ++ x ∷ []) i ≡ (if i == length xs then some x else get_elem? xs i)
  get_elem?-snoc [] x zero = refl
  get_elem?-snoc [] x (suc i) = ground arith
  get_elem?-snoc (y ∷ xs) x zero = ground arith
  get_elem?-snoc (y ∷ xs) x (suc i) = ground (arith, get_elem?-snoc xs x i)

  get_elem?-past : (xs : List A) (i : ℕ) → length xs ≤ i → get_elem? xs i ≡ none
  get_elem?-past [] i h = refl
  get_elem?-past (x ∷ xs) zero h = absurd (omega arith)
  get_elem?-past (x ∷ xs) (suc i) h = get_elem?-past xs i (omega arith)

  held_at-zero : (running : List A) (i : ℕ) → held_at 0 running i ≡ get_elem? running i
  held_at-zero running i =
      let from : ltb i 0 ≡ false = ground arith in
      let same : i - 0 ≡ i = omega arith in rw (from, same) refl

  pub held_at-past : (j : ℕ) (i : ℕ) → held_at j [] i ≡ none
  held_at-past j i = elim (Bool-cases (ltb i j)) [ inl e ↦ rw e refl | inr e ↦ rw e refl ]

  held_at-first : (j : ℕ) (x : A) (running : List A) → held_at j (x ∷ running) j ≡ some x
  held_at-first j x running =
      let from : ltb j j ≡ false = ground arith in
      let same : j - j ≡ 0 = omega arith in rw (from, same) refl

  held_at-suc :
      (j : ℕ) (x : A) (running : List A) (i : ℕ)
      → (if i == j then none else held_at j (x ∷ running) i) ≡ held_at (suc j) running i
  held_at-suc j x running i = elim (Bool-cases (i == j)) [
    | inl e ↦ let low : ltb i (suc j) ≡ true = ground arith in rw (e, low) refl
    | inr e ↦ elim (Bool-cases (ltb i j)) [
      | inl l ↦ let low : ltb i (suc j) ≡ true = ground arith in rw (e, l, low) refl
      | inr l ↦
          let high : ltb i (suc j) ≡ false = ground arith in
          let same : i - j ≡ suc (i - suc j) = ground arith in rw (e, l, high, same) refl
    ]
  ]

  pub create-IsAt :
      (size : ℕ) (running done : List A) (job : A) (s : Slots A)
      → IsAt 0 running done s
      → length running < size
      → (s' : Slots A) × (call_on size (create (length running) job) s ≡ some s')
        × IsAt 0 (running ++ job ∷ []) done s'
  unfolding call_on
  create-IsAt size running done job s h l =
      let at = λ (i : ℕ). h.tid i ∙ held_at-zero running i in
      let free : s.tid (length running) ≡ none =
        at (length running) ∙ get_elem?-past running (length running) (omega arith) in
      let inside : ltb (length running) size ≡ true = ground arith in
      (
        record s { tid = set_slot (length running) (some job) s.tid },
        rw (inside, free) refl,
        record {
          tid = λ i.
              rw (at i) (sym (held_at-zero (running ++ job ∷ []) i ∙ get_elem?-snoc running job i));
          joined = h.joined;
        },
      )

  join-IsAt :
      (size j : ℕ) (x : A) (running done : List A) (s : Slots A)
      → IsAt j (x ∷ running) done s
      → j < size
      → (s' : Slots A) × (call_on size (join_slot j) s ≡ some s')
        × IsAt (suc j) running (done ++ x ∷ []) s'
  unfolding call_on
  join-IsAt size j x running done s h l =
      let held : s.tid j ≡ some x = h.tid j ∙ held_at-first j x running in
      let inside : ltb j size ≡ true = ground arith in
      (
        record { tid = set_slot j none s.tid; joined = s.joined ++ x ∷ [] },
        rw (inside, held) refl,
        record {
          tid = λ i. rw (h.tid i) (held_at-suc j x running i);
          joined = ap (λ d. d ++ x ∷ []) h.joined;
        },
      )

  pub join_from-IsAt :
      (size j : ℕ) (running done : List A) (s : Slots A)
      → IsAt j running done s
      → j + length running ≤ size
      → (s' : Slots A) × (calls_on size (join_from j (length running)) s ≡ some s')
        × IsAt 0 [] (done ++ running) s'
  unfolding calls_on join_from
  join_from-IsAt size j [] done s h l = (
    s,
    refl,
    record {
      tid = λ i. h.tid i ∙ held_at-past j i ∙ sym (held_at-past 0 i);
      joined = h.joined ∙ sym (append-nil done);
    },
  )
  join_from-IsAt size j (x ∷ running) done s h l =
      let (s1, e1, h1) = join-IsAt size j x running done s h (omega arith) in
      let (s2, e2, h2) = join_from-IsAt size (suc j) running (done ++ x ∷ []) s1 h1 (omega arith) in
      (
        s2,
        ap (λ o. bind o (calls_on size (join_from (suc j) (length running)))) e1 ∙ e2,
        rw (sym (append_assoc done (x ∷ []) running)) h2,
      )
