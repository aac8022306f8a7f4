-- ===== src/Threads/Traces.antt =====
-- The whole loops of tracker/tracker.cpp and peer/ that create threads: which threads run and which
-- were joined after them.
use torrent_based_file_shari.Common.{
  ◌≡◌, refl, sym, ap, ◌∙◌, subst, append_assoc, append-nil, ℕ, suc, ◌+◌, ◌≤◌, ◌%◌, ltb, arith, Bool,
  true, false, inl, inr, Bool-cases, Option, none, some, List, [], ◌∷◌, ◌++◌, if◌then◌else◌, length,
  length-append,
}
use torrent_based_file_shari.Tracker.Fetch.{bind}
use torrent_based_file_shari.Threads.{
  Call, create, join_from, advance, Trace, spawn, spawn_all, accept_loop, join_rest, Slots,
  no_threads, calls_on,
}
use torrent_based_file_shari.Threads.Joins.{
  IsAt, held_at-past, calls_on-append, create-IsAt, join_from-IsAt,
}

-- The counter after a loop is the number of threads that are left.
abbrev pub counter_of : Bool → ℕ → Option ℕ
counter_of true n = some n
counter_of false n = none

module _ {A : Type 0} where
  -- The jobs up to the first whose thread cannot be created.
  abbrev pub started : (A → Bool) → List A → List A
  started ok [] = []
  started ok (job ∷ jobs) = if ok job then job ∷ started ok jobs else []

  -- The clients up to the first failure of `accept`.
  abbrev pub accepted : List (Option A) → List A
  accepted [] = []
  accepted (none ∷ clients) = []
  accepted (some job ∷ clients) = job ∷ accepted clients

  -- The calls of a trace, on an array of 51 slots: at most 50 threads are left, and those that
  -- were joined and those that are left are the jobs of `want`, in this order.
  pub record Keeps (cs : List (Call A)) (want : List A) (s : Slots A) : Type 0 where
    pub after : Slots A
    pub done : List A
    pub running : List A
    pub runs : calls_on 51 cs s ≡ some after
    pub at : IsAt 0 running done after
    pub all : done ++ running ≡ want
    pub few : length running ≤ 50

  advance_lem :
      (n : ℕ) (running done : List A) (s : Slots A)
      → IsAt 0 running done s
      → length running ≡ suc n
      → n ≤ 50
      → (k : Keeps (advance n).0 (done ++ running) s) × ((advance {A = A} n).1 ≡ length k.running)
  unfolding advance calls_on
  advance_lem n running done s h len most = elim (Bool-cases (ltb 50 ((n + 1) % 1000))) [
    | inl full ↦
        let next : (n + 1) % 1000 ≡ length running = omega (arith, len) in
        let (s1, e1, h1) = join_from-IsAt 51 0 running done s h (omega (arith, len)) in
        rw (full, next)
          (
            record {
              after = s1;
              done = done ++ running;
              running = [];
              runs = e1;
              at = h1;
              all = append-nil (done ++ running);
              few = omega arith;
            },
            refl,
          )
    | inr room ↦
        let next : (n + 1) % 1000 ≡ length running = omega (arith, len) in
        let below : length running ≤ 50 = ground (arith, sym next ∙ next) in
        rw (room, next)
          (
            record {
              after = s;
              done = done;
              running = running;
              runs = refl;
              at = h;
              all = refl;
              few = below;
            },
            refl,
          )
  ]

  abbrev pub all_ok : (A → Bool) → List A → Bool
  all_ok ok [] = true
  all_ok ok (job ∷ jobs) = if ok job then all_ok ok jobs else false

  pub spawn_lem :
      (ok : A → Bool) (jobs running done : List A) (s : Slots A)
      → IsAt 0 running done s
      → length running ≤ 50
      → (k : Keeps (spawn ok (length running) jobs).0 ((done ++ running) ++ started ok jobs) s)
        × ((spawn ok (length running) jobs).1 ≡ counter_of (all_ok ok jobs) (length k.running))
  unfolding spawn calls_on
  spawn_lem ok [] running done s h few = (
    record {
      after = s;
      done = done;
      running = running;
      runs = refl;
      at = h;
      all = sym (append-nil (done ++ running));
      few = few;
    },
    refl,
  )
  spawn_lem ok (job ∷ jobs) running done s h few = elim (Bool-cases (ok job)) [
    | inl good ↦
        let (s1, e1, h1) = create-IsAt 51 running done job s h (omega arith) in
        let (k, count) =
          advance_lem (length running) (running ++ job ∷ []) done s1 h1
            (omega (arith, length-append running (job ∷ []))) few in
        let (r, ends) = spawn_lem ok jobs k.running k.done k.after k.at k.few in
        let rest = calls_on {A = A} 51 (spawn ok (length k.running) jobs).0 in
        rw (good, count)
          (
            record {
              after = r.after;
              done = r.done;
              running = r.running;
              runs =
                  calls_on-append 51 (create (length running) job ∷ (advance (length running)).0) _
                    s
                  ∙ ap (λ o. bind (bind o (calls_on 51 (advance (length running)).0)) rest) e1
                  ∙ ap (λ o. bind o rest) k.runs
                  ∙ r.runs;
              at = r.at;
              all =
                  r.all
                  ∙ ap (λ l. l ++ started ok jobs)
                      (k.all ∙ sym (append_assoc done running (job ∷ [])))
                  ∙ append_assoc (done ++ running) (job ∷ []) (started ok jobs);
              few = r.few;
            },
            ends,
          )
    | inr bad ↦ rw bad (
      record {
        after = s;
        done = done;
        running = running;
        runs = refl;
        at = h;
        all = sym (append-nil (done ++ running));
        few = few;
      },
      refl,
    )
  ]

  -- A server makes the calls of the loop over the clients up to the first failure of `accept`.
  pub accept_loop-spawn :
      (ok : A → Bool) (counter : ℕ) (clients : List (Option A))
      → (accept_loop ok counter clients).0 ≡ (spawn ok counter (accepted clients)).0
  unfolding accept_loop spawn
  accept_loop-spawn ok counter [] = refl
  accept_loop-spawn ok counter (none ∷ clients) = refl
  accept_loop-spawn ok counter (some job ∷ clients) = elim (Bool-cases (ok job)) [
    | inl good ↦ rw (good, accept_loop-spawn ok (advance {A = A} counter).1 clients) refl
    | inr bad ↦ rw bad refl
  ]

  nothing-IsAt : IsAt {A = A} 0 [] [] no_threads
  nothing-IsAt = record { tid = λ i. sym (held_at-past 0 i); joined = refl }

  pub nothing-Keeps : Keeps [] [] no_threads
  unfolding calls_on
  nothing-Keeps = record {
    after = no_threads;
    done = [];
    running = [];
    runs = refl;
    at = nothing-IsAt;
    all = refl;
    few = omega arith;
  }

  -- Whatever `accept` and `pthread_create` give, the calls of a server stay within 51 slots, overwrite no
  -- thread that was not joined, and join none twice; the threads that were joined and those that are
  -- left, at most 50, are those of the accepted clients in their order.
  pub accept_loop-Keeps :
      (ok : A → Bool) (clients : List (Option A))
      → Keeps (accept_loop ok 0 clients).0 (started ok (accepted clients)) no_threads
  accept_loop-Keeps ok clients =
      rw (accept_loop-spawn ok 0 clients)
        (spawn_lem ok (accepted clients) [] [] no_threads nothing-IsAt (omega arith)).0

  started-all : (ok : A → Bool) (jobs : List A) → all_ok ok jobs ≡ true → started ok jobs ≡ jobs
  started-all ok [] h = refl
  started-all ok (job ∷ jobs) h = ground (arith, started-all ok jobs)

  join_rest-some :
      (ok : A → Bool) (t : Trace A) (n : ℕ)
      → t.1 ≡ some n
      → (join_rest ok t).0 ≡ t.0 ++ join_from 0 n
  join_rest-some ok (cs, none) n h = cc
  join_rest-some ok (cs, some m) n h = let same : m ≡ n = cc in rw same refl

  -- The loop of `GetChunks`, where every thread can be created: each is joined once, in the order of
  -- the jobs, and none is left.
  pub spawn_all-Joined :
      (ok : A → Bool) (jobs : List A)
      → all_ok ok jobs ≡ true
      → (s : Slots A) × (calls_on 51 (spawn_all ok jobs).0 no_threads ≡ some s) × IsAt 0 [] jobs s
  unfolding spawn_all
  spawn_all-Joined ok jobs good =
      let (k, count) = spawn_lem ok jobs [] [] no_threads nothing-IsAt (omega arith) in
      let (s, e, h) = join_from-IsAt 51 0 k.running k.done k.after k.at (omega (arith, k.few)) in
      let ends : (spawn ok 0 jobs).1 ≡ some (length k.running) =
        count ∙ ap (λ b. counter_of b (length k.running)) good in
      (
        s,
        ap (λ cs. calls_on 51 cs no_threads)
              (join_rest-some ok (spawn ok 0 jobs) (length k.running) ends)
            ∙ calls_on-append 51 (spawn ok 0 jobs).0 (join_from 0 (length k.running)) no_threads
            ∙ ap (λ o. bind o (calls_on 51 (join_from 0 (length k.running)))) k.runs
            ∙ e,
        subst (λ d. IsAt 0 [] d s) (k.all ∙ started-all ok jobs good) h,
      )
