-- ===== src/Threads/Returns.antt =====
-- Whether the joins of `GetChunks` of peer/peerdownload.cpp come to an end: `pthread_join` waits for the thread
-- of its slot, which may run for ever.
use torrent_based_file_shari.Common.{
  ◌≡◌, refl, ℕ, zero, suc, ◌+◌, ◌%◌, ltb, ◌==◌, Bool, true, false, inl, inr, Bool-cases,
  Option-cases, Option, none, some, List, [], ◌∷◌, ◌++◌, if◌then◌else◌, arith,
}
use torrent_based_file_shari.Threads.{
  Call, create, join_slot, lim, join_from, advance, Trace, spawn, join_rest, spawn_all, set_slot,
}
use torrent_based_file_shari.Threads.Traces.{all_ok}

module _ {A : Type 0} (returns : A → Bool) where
  -- No call waits for a thread that does not return.
  unfoldable pub joins_return : List (Call A) → (ℕ → Option A) → Bool
  joins_return [] tid = true
  joins_return (create slot job ∷ cs) tid = joins_return cs (set_slot slot (some job) tid)
  joins_return (join_slot slot ∷ cs) tid =
      let rest = joins_return cs (set_slot slot none tid) in
      elim (tid slot) [ none ↦ rest | some job ↦ if returns job then rest else false ]

  abbrev created_ok : Call A → Bool
  created_ok (create slot job) = returns job
  created_ok (join_slot slot) = true

  abbrev held_ok : Option A → Bool
  held_ok none = true
  held_ok (some job) = returns job

  held_ok-set_slot :
      (slot : ℕ) (o : Option A) (tid : ℕ → Option A)
      → held_ok o ≡ true
      → ((i : ℕ) → held_ok (tid i) ≡ true)
      → (i : ℕ) → held_ok (set_slot slot o tid i) ≡ true
  held_ok-set_slot slot o tid new held i = elim (Bool-cases (i == slot)) [
    | inl here ↦ rw here new
    | inr other ↦ rw other (held i)
  ]

  joins_return_lem :
      (cs : List (Call A)) (tid : ℕ → Option A)
      → ((i : ℕ) → held_ok (tid i) ≡ true)
      → all_ok created_ok cs ≡ true
      → joins_return cs tid ≡ true
  unfolding joins_return
  joins_return_lem [] tid held h = refl
  joins_return_lem (create slot job ∷ cs) tid held h = elim (Bool-cases (returns job)) [
    | inl ends ↦
        joins_return_lem cs (set_slot slot (some job) tid)
          (held_ok-set_slot slot (some job) tid ends held) (rw ends at h)
    | inr runs ↦ absurd (ground (arith, runs, h))
  ]
  joins_return_lem (join_slot slot ∷ cs) tid held h =
      let rest =
        joins_return_lem cs (set_slot slot none tid) (held_ok-set_slot slot none tid refl held) h in
      elim (Option-cases (tid slot)) [
        | inl free ↦ rw (joins_return, free) rest
        | inr (job, taken) ↦
            let ends : returns job ≡ true = rw taken at (held slot) in
            rw (joins_return, taken, ends) rest
      ]

  all_ok-append :
      (cs ds : List (Call A))
      → all_ok created_ok cs ≡ true
      → all_ok created_ok ds ≡ true
      → all_ok created_ok (cs ++ ds) ≡ true
  all_ok-append [] ds h k = k
  all_ok-append (c ∷ cs) ds h k = elim (Bool-cases (created_ok c)) [
    | inl ok ↦ rw ok (all_ok-append cs ds (rw ok at h) k)
    | inr bad ↦ absurd (ground (arith, bad, h))
  ]

  all_ok-join_from : (j n : ℕ) → all_ok created_ok (join_from j n) ≡ true
  unfolding join_from
  all_ok-join_from j zero = refl
  all_ok-join_from j (suc n) = all_ok-join_from (suc j) n

  all_ok-advance : (counter : ℕ) → all_ok created_ok (advance counter).0 ≡ true
  unfolding advance
  all_ok-advance counter = elim (Bool-cases (ltb 50 ((counter + 1) % lim))) [
    | inl full ↦ rw full (all_ok-join_from 0 ((counter + 1) % lim))
    | inr room ↦ rw room refl
  ]

  all_ok-spawn :
      (pthread_create : A → Bool) (counter : ℕ) (jobs : List A)
      → all_ok returns jobs ≡ true
      → all_ok created_ok (spawn pthread_create counter jobs).0 ≡ true
  unfolding spawn
  all_ok-spawn pthread_create counter [] h = refl
  all_ok-spawn pthread_create counter (job ∷ jobs) h = elim (Bool-cases (pthread_create job)) [
    | inr fails ↦ rw fails refl
    | inl made ↦ elim (Bool-cases (returns job)) [
      | inr runs ↦ absurd (ground (arith, runs, h))
      | inl ends ↦
          rw (made, ends)
            (all_ok-append (advance counter).0 (spawn pthread_create (advance counter).1 jobs).0
              (all_ok-advance counter)
              (all_ok-spawn pthread_create (advance counter).1 jobs (rw ends at h)))
    ]
  ]

  all_ok-join_rest :
      (pthread_create : A → Bool) (t : Trace A)
      → all_ok created_ok t.0 ≡ true
      → all_ok created_ok (join_rest pthread_create t).0 ≡ true
  all_ok-join_rest pthread_create (cs, none) h = h
  all_ok-join_rest pthread_create (cs, some counter) h =
      all_ok-append cs (join_from 0 counter) h (all_ok-join_from 0 counter)

  -- If the thread of each job returns, so do all joins.
  pub joins_return-spawn_all :
      (pthread_create : A → Bool) (jobs : List A)
      → all_ok returns jobs ≡ true
      → joins_return (spawn_all pthread_create jobs).0 (λ _. none) ≡ true
  unfolding spawn_all
  joins_return-spawn_all pthread_create jobs h =
      joins_return_lem (join_rest pthread_create (spawn pthread_create 0 jobs)).0 (λ _. none)
        (λ i. refl)
        (all_ok-join_rest pthread_create (spawn pthread_create 0 jobs)
          (all_ok-spawn pthread_create 0 jobs h))
