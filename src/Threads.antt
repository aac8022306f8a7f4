-- ===== src/Threads.antt =====
-- The thread slots of the loops that create threads: `GetChunks` of peer/peerdownload.cpp,
-- `TrackerServer` of tracker/tracker.cpp and `ClientServer` of peer/peerserver.cpp. Each keeps an array
-- of 1000 thread ids with a counter. The calls that a loop makes are a list; what they do to the
-- array is `calls_on`. Whether `pthread_create` succeeds and what `accept` gives come from outside.
pub mod Joins
pub mod Traces
pub mod Returns
pub mod Servers
mod Tests
use torrent_based_file_shari.Common.{
  ℕ, zero, suc, ◌+◌, ◌%◌, ltb, ◌==◌, Bool, true, false, Option, none, some, List, [], ◌∷◌, ◌++◌,
  if◌then◌else◌,
}
use torrent_based_file_shari.Tracker.Fetch.{bind}

-- `pthread_create(&tid[slot],…)` for a job, and `pthread_join(tid[slot],NULL)`.
pub data Call (A : Type 0) : Type 0 where
  create : (slot : ℕ) (job : A) → Call A
  join_slot : (slot : ℕ) → Call A

abbrev pub lim : ℕ
lim = 1000

-- `for(int j=0;j<counter;++j) pthread_join(tid[j],NULL);`, from `j` on for `n` rounds.
unfoldable pub join_from : {A : Type 0} → ℕ → ℕ → List (Call A)
join_from j zero = []
join_from j (suc n) = join_slot j ∷ join_from (suc j) n

-- `++counter; counter=counter%1000; if(counter>50){…; counter=0;}`: the joins and the new counter.
unfoldable pub advance : {A : Type 0} → ℕ → List (Call A) × ℕ
advance counter =
    let next = (counter + 1) % lim in if ltb 50 next then (join_from 0 next, 0) else ([], next)

-- The calls so far, and the counter; `none` for a program that has ended by `exit(-1)`.
abbrev pub Trace : Type 0 → Type 0
Trace A = List (Call A) × Option ℕ

abbrev pub after_calls : {A : Type 0} → List (Call A) → Trace A → Trace A
after_calls cs (ds, c) = (cs ++ ds, c)

module _ {A : Type 0} (pthread_create : A → Bool) where
  -- The loop over the jobs, from a counter on.
  unfoldable pub spawn : ℕ → List A → Trace A
  spawn counter [] = ([], some counter)
  spawn counter (job ∷ jobs) =
      let (joins, next) = advance counter in
      let rest = spawn next jobs in
      if pthread_create job then after_calls (create counter job ∷ joins) rest else ([], none)

  -- `GetChunks` joins the threads that are left.
  abbrev pub join_rest : Trace A → Trace A
  join_rest (cs, none) = (cs, none)
  join_rest (cs, some counter) = (cs ++ join_from 0 counter, some counter)

  unfoldable pub spawn_all : List A → Trace A
  spawn_all jobs = join_rest (spawn 0 jobs)

  -- The accept loop of the two servers, over what `accept` gives.
  unfoldable pub accept_loop : ℕ → List (Option A) → Trace A
  accept_loop counter [] = ([], some counter)
  accept_loop counter (none ∷ clients) = ([], none)
  accept_loop counter (some job ∷ clients) =
      let (joins, next) = advance counter in
      let rest = accept_loop next clients in
      if pthread_create job then after_calls (create counter job ∷ joins) rest else ([], none)

-- The array of thread ids: the job whose thread a slot holds until it is joined, and the jobs whose
-- threads were joined.
pub record Slots (A : Type 0) : Type 0 where
  pub tid : ℕ → Option A
  pub joined : List A

abbrev pub no_threads : {A : Type 0} → Slots A
no_threads = record { tid = λ _. none; joined = [] }

abbrev pub set_slot : {A : Type 0} → ℕ → Option A → (ℕ → Option A) → ℕ → Option A
set_slot slot o tid i = if i == slot then o else tid i

-- What a call does to an array of `size` slots. `none`: the slot is outside of the array, a thread
-- that was not joined is overwritten, or a slot without a thread is joined.
unfoldable pub call_on : {A : Type 0} → ℕ → Call A → Slots A → Option (Slots A)
call_on size (create slot job) s =
    if ltb slot size
    then elim (s.tid slot) [
      | none ↦ some (record s { tid = set_slot slot (some job) s.tid })
      | some _ ↦ none
    ]
    else none
call_on size (join_slot slot) s =
    if ltb slot size
    then elim (s.tid slot) [
      | none ↦ none
      | some job ↦ some (record { tid = set_slot slot none s.tid; joined = s.joined ++ job ∷ [] })
    ]
    else none

unfoldable pub calls_on : {A : Type 0} → ℕ → List (Call A) → Slots A → Option (Slots A)
calls_on size [] s = some s
calls_on size (c ∷ cs) s = bind (call_on size c s) λ s'. calls_on size cs s'
