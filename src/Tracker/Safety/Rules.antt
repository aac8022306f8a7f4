-- ===== src/Tracker/Safety/Rules.antt =====
-- Total correctness of an action: it has a result, and the result meets the postcondition.
use torrent_based_file_shari.Common.{
  ⊤, ◌≡◌, refl, Bool, true, false, Option, none, some, List, Text, arith,
}
use torrent_based_file_shari.Tracker.State.{
  Disk, lines, Tables, Tracker, M, pure, get, modify, expect, on_disk, on_tables, read_lines, sync,
  push, ◌>>=◌, when◌perform◌otherwise◌, if_found,
}

abbrev pub Ensures : {A : Type 0} → (A → Tracker → Type 0) → Option (A × Tracker) → Type 0
Ensures Q none = ⊥
Ensures Q (some (a, s)) = Q a s

-- From `s` the action `m` ends with a result and a state that meet `Q`.
pub record Runs {A : Type 0} (m : M A) (s : Tracker) (Q : A → Tracker → Type 0) : Type 0 where
  pub at : Ensures Q (m s)

abbrev pub Exists : Disk → Text → Type 0
Exists d p = (ls : List Text) × (d p ≡ some ls)

push-some :
    (p : Text) (ls : List Text) (e : Option Disk)
    → (e' : Option Disk) × (push p (some ls) e ≡ some e')
push-some p ls none = (none, refl)
push-some p ls (some d) = (some _, refl)

-- A file that is there is pushed with no fault.
sync_there :
    (p : Text) (s : Tracker)
    → Exists s.disk p
    → (e : Option Disk) × (sync p s ≡ some (tt, record s { sibling = e }))
unfolding sync
sync_there p s (ls, there) = let (e, pushed) = push-some p ls s.sibling in (e, ground arith)

module _ {A B : Type 0} {Q : B → Tracker → Type 0} where
  Ensures-bind :
      (P : A → Tracker → Type 0) (o : Option (A × Tracker)) (f : A → M B)
      → Ensures P o
      → ((a : A) (s : Tracker) → P a s → Runs (f a) s Q)
      → Ensures Q (elim o [ none ↦ none | some (a, s) ↦ f a s ])
  Ensures-bind P none f h k = h
  Ensures-bind P (some (a, s)) f h k = (k a s h).at

  pub Runs-bind :
      (m : M A) (f : A → M B) {s : Tracker} {P : A → Tracker → Type 0}
      → Runs m s P
      → ((a : A) (s' : Tracker) → P a s' → Runs (f a) s' Q)
      → Runs (m >>= f) s Q
  unfolding ◌>>=◌
  Runs-bind m f {s} {P} h k = record { at = Ensures-bind P (m s) f h.at k }

  pub Runs-expect :
      {o : Option A} (f : A → M B) {s : Tracker} (a : A)
      → o ≡ some a
      → Runs (f a) s Q
      → Runs (expect o >>= f) s Q
  unfolding ◌>>=◌ expect
  Runs-expect f a e h = record { at = rw e h.at }

module _ {B : Type 0} {Q : B → Tracker → Type 0} where
  pub Runs-get : (f : Tracker → M B) {s : Tracker} → Runs (f s) s Q → Runs (get >>= f) s Q
  unfolding ◌>>=◌ get
  Runs-get f h = record { at = h.at }

  pub Runs-pure : (a : B) {s : Tracker} → Q a s → Runs (pure a) s Q
  unfolding pure
  Runs-pure a h = record { at = h }

  pub Runs-last : (m : M B) {s : Tracker} → Runs m s Q → Runs (m >>= pure) s Q
  Runs-last m h = Runs-bind m pure h (λ a s' q. Runs-pure a q)

  pub Runs-modify :
      (g : Tracker → Tracker) (f : ⊤ → M B) {s : Tracker}
      → Runs (f tt) (g s) Q
      → Runs (modify g >>= f) s Q
  unfolding ◌>>=◌ modify
  Runs-modify g f h = record { at = h.at }

  pub Runs-on_disk :
      (g : Disk → Disk) (f : ⊤ → M B) {s : Tracker}
      → Runs (f tt) (record s { disk = g s.disk }) Q
      → Runs (on_disk g >>= f) s Q
  unfolding ◌>>=◌ on_disk
  Runs-on_disk g f h = record { at = h.at }

  pub Runs-on_tables :
      (g : Tables → Tables) (f : ⊤ → M B) {s : Tracker}
      → Runs (f tt) (record s { tables = g s.tables }) Q
      → Runs (on_tables g >>= f) s Q
  unfolding ◌>>=◌ on_tables
  Runs-on_tables g f h = record { at = h.at }

  pub Runs-read_lines :
      (p : Text) (f : List Text → M B) {s : Tracker}
      → Runs (f (lines s.disk p)) s Q
      → Runs (read_lines p >>= f) s Q
  unfolding ◌>>=◌ read_lines
  Runs-read_lines p f h = record { at = h.at }

  pub Runs-sync :
      (p : Text) (f : ⊤ → M B) {s : Tracker}
      → Exists s.disk p
      → ((e : Option Disk) → Runs (f tt) (record s { sibling = e }) Q)
      → Runs (sync p >>= f) s Q
  unfolding ◌>>=◌
  Runs-sync p f {s} there h =
      let (e, done) = sync_there p s there in record { at = rw (done, ◌>>=◌) (h e).at }

  pub Runs-when :
      (b : Bool) (m n : M B) {s : Tracker}
      → (b ≡ true → Runs m s Q)
      → (b ≡ false → Runs n s Q)
      → Runs (when b perform m otherwise n) s Q
  unfolding when◌perform◌otherwise◌
  Runs-when true m n h k = h refl
  Runs-when false m n h k = k refl

  pub Runs-if_found :
      {A : Type 0} (o : Option A) (m : M B) (f : A → M B) {s : Tracker}
      → (o ≡ none → Runs m s Q)
      → ((a : A) → o ≡ some a → Runs (f a) s Q)
      → Runs (if_found o m f) s Q
  unfolding if_found
  Runs-if_found none m f h k = h refl
  Runs-if_found (some a) m f h k = k a refl

pub Runs-modify_last :
    {R : ⊤ → Tracker → Type 0} (g : Tracker → Tracker) {s : Tracker}
    → R tt (g s)
    → Runs (modify g) s R
unfolding modify
Runs-modify_last g h = record { at = h }

pub Runs-sync_last :
    {R : ⊤ → Tracker → Type 0} (p : Text) {s : Tracker}
    → Exists s.disk p
    → ((e : Option Disk) → R tt (record s { sibling = e }))
    → Runs (sync p) s R
Runs-sync_last p {s} there h = let (e, done) = sync_there p s there in record { at = rw done (h e) }

pub Runs-on_disk_last :
    {R : ⊤ → Tracker → Type 0} (g : Disk → Disk) {s : Tracker}
    → R tt (record s { disk = g s.disk })
    → Runs (on_disk g) s R
unfolding on_disk
Runs-on_disk_last g h = record { at = h }

pub Runs-on_tables_last :
    {R : ⊤ → Tracker → Type 0} (g : Tables → Tables) {s : Tracker}
    → R tt (record s { tables = g s.tables })
    → Runs (on_tables g) s R
unfolding on_tables
Runs-on_tables_last g h = record { at = h }

pub Runs-expect_last :
    {A : Type 0} {R : A → Tracker → Type 0} {o : Option A} {s : Tracker} (a : A)
    → o ≡ some a
    → R a s
    → Runs (expect o) s R
unfolding expect
Runs-expect_last a e h = record { at = rw (e, expect) h }

-- A file that is read and searched inside of a helper.
pub Runs-search :
    {A B : Type 0} {Q : B → Tracker → Type 0} (p : Text) (find : List Text → Option A) (f : A → M B)
    {s : Tracker} (a : A)
    → find (lines s.disk p) ≡ some a
    → Runs (f a) s Q
    → Runs ((read_lines p >>= λ ls. expect (find ls)) >>= f) s Q
Runs-search p find f a e h =
    Runs-bind _ f {P = λ a' s'. Runs (f a') s' _} (Runs-read_lines _ _ (Runs-expect_last a e h))
      λ a' s' h'. h'

pub Runs-weaken :
    {A : Type 0} {P Q : A → Tracker → Type 0} {m : M A} {s : Tracker}
    → Runs m s P
    → ((a : A) (s' : Tracker) → P a s' → Q a s')
    → Runs m s Q
Runs-weaken {m = m} {s = s} h k = record { at = weaken (m s) h.at k }
  where
    weaken :
        {A : Type 0} {P Q : A → Tracker → Type 0} (o : Option (A × Tracker))
        → Ensures P o
        → ((a : A) (s' : Tracker) → P a s' → Q a s')
        → Ensures Q o
    weaken none h k = h
    weaken (some (a, s')) h k = k a s' h

-- An action has one result, so two postconditions hold together.
pub Runs-both :
    {A : Type 0} {P R Q : A → Tracker → Type 0} {m : M A} {s : Tracker}
    → Runs m s P
    → Runs m s R
    → ((a : A) (s' : Tracker) → P a s' → R a s' → Q a s')
    → Runs m s Q
Runs-both {m = m} {s = s} h h' k = record { at = both (m s) h.at h'.at k }
  where
    both :
        {A : Type 0} {P R Q : A → Tracker → Type 0} (o : Option (A × Tracker))
        → Ensures P o
        → Ensures R o
        → ((a : A) (s' : Tracker) → P a s' → R a s' → Q a s')
        → Ensures Q o
    both none h h' k = h
    both (some (a, s')) h h' k = k a s' h h'
