-- ===== src/Sync/All.antt =====
-- What `SyncAllHandler` leaves at the other tracker.
use torrent_based_file_shari.Common.{
  ◌≡◌, refl, sym, ap, ◌∙◌, subst, ◌⊎◌, inl, inr, Bool, true, false, not, ◌&&◌, some, List, [], ◌∷◌,
  any, All, if◌then◌else◌, Text, codes, eq_text, eq_of_eq_text, Bool-cases,
}
use torrent_based_file_shari.Tracker.State.{
  Disk, write, lines, or_nil, credential_file, online_file, group_file, pending_file, Tracker, push,
  sync,
}
use torrent_based_file_shari.Tracker.Fetch.{load, create_files}
use torrent_based_file_shari.Tracker.Files.Deletion.{lines-create_files}
use torrent_based_file_shari.Tracker.Safety.Rules.{
  Runs, Exists, Runs-bind, Runs-pure, Runs-when, Runs-weaken,
}
use torrent_based_file_shari.Sync.{entry_file, sync_all_handler}

-- The two entries that `readdir` gives for the directory itself and the one above it.
abbrev pub is_dot : Text → Bool
is_dot name = if eq_text name (codes ".") then true else eq_text name (codes "..")

-- Whether one of the entries is this file.
abbrev pub listed : List Text → Text → Bool
listed names p = any (λ n. not (is_dot n) && eq_text (entry_file n) p) names

-- The other tracker's files after those of the list were copied.
abbrev pub Copied : List Text → Disk → Disk → Tracker → Type 0
Copied names d e s' =
    (s'.disk ≡ d)
    × (e' : Disk) × (s'.sibling ≡ some e')
    × ((p : Text) → e' p ≡ (if listed names p then d p else e p))

sync-writes :
    (p : Text) (s : Tracker) (e : Disk) (ls : List Text)
    → s.sibling ≡ some e
    → s.disk p ≡ some ls
    → Runs (sync p) s (λ _ s'. s' ≡ record s { sibling = some (write p ls e) })
unfolding sync push
sync-writes p s e ls there file = record { at = rw (there, file, sync, push) refl }

-- One more file copied.
one_more :
    (name : Text) (names : List Text) (d e : Disk) (ls : List Text) (p : Text)
    → is_dot name ≡ false
    → d (entry_file name) ≡ some ls
    → (if listed names p then d p else write (entry_file name) ls e p)
      ≡ (if listed (name ∷ names) p then d p else e p)
unfolding write
one_more name names d e ls p plain file = elim (Bool-cases (eq_text (entry_file name) p)) [
  | inl same ↦
      let there : d p ≡ some ls = ap d (sym (eq_of_eq_text (entry_file name) p same)) ∙ file in
      rw (plain, same, there) (both (listed names p))
  | inr other ↦ rw (plain, other) refl
]
  where
    both : (b : Bool) → (if b then some ls else some ls) ≡ some ls
    both true = refl
    both false = refl

-- If the other tracker can be reached and the entries of `.all_files` are files that are there,
-- `SyncAllHandler` ends, changes no file of its own, and leaves at the other tracker its own copy of
-- every listed file, and every other file there as it was.
pub sync_all_handler-Copied :
    (names : List Text) (s : Tracker) (e : Disk)
    → s.sibling ≡ some e
    → All (λ n. (is_dot n ≡ true) ⊎ Exists s.disk (entry_file n)) names
    → Runs (sync_all_handler names) s (λ _ s'. Copied names s.disk e s')
unfolding sync_all_handler
sync_all_handler-Copied [] s e there h = Runs-pure _ (refl, e, there, (λ p. refl))
sync_all_handler-Copied (name ∷ names) s e there (h, hs) = elim (Bool-cases (is_dot name)) [
  | inl dot ↦
      Runs-bind _ _ {P = λ _ s'. s' ≡ s}
        (Runs-when _ _ _ (λ _. Runs-pure _ refl)
          (λ no_. let bad : true ≡ false = sym dot ∙ no_ in cc))
        λ _ s' same.
          subst (λ t. Runs (sync_all_handler names) t (λ _ s2. Copied (name ∷ names) s.disk e s2))
            (sym same) (rw dot (sync_all_handler-Copied names s e there hs))
  | inr plain ↦ elim h [
    | inl dot ↦ let bad : true ≡ false = sym dot ∙ plain in cc
    | inr (ls, file) ↦
        let next : Tracker = record s { sibling = some (write (entry_file name) ls e) } in
        Runs-bind _ _ {P = λ _ s'. s' ≡ next}
          (Runs-when _ _ _ (λ dot. let bad : true ≡ false = sym dot ∙ plain in cc)
            (λ _. sync-writes (entry_file name) s e ls there file))
          λ _ s' same.
            subst (λ t. Runs (sync_all_handler names) t (λ _ s2. Copied (name ∷ names) s.disk e s2))
              (sym same)
              (Runs-weaken
                (sync_all_handler-Copied names next (write (entry_file name) ls e) refl hs)
                λ _ s2 (own, e', sib, at_p).
                  (own, e', sib, (λ p. at_p p ∙ one_more name names s.disk e ls p plain file)))
  ]
]

-- The tables come from the lines of four files.
load-lines :
    (d e : Disk)
    → lines d credential_file ≡ lines e credential_file
    → lines d online_file ≡ lines e online_file
    → lines d group_file ≡ lines e group_file
    → lines d pending_file ≡ lines e pending_file
    → load d ≡ load e
unfolding load
load-lines d e c o g p = rw (c, o, g, p) refl

-- The other tracker takes over with the same tables: if it can be reached and the entries of `.all_files`
-- are files that are there, among them the four files of the tables, then after `SyncAllHandler`
-- `FetchDetails` reads from the files of the other tracker what it reads from the files of this one.
pub sync_all_handler-load :
    (names : List Text) (s : Tracker) (e : Disk)
    → s.sibling ≡ some e
    → All (λ n. (is_dot n ≡ true) ⊎ Exists s.disk (entry_file n)) names
    → All
        (λ p. listed names p ≡ true)
        (credential_file ∷ online_file ∷ group_file ∷ pending_file ∷ [])
    → Runs (sync_all_handler names) s (λ _ s'.
      (e' : Disk) × (s'.sibling ≡ some e') × (load (create_files e') ≡ load (create_files s.disk)))
sync_all_handler-load names s e there h (c, (o, (g, (p, _)))) =
    Runs-weaken (sync_all_handler-Copied names s e there h) λ _ s' (own, e', sib, at_p).
      let same = λ (q : Text) (l : listed names q ≡ true).
        lines-create_files q e'
        ∙ ap or_nil (at_p q ∙ ap (λ b. if b then s.disk q else e q) l)
        ∙ sym (lines-create_files q s.disk) in
      (
        e',
        sib,
        load-lines (create_files e') (create_files s.disk) (same credential_file c)
            (same online_file o) (same group_file g) (same pending_file p),
      )
