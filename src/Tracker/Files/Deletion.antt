-- ===== src/Tracker/Files/Deletion.antt =====
-- What the deletions and `FetchDetails` leave of each file.
use torrent_based_file_shari.Common.{
  ⊤, ℕ, ◌<◌, ◌≡◌, refl, sym, ap, ◌∙◌, inl, inr, false, not, none, some, List, [], ◌∷◌, ◌++◌, arith,
  if◌then◌else◌, keep, Text, eq_text, eq_of_eq_text, Bool-cases, Option-cases,
}
use torrent_based_file_shari.Tracker.State.{
  Disk, lines, or_nil, write, remove, temp_file, credential_file, online_file, group_file,
  pending_file, Tracker, M, ◌>>=◌,
}
use torrent_based_file_shari.Tracker.Fetch.{load, create_missing, create_files, fetch_details}
use torrent_based_file_shari.Tracker.Files.{field, keep_other, replace_by_temp, delete_line_at}
use torrent_based_file_shari.Tracker.Downloads.{or_empty}
use torrent_based_file_shari.Tracker.Safety.Rules.{
  Runs, Runs-bind, Runs-get, Runs-on_disk, Runs-expect, Runs-read_lines, Runs-on_disk_last,
  Runs-modify_last,
}
use torrent_based_file_shari.Tracker.Safety.Disk.{HaveFields, IsSafe, lines-write}
use torrent_based_file_shari.Tracker.Safety.Lines.{Has-field}
use torrent_based_file_shari.Tracker.Safety.Fetching.{Has-load, create_files-IsSafe}

-- Field `i` of a line, empty where the line has no such field.
abbrev pub field_or_empty : ℕ → Text → Text
field_or_empty i l = or_empty (field i l)

pub keep_other_lem :
    (n i : ℕ) (x : Text) (ls : List Text)
    → HaveFields n ls
    → i < n
    → keep_other x i ls ≡ some (keep (λ l. not (eq_text (field_or_empty i l) x)) ls)
unfolding keep_other
keep_other_lem n i x [] h k = refl
keep_other_lem n i x (l ∷ ls) (h, hs) k =
    let (f, e) = Has-field n i l h k in
    let ih = keep_other_lem n i x ls hs k in
    elim (Bool-cases (eq_text f x)) [ inl q ↦ ground arith | inr q ↦ ground arith ]

pub lines-remove : (p q : Text) (d : Disk) → eq_text p q ≡ false → lines (remove p d) q ≡ lines d q
unfolding remove
lines-remove p q d n = ap (λ b. or_nil (if b then none else d q)) n

-- A deletion changes the lines of its own file only.
pub lines-replace_by_temp :
    (p q : Text) (kept : List Text) (d : Disk)
    → d temp_file ≡ none
    → eq_text temp_file q ≡ false
    → lines (replace_by_temp p kept d) q ≡ (if eq_text p q then kept else lines d q)
unfolding replace_by_temp
lines-replace_by_temp p q kept d t n =
    lines-remove temp_file q (write p (lines d temp_file ++ kept) d) n
    ∙ lines-write p q (lines d temp_file ++ kept) d
    ∙ ap (λ c. if eq_text p q then or_nil c ++ kept else lines d q) t

pub no_temp-replace_by_temp :
    (p : Text) (kept : List Text) (d : Disk) → replace_by_temp p kept d temp_file ≡ none
unfolding replace_by_temp remove eq_text
no_temp-replace_by_temp p kept d = refl

lines-create_missing : (p q : Text) (d : Disk) → lines (create_missing p d) q ≡ lines d q
unfolding write
lines-create_missing p q d = elim (Option-cases (d p)) [
  | inl e ↦ elim (Bool-cases (eq_text p q)) [
    | inl same ↦
        rw (e, create_missing, same) (sym (ap or_nil (ap d (sym (eq_of_eq_text p q same)) ∙ e)))
    | inr other ↦ rw (e, create_missing, other) refl
  ]
  | inr (ls, e) ↦ rw (e, create_missing) refl
]

-- Files that `FetchDetails` creates are empty, so no file has other lines than before.
pub lines-create_files : (q : Text) (d : Disk) → lines (create_files d) q ≡ lines d q
unfolding create_files
lines-create_files q d =
    let d1 = create_missing credential_file d in
    let d2 = create_missing online_file d1 in
    let d3 = create_missing group_file d2 in
    lines-create_missing pending_file q d3
    ∙ lines-create_missing group_file q d2
    ∙ lines-create_missing online_file q d1
    ∙ lines-create_missing credential_file q d

-- `FetchDetails` as a step: the tables are those of the files.
pub Runs-fetch_details :
    (s : Tracker)
    → IsSafe s.disk
    → Runs fetch_details s (λ _ s'.
      (s'.disk ≡ create_files s.disk) × (load s'.disk ≡ some s'.tables) × (s'.sibling ≡ s.sibling))
unfolding fetch_details
Runs-fetch_details s h =
    let (t, e) = Has-load (create_files s.disk) (create_files-IsSafe s.disk h) in
    Runs-on_disk _ _ (Runs-get _ (Runs-expect _ t e (Runs-modify_last _ (refl, e, refl))))

pub Runs-delete_line_at :
    {B : Type 0} {Q : B → Tracker → Type 0} (p x : Text) (i : ℕ) (f : ⊤ → M B) {s : Tracker}
    (kept : List Text)
    → keep_other x i (lines s.disk p) ≡ some kept
    → Runs (f tt) (record s { disk = replace_by_temp p kept s.disk }) Q
    → Runs (delete_line_at p x i >>= f) s Q
unfolding delete_line_at
Runs-delete_line_at p x i f kept e h =
    Runs-bind _ f {P = λ a s'. Runs (f a) s' _}
      (Runs-read_lines _ _ (Runs-expect _ kept e (Runs-on_disk_last _ h))) λ _ _ h'. h'
