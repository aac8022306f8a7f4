-- ===== src/Tracker/Safety/Fetching.antt =====
-- `FetchDetails` succeeds on safe files; what it creates and deletes is safe.
use torrent_based_file_shari.Common.{
  ℕ, ◌<◌, ⊤, ◌≡◌, refl, false, Option, none, some, List, [], Text, eq_text, eq_text_refl,
  Bool-cases, inl, inr, Option-cases,
}
use torrent_based_file_shari.Tracker.State.{
  Disk, lines, write, remove, credential_file, online_file, group_file, pending_file, members_file,
  temp_file, Tracker, M, ◌>>=◌,
}
use torrent_based_file_shari.Tracker.Fetch.{
  bind, load, create_missing, create_files, fetch_details, fetch_group_members, members,
}
use torrent_based_file_shari.Tracker.Files.{replace_by_temp, delete_line_at, delete_line}
use torrent_based_file_shari.Tracker.Sharing.{replace_file}
use torrent_based_file_shari.Tracker.Safety.Rules.{
  Runs, Exists, Runs-bind, Runs-get, Runs-on_disk, Runs-expect, Runs-modify_last, Runs-on_disk_last,
  Runs-read_lines,
}
use torrent_based_file_shari.Tracker.Safety.Disk.{
  HaveFields, IsSafe, Fits, write-IsSafe, write-remove-IsSafe,
}
use torrent_based_file_shari.Tracker.Safety.Paths.{Fits-nil}
use torrent_based_file_shari.Tracker.Safety.Lines.{
  Has, Has-keep_other, Has-load_online, Has-load_groups,
}

Has-bind :
    {A B : Type 0} (o : Option A) (f : A → Option B)
    → Has o
    → ((a : A) → Has (f a))
    → Has (bind o f)
Has-bind none f h k = cc h.1
Has-bind (some a) f h k = k a

pub Has-load : (d : Disk) → IsSafe d → Has (load d)
unfolding load
Has-load d h =
    Has-bind _ _ (Has-load_online ([], []) (lines d online_file) h.online)
      λ on. Has-bind _ _ (Has-load_groups [] (lines d group_file) h.groups) λ groups. (_, refl)

pub Exists-write : (p q : Text) (ls : List Text) (d : Disk) → Exists d q → Exists (write p ls d) q
unfolding write
Exists-write p q ls d (old, e) = elim (Bool-cases (eq_text p q)) [
  | inl same ↦ (ls, rw same refl)
  | inr other ↦ (old, rw other e)
]

pub Exists-write_self : (p : Text) (ls : List Text) (d : Disk) → Exists (write p ls d) p
unfolding write
Exists-write_self p ls d = (ls, rw (eq_text_refl p) refl)

create_missing-IsSafe :
    (p : Text) (d : Disk) → eq_text p temp_file ≡ false → IsSafe d → IsSafe (create_missing p d)
create_missing-IsSafe p d n h = elim (Option-cases (d p)) [
  | inl e ↦ rw (e, create_missing) (write-IsSafe p [] d (Fits-nil p n) h)
  | inr (ls, e) ↦ rw (e, create_missing) h
]

Exists-create_missing : (p : Text) (d : Disk) → Exists (create_missing p d) p
Exists-create_missing p d = elim (Option-cases (d p)) [
  | inl e ↦ rw (e, create_missing) (Exists-write_self p [] d)
  | inr (ls, e) ↦ rw (e, create_missing) (ls, e)
]

pub create_files-IsSafe : (d : Disk) → IsSafe d → IsSafe (create_files d)
unfolding create_files eq_text
create_files-IsSafe d h = create_missing-IsSafe pending_file _ refl (
    create_missing-IsSafe group_file _ refl
      (create_missing-IsSafe online_file _ refl (create_missing-IsSafe credential_file d refl h)))

pub record IsGood (d : Disk) : Type 0 where
  pub safe : IsSafe d
  pub pending : Exists d pending_file

pub write-IsGood :
    (p : Text) (ls : List Text) (d : Disk) → Fits p ls → IsGood d → IsGood (write p ls d)
write-IsGood p ls d f h = record {
  safe = write-IsSafe p ls d f h.safe;
  pending = Exists-write p pending_file ls d h.pending;
}

-- What a deletion through `.temp.txt` leaves.
Exists-remove : (p q : Text) (d : Disk) → eq_text p q ≡ false → Exists d q → Exists (remove p d) q
unfolding remove
Exists-remove p q d n (ls, e) = (ls, rw n e)

pub remove-IsGood :
    (p : Text) (ls : List Text) (d : Disk)
    → Fits p ls
    → IsGood d
    → IsGood (remove temp_file (write p ls d))
unfolding eq_text
remove-IsGood p ls d f h = record {
  safe = write-remove-IsSafe d p ls f h.safe;
  pending =
      Exists-remove temp_file pending_file _ refl (Exists-write p pending_file ls d h.pending);
}

pub replace_by_temp-IsGood :
    (p : Text) (kept : List Text) (d : Disk)
    → Fits p kept
    → IsGood d
    → IsGood (replace_by_temp p kept d)
unfolding replace_by_temp
replace_by_temp-IsGood p kept d f h = remove-IsGood p _ d (rw h.safe.no_temp f) h

pub Exists-replace_by_temp :
    (p q : Text) (kept : List Text) (d : Disk)
    → eq_text temp_file q ≡ false
    → Exists d q
    → Exists (replace_by_temp p kept d) q
unfolding replace_by_temp
Exists-replace_by_temp p q kept d n h = Exists-remove temp_file q _ n (Exists-write p q _ d h)

pub Exists-replace_by_temp_self :
    (p : Text) (kept : List Text) (d : Disk)
    → eq_text temp_file p ≡ false
    → Exists (replace_by_temp p kept d) p
unfolding replace_by_temp
Exists-replace_by_temp_self p kept d n = Exists-remove temp_file p _ n (Exists-write_self p _ d)

pub replace_file-IsGood :
    (p : Text) (kept : List Text) (d : Disk)
    → Fits p kept
    → IsGood d
    → IsGood (replace_file p kept d)
unfolding replace_file
replace_file-IsGood p kept d f h = remove-IsGood p kept d f h

pub Exists-replace_file :
    (p q : Text) (kept : List Text) (d : Disk)
    → eq_text temp_file q ≡ false
    → Exists d q
    → Exists (replace_file p kept d) q
unfolding replace_file
Exists-replace_file p q kept d n h = Exists-remove temp_file q _ n (Exists-write p q _ d h)

pub Exists-replace_file_self :
    (p : Text) (kept : List Text) (d : Disk)
    → eq_text temp_file p ≡ false
    → Exists (replace_file p kept d) p
unfolding replace_file
Exists-replace_file_self p kept d n = Exists-remove temp_file p _ n (Exists-write_self p _ d)

-- The tracker's state between two commands.
abbrev pub Good {ℓ} : {A : Type ℓ} → A → Tracker → Type 0
Good _ s = IsGood s.disk

pending_made : (d : Disk) → Exists (create_files d) pending_file
unfolding create_files
pending_made d =
    Exists-create_missing pending_file
      (create_missing group_file (create_missing online_file (create_missing credential_file d)))

pub create_files-IsGood : (d : Disk) → IsSafe d → IsGood (create_files d)
create_files-IsGood d h = record { safe = create_files-IsSafe d h; pending = pending_made d }

pub fetch_details-Good : (s : Tracker) → IsSafe s.disk → Runs fetch_details s Good
unfolding fetch_details
fetch_details-Good s h =
    let good = create_files-IsGood s.disk h in
    let (t, e) = Has-load (create_files s.disk) good.safe in
    Runs-on_disk _ _ (Runs-get _ (Runs-expect _ t e (Runs-modify_last _ good)))

pub fetch_group_members-Good :
    (g : Text) (s : Tracker) → IsGood s.disk → Runs (fetch_group_members g) s Good
unfolding fetch_group_members
fetch_group_members-Good g s h = Runs-read_lines _ _ (Runs-modify_last _ h)

-- After a deletion in `p`: the file is there, and so are the others that were there before.
abbrev pub Deleted : Text → Tracker → ⊤ → Tracker → Type 0
Deleted p s _ s' =
    IsGood s'.disk
    × Exists s'.disk p
    × ((q : Text) → eq_text temp_file q ≡ false → Exists s.disk q → Exists s'.disk q)

-- `DeleteLine` with an index: the file is there afterwards, and the state is good.
pub delete_line_at-Good :
    (p x : Text) (i n : ℕ) (s : Tracker)
    → IsGood s.disk
    → HaveFields n (lines s.disk p)
    → i < n
    → ((ls : List Text) → HaveFields n ls → Fits p ls)
    → eq_text temp_file p ≡ false
    → Runs (delete_line_at p x i) s (Deleted p s)
unfolding delete_line_at
delete_line_at-Good p x i n s h fields lt fits nt =
    let (kept, e, fields') = Has-keep_other n i x (lines s.disk p) fields lt in
    Runs-read_lines _ _ (
      Runs-expect _ kept e (
        Runs-on_disk_last _ (
          replace_by_temp-IsGood p kept s.disk (fits kept fields') h,
          Exists-replace_by_temp_self p kept s.disk nt,
          λ q n'. Exists-replace_by_temp p q kept s.disk n',
        )))

-- `DeleteLine` of a whole line.
pub delete_line-Good :
    (p x : Text) (s : Tracker)
    → IsGood s.disk
    → ((ls : List Text) → Fits p ls)
    → eq_text temp_file p ≡ false
    → Runs (delete_line p x) s (Deleted p s)
unfolding delete_line
delete_line-Good p x s h fits nt = Runs-read_lines _ _ (
    Runs-on_disk_last _ (
      replace_by_temp-IsGood p _ s.disk (fits _) h,
      Exists-replace_by_temp_self p _ s.disk nt,
      λ q n'. Exists-replace_by_temp p q _ s.disk n',
    ))

-- `FetchGroupMembers` only fills the set of the members.
pub Runs-members :
    {B : Type 0} {Q : B → Tracker → Type 0} (g : Text) (f : ⊤ → M B) {s : Tracker}
    → Runs (f tt) (record s { group_members = members [] (lines s.disk (members_file g)) }) Q
    → Runs (fetch_group_members g >>= f) s Q
unfolding fetch_group_members
Runs-members g f h =
    Runs-bind _ f {P = λ a' s'. Runs (f a') s' _} (Runs-read_lines _ _ (Runs-modify_last _ h))
      λ _ _ h'. h'
