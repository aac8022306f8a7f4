-- ===== src/Tracker/Safety/Disk.antt =====
-- The shape of the files: enough fields on every line that the tracker splits.
use torrent_based_file_shari.Common.{
  ℕ, ◌≤◌, ◌≡◌, ◌≢◌, refl, ap, ◌∙◌, eq_text_refl, Bool, true, false, Option, none, some, List, ◌++◌,
  if◌then◌else◌, All, length, Text, codes, eq_text, Bool-cases, inl, inr, split,
}
use torrent_based_file_shari.Tracker.State.{
  Disk, or_nil, lines, write, remove, online_file, group_file, temp_file, shared_file, user_file,
}
use torrent_based_file_shari.Tracker.Fetch.{space}

-- Every line has at least `n` fields.
abbrev pub HaveFields : ℕ → List Text → Type 0
HaveFields n = All (λ l. n ≤ length (split l space))

-- Names whose files are not files of another group or user.
abbrev pub IsGroupName : Text → Type 0
IsGroupName g = (x : Text) → g ≢ x ++ codes "_files"

abbrev pub IsUserName : Text → Type 0
IsUserName u = (x : Text) → (u ≢ x ++ codes "_downloading") × (u ≢ x ++ codes "_downloaded")

pub record IsSafe (d : Disk) : Type 0 where
  pub online : HaveFields 3 (lines d online_file)
  pub groups : HaveFields 2 (lines d group_file)
  pub shared : (g : Text) → HaveFields 4 (lines d (shared_file g))
  pub users : (u : Text) → IsUserName u → HaveFields 3 (lines d (user_file u))
  pub no_temp : d temp_file ≡ none

-- The lines `ls` may be written to the file `p`.
pub record Fits (p : Text) (ls : List Text) : Type 0 where
  pub online : eq_text p online_file ≡ true → HaveFields 3 ls
  pub groups : eq_text p group_file ≡ true → HaveFields 2 ls
  pub shared : (g : Text) → eq_text p (shared_file g) ≡ true → HaveFields 4 ls
  pub users : (u : Text) → IsUserName u → eq_text p (user_file u) ≡ true → HaveFields 3 ls
  pub not_temp : eq_text p temp_file ≡ false

or_nil-if :
    (b : Bool) (ls : List Text) (c : Option (List Text))
    → or_nil (if b then some ls else c) ≡ (if b then ls else or_nil c)
or_nil-if true ls c = refl
or_nil-if false ls c = refl

pub lines-write :
    (p q : Text) (ls : List Text) (d : Disk)
    → lines (write p ls d) q ≡ (if eq_text p q then ls else lines d q)
unfolding write
lines-write p q ls d = or_nil-if (eq_text p q) ls (d q)

pub lines-write_self : (p : Text) (ls : List Text) (d : Disk) → lines (write p ls d) p ≡ ls
lines-write_self p ls d =
    lines-write p p ls d ∙ ap (λ b. if b then ls else lines d p) (eq_text_refl p)

pub lines-write_other :
    (p q : Text) (ls : List Text) (d : Disk)
    → eq_text p q ≡ false
    → lines (write p ls d) q ≡ lines d q
lines-write_other p q ls d other =
    lines-write p q ls d ∙ ap (λ b. if b then ls else lines d q) other

write-HaveFields :
    (n : ℕ) (p q : Text) (ls : List Text) (d : Disk)
    → (eq_text p q ≡ true → HaveFields n ls)
    → HaveFields n (lines d q)
    → HaveFields n (lines (write p ls d) q)
write-HaveFields n p q ls d h k = elim (Bool-cases (eq_text p q)) [
  | inl e ↦ rw (lines-write p q ls d, e) (h e)
  | inr e ↦ rw (lines-write p q ls d, e) k
]

pub write-IsSafe :
    (p : Text) (ls : List Text) (d : Disk) → Fits p ls → IsSafe d → IsSafe (write p ls d)
unfolding write
write-IsSafe p ls d f h = record {
  online = write-HaveFields 3 p online_file ls d f.online h.online;
  groups = write-HaveFields 2 p group_file ls d f.groups h.groups;
  shared = λ g. write-HaveFields 4 p (shared_file g) ls d (f.shared g) (h.shared g);
  users = λ u n. write-HaveFields 3 p (user_file u) ls d (f.users u n) (h.users u n);
  no_temp = rw f.not_temp h.no_temp;
}

remove-HaveFields :
    (n : ℕ) (p q : Text) (d : Disk) → HaveFields n (lines d q) → HaveFields n (lines (remove p d) q)
unfolding remove
remove-HaveFields n p q d h = elim (Bool-cases (eq_text p q)) [ inl e ↦ rw e tt | inr e ↦ rw e h ]

module _ (d : Disk) (p : Text) (ls : List Text) (f : Fits p ls) where
  pub write-remove-IsSafe : IsSafe d → IsSafe (remove temp_file (write p ls d))
  unfolding remove eq_text
  write-remove-IsSafe h =
      let w = write-IsSafe p ls d f h in
      record {
        online = remove-HaveFields 3 temp_file online_file (write p ls d) w.online;
        groups = remove-HaveFields 2 temp_file group_file (write p ls d) w.groups;
        shared = λ g. remove-HaveFields 4 temp_file (shared_file g) (write p ls d) (w.shared g);
        users = λ u n. remove-HaveFields 3 temp_file (user_file u) (write p ls d) (w.users u n);
        no_temp = refl;
      }
