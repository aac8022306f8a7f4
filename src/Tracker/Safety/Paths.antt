-- ===== src/Tracker/Safety/Paths.antt =====
-- Which lines each file takes, by its name.
use mathlib.Core.List.{append_cancel_left, append_cancel_right}
use torrent_based_file_shari.Common.{
  ◌≡◌, refl, sym, ◌∙◌, true, false, List, [], ◌++◌, append_assoc, Text, codes, eq_text,
  eq_of_eq_text,
}
use torrent_based_file_shari.Tracker.State.{
  credential_file, online_file, group_file, pending_file, temp_file, members_file, shared_file,
  user_file, downloading_file, downloaded_file,
}
use torrent_based_file_shari.Tracker.Safety.Disk.{HaveFields, IsGroupName, IsUserName, Fits}

-- Two names with one prefix and suffixes `a` and `b ++ a`: the first name ends in `b`.
suffix_of_eq :
    (prefix x y a b : Text)
    → eq_text (prefix ++ (x ++ a)) (prefix ++ (y ++ (b ++ a))) ≡ true
    → x ≡ y ++ b
suffix_of_eq prefix x y a b e =
    append_cancel_right x (y ++ b) a
      (append_cancel_left prefix _ _ (eq_of_eq_text _ _ e) ∙ sym (append_assoc y b a))

pub Fits-nil : (p : Text) → eq_text p temp_file ≡ false → Fits p []
Fits-nil p h = record {
  online = λ _. tt;
  groups = λ _. tt;
  shared = λ _ _. tt;
  users = λ _ _ _. tt;
  not_temp = h;
}

module _ (ls : List Text) where
  pub Fits-online : HaveFields 3 ls → Fits online_file ls
  unfolding eq_text
  Fits-online h = record {
    online = λ _. h;
    groups = λ e. cc;
    shared = λ g e. cc;
    users = λ u n e. cc;
    not_temp = refl;
  }

  pub Fits-group : HaveFields 2 ls → Fits group_file ls
  unfolding eq_text
  Fits-group h = record {
    online = λ e. cc;
    groups = λ _. h;
    shared = λ g e. cc;
    users = λ u n e. cc;
    not_temp = refl;
  }

  pub Fits-credential : Fits credential_file ls
  unfolding eq_text
  Fits-credential = record {
    online = λ e. cc;
    groups = λ e. cc;
    shared = λ g e. cc;
    users = λ u n e. cc;
    not_temp = refl;
  }

  pub Fits-pending : Fits pending_file ls
  unfolding eq_text
  Fits-pending = record {
    online = λ e. cc;
    groups = λ e. cc;
    shared = λ g e. cc;
    users = λ u n e. cc;
    not_temp = refl;
  }

  pub Fits-shared : (g : Text) → HaveFields 4 ls → Fits (shared_file g) ls
  unfolding eq_text
  Fits-shared g h = record {
    online = λ e. cc;
    groups = λ e. cc;
    shared = λ _ _. h;
    users = λ u n e. cc;
    not_temp = refl;
  }

  members-ne-shared :
      (g x : Text) → IsGroupName g → eq_text (members_file g) (shared_file x) ≡ true → ⊥
  members-ne-shared g x n e =
      n x (suffix_of_eq (codes ".all_files/.group_") g x (codes ".txt") (codes "_files") e)

  pub Fits-members : (g : Text) → IsGroupName g → Fits (members_file g) ls
  unfolding eq_text
  Fits-members g n = record {
    online = λ e. cc;
    groups = λ e. cc;
    shared = λ x e. absurd (members-ne-shared g x n e);
    users = λ u _ e. cc;
    not_temp = refl;
  }

  pub Fits-user : (u : Text) → HaveFields 3 ls → Fits (user_file u) ls
  unfolding eq_text
  Fits-user u h = record {
    online = λ e. cc;
    groups = λ e. cc;
    shared = λ g e. cc;
    users = λ _ _ _. h;
    not_temp = refl;
  }

  user-ne-downloading :
      (u x : Text) → IsUserName u → eq_text (downloading_file x) (user_file u) ≡ true → ⊥
  user-ne-downloading u x n e = (n x).0 (
      append_cancel_right u (x ++ codes "_downloading") (codes ".txt") (
        sym (append_cancel_left (codes ".all_files/.files_") _ _ (eq_of_eq_text _ _ e))
        ∙ sym (append_assoc x (codes "_downloading") (codes ".txt"))))

  pub Fits-downloading : (u : Text) → Fits (downloading_file u) ls
  unfolding eq_text
  Fits-downloading x = record {
    online = λ e. cc;
    groups = λ e. cc;
    shared = λ g e. cc;
    users = λ u n e. absurd (user-ne-downloading u x n e);
    not_temp = refl;
  }

  user-ne-downloaded :
      (u x : Text) → IsUserName u → eq_text (downloaded_file x) (user_file u) ≡ true → ⊥
  user-ne-downloaded u x n e = (n x).1 (
      append_cancel_right u (x ++ codes "_downloaded") (codes ".txt") (
        sym (append_cancel_left (codes ".all_files/.files_") _ _ (eq_of_eq_text _ _ e))
        ∙ sym (append_assoc x (codes "_downloaded") (codes ".txt"))))

  pub Fits-downloaded : (u : Text) → Fits (downloaded_file u) ls
  unfolding eq_text
  Fits-downloaded x = record {
    online = λ e. cc;
    groups = λ e. cc;
    shared = λ g e. cc;
    users = λ u n e. absurd (user-ne-downloaded u x n e);
    not_temp = refl;
  }
