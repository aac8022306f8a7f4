-- ===== src/Peer/Menu/Signed.antt =====
-- What a user's command may send to the tracker.
use torrent_based_file_shari.Common.{
  ℕ, ◌≡◌, refl, sym, ◌∙◌, ◌⊎◌, inl, inr, Bool, true, false, Option, List, [], ◌∷◌, if◌then◌else◌,
  Text, codes, eq_text,
}
use torrent_based_file_shari.Common.Decimal.{ℤ, to_string}
use torrent_based_file_shari.Peer.Client.{
  is_yes, login_line, create_user_line, create_group_line, join_group_line, list_requests_line,
  list_files_line, accept_request_line, upload_file_line, stop_share_line, leave_group_line,
  logout_line, show_downloads_line,
}
use torrent_based_file_shari.Peer.Menu.{
  Session, Turn, ends, prints, asks, downloads, slot, say, last_name, logged_in, opens, closes,
  opened, closed, upload_with, second_chain, chain, filled_from,
}

-- The lines that a logged-in user may send and stay logged in: those that name a user name this one.
pub data Signed (user : Text) : Text → Type 0 where
  for_create_group : (group : Text) → Signed user (create_group_line group user)
  for_list_groups : Signed user (codes "list_groups")
  for_join_group : (group : Text) → Signed user (join_group_line group user)
  for_list_requests : (group : Text) → Signed user (list_requests_line group user)
  for_accept_request : (group who : Text) → Signed user (accept_request_line group who user)
  for_upload_file :
      (hash size group name path : Text)
      → Signed user (upload_file_line hash size group user name path)
  for_list_files : (group : Text) → Signed user (list_files_line group)
  for_stop_share : (group name : Text) → Signed user (stop_share_line group name user)
  for_leave_group : (group : Text) → Signed user (leave_group_line group user)
  for_show_downloads : Signed user (show_downloads_line user)

-- The lines that open a session for a user, and their answers.
abbrev pub OpensFor : Text → Text → Text → Text → Type 0
OpensFor port myip user line =
    (password : Text) × ((line ≡ login_line user password port myip)
      ⊎ (line ≡ create_user_line user password port myip))

abbrev pub SameUser : Session → Session → Type 0
SameUser s s' = (s'.login_flag ≡ s.login_flag) × (s'.username ≡ s.username)

module _ (sha1 : Text → List ℕ) (files : Text → Option Text) (myip port : Text) where
  -- A line that is sent without a session, within one, and at its end.
  abbrev pub Enters : Session → Text → (Option Text → Session × Text) → Type 0
  Enters s line k =
      (s.login_flag ≡ false)
      × (user : Text) × OpensFor port myip user line
      × ((reply : Option Text)
          → ((is_yes reply ≡ true)
              × ((k reply).0.login_flag ≡ true)
              × ((k reply).0.username ≡ user))
            ⊎ ((is_yes reply ≡ false) × ((k reply).0.login_flag ≡ false)))

  abbrev pub Stays : Session → Text → (Option Text → Session × Text) → Type 0
  Stays s line k =
      (s.login_flag ≡ true)
      × Signed s.username line
      × ((reply : Option Text) → SameUser s (k reply).0)

  abbrev pub Leaves : Session → Text → (Option Text → Session × Text) → Type 0
  Leaves s line k =
      (s.login_flag ≡ true)
      × (line ≡ logout_line s.username)
      × ((reply : Option Text)
          → ((is_yes reply ≡ true) × ((k reply).0.login_flag ≡ false))
            ⊎ ((is_yes reply ≡ false) × SameUser s (k reply).0))

  unfoldable pub Orderly : Session → Turn → Type 0
  Orderly s ends = Unit
  Orderly s (prints s' text) = SameUser s s'
  Orderly s (asks s' line k) = Enters s line k ⊎ Stays s line k ⊎ Leaves s line k
  Orderly s (downloads s' group name path) = (s.login_flag ≡ true) × SameUser s s'

  prints-Orderly : (s s' : Session) (text : Text) → SameUser s s' → Orderly s (prints s' text)
  unfolding Orderly
  prints-Orderly s s' text same = same

  downloads-Orderly :
      (s s' : Session) (group name path : Text)
      → s.login_flag ≡ true
      → SameUser s s'
      → Orderly s (downloads s' group name path)
  unfolding Orderly
  downloads-Orderly s s' group name path e same = (e, same)

  enters-Orderly :
      (s s' : Session) (line : Text) (k : Option Text → Session × Text)
      → Enters s line k
      → Orderly s (asks s' line k)
  unfolding Orderly
  enters-Orderly s s' line k h = inl h

  stays-Orderly :
      (s s' : Session) (line : Text) (k : Option Text → Session × Text)
      → s.login_flag ≡ true
      → Signed s.username line
      → ((reply : Option Text) → SameUser s (k reply).0)
      → Orderly s (asks s' line k)
  unfolding Orderly
  stays-Orderly s s' line k e signed same = inr (inl (e, signed, same))

  leaves-Orderly :
      (s s' : Session) (line : Text) (k : Option Text → Session × Text)
      → Leaves s line k
      → Orderly s (asks s' line k)
  unfolding Orderly
  leaves-Orderly s s' line k h = inr (inr h)

  if_split :
      (s : Session) (b : Bool) (x y : Turn)
      → (b ≡ true → Orderly s x)
      → (b ≡ false → Orderly s y)
      → Orderly s (if b then x else y)
  if_split s true x y hx hy = hx refl
  if_split s false x y hx hy = hy refl

  if_both :
      (s : Session) (b : Bool) (x y : Turn)
      → Orderly s x
      → Orderly s y
      → Orderly s (if b then x else y)
  if_both s b x y hx hy = if_split s b x y (λ e. hx) (λ e. hy)

  logged_in-Orderly :
      (s s' : Session) (turn : Turn)
      → SameUser s s'
      → (s.login_flag ≡ true → Orderly s turn)
      → Orderly s (logged_in s' turn)
  logged_in-Orderly s s' turn same h =
      if_split s s'.login_flag _ _ (λ e. h (sym same.0 ∙ e)) (λ e. prints-Orderly s s' _ same)

  opens-Orderly :
      (s : Session) (ws : List Text) (t : Text × ℤ) (line : Text)
      → OpensFor port myip (slot (filled_from s ws t 2) 1) line
      → Orderly s (
          if s.login_flag
          then prints (filled_from s ws t 0) (say (codes "Already Logged in"))
          else asks (filled_from s ws t 2) line (opens (filled_from s ws t 2)))
  opens-Orderly s ws t line h =
      let s2 = filled_from s ws t 2 in
      if_split s s.login_flag _ _ (λ e. prints-Orderly s (filled_from s ws t 0) _ (refl, refl))
        (λ e.
          enters-Orderly s s2 line (opens s2) (e, slot s2 1, h, λ reply. answered (is_yes reply)))
    where
      answered :
          (b : Bool)
          → ((b ≡ true)
              × ((opened (filled_from s ws t 2) b).0.login_flag ≡ true)
              × ((opened (filled_from s ws t 2) b).0.username ≡ slot (filled_from s ws t 2) 1))
            ⊎ ((b ≡ false) × ((opened (filled_from s ws t 2) b).0.login_flag ≡ false))
      answered true = inl (refl, refl, refl)
      answered false = inr (refl, refl)

  closes-Orderly :
      (s : Session) (ws : List Text) (t : Text × ℤ)
      → s.login_flag ≡ true
      → Orderly s
          (asks (filled_from s ws t 0) (logout_line s.username) (closes (filled_from s ws t 0)))
  closes-Orderly s ws t e =
      leaves-Orderly s (filled_from s ws t 0) _ (closes (filled_from s ws t 0))
        (e, refl, λ reply. answered (is_yes reply))
    where
      answered :
          (b : Bool)
          → ((b ≡ true) × ((closed (filled_from s ws t 0) b).0.login_flag ≡ false))
            ⊎ ((b ≡ false) × SameUser s (closed (filled_from s ws t 0) b).0)
      answered true = inl (refl, refl)
      answered false = inr (refl, (refl, refl))

  upload-Orderly :
      (s : Session) (ws : List Text) (t : Text × ℤ) (read : Text × ℕ)
      → s.login_flag ≡ true
      → Orderly s (upload_with (filled_from s ws t 2) read)
  upload-Orderly s ws t ([], size) e = prints-Orderly s (filled_from s ws t 2) _ (refl, refl)
  upload-Orderly s ws t (c ∷ cs, size) e =
      let s2 = filled_from s ws t 2 in
      stays-Orderly s s2 _ _ e
        (for_upload_file (c ∷ cs) (to_string size) (slot s2 2) (last_name (slot s2 1)) (slot s2 1))
        (λ reply. (refl, refl))

  -- The second half of the commands.
  later :
      (s : Session) (ws : List Text) (t : Text × ℤ) → Orderly s (second_chain (filled_from s ws t))
  later s ws t =
      let a1 = slot (filled_from s ws t 1) 1 in
      let b1 = slot (filled_from s ws t 2) 1 in
      let b2 = slot (filled_from s ws t 2) 2 in
      let s0 = filled_from s ws t 0 in
      let is = λ (name : Text). eq_text (slot s0 0) name in
      if_both s (is (codes "list_files")) _ _
        (logged_in-Orderly s s0 _ (refl, refl)
          λ e. stays-Orderly s _ _ _ e (for_list_files a1) (λ reply. (refl, refl)))
        (if_both s (is (codes "stop_share")) _ _
          (logged_in-Orderly s s0 _ (refl, refl)
            λ e. stays-Orderly s _ _ _ e (for_stop_share b1 b2) (λ reply. (refl, refl)))
          (if_both s (is (codes "leave_group")) _ _
            (logged_in-Orderly s s0 _ (refl, refl)
              λ e. stays-Orderly s _ _ _ e (for_leave_group a1) (λ reply. (refl, refl)))
            (if_both s (is (codes "download_file")) _ _
              (logged_in-Orderly s s0 _ (refl, refl)
                λ e. downloads-Orderly s _ _ _ _ e (refl, refl))
              (if_both s (is (codes "show_downloads")) _ _
                (logged_in-Orderly s s0 _ (refl, refl)
                  λ e. stays-Orderly s _ _ _ e (for_show_downloads) (λ reply. (refl, refl)))
                (if_both s (is (codes "logout")) _ _
                  (logged_in-Orderly s s0 _ (refl, refl) (closes-Orderly s ws t))
                  (logged_in-Orderly s s0 _ (refl, refl)
                    λ e. prints-Orderly s s0 _ (refl, refl)))))))

  -- Every command, in every session.
  pub chain-Orderly :
      (s : Session) (ws : List Text) (t : Text × ℤ)
      → Orderly s (chain sha1 files myip port (filled_from s ws t))
  unfolding chain
  chain-Orderly s ws t =
      let a1 = slot (filled_from s ws t 1) 1 in
      let b1 = slot (filled_from s ws t 2) 1 in
      let b2 = slot (filled_from s ws t 2) 2 in
      let s0 = filled_from s ws t 0 in
      let is = λ (name : Text). eq_text (slot s0 0) name in
      if_both s (is (codes "login")) _ _ (opens-Orderly s ws t _ (b2, inl refl)) (
        if_both s (is (codes "create_user")) _ _ (opens-Orderly s ws t _ (b2, inr refl)) (
          if_both s (is (codes "create_group")) _ _
            (logged_in-Orderly s s0 _ (refl, refl)
              λ e. stays-Orderly s _ _ _ e (for_create_group a1) (λ reply. (refl, refl)))
            (if_both s (is (codes "list_groups")) _ _
              (logged_in-Orderly s s0 _ (refl, refl)
                λ e. stays-Orderly s _ _ _ e (for_list_groups) (λ reply. (refl, refl)))
              (if_both s (is (codes "join_group")) _ _
                (logged_in-Orderly s s0 _ (refl, refl)
                  λ e. stays-Orderly s _ _ _ e (for_join_group a1) (λ reply. (refl, refl)))
                (if_both s (is (codes "list_requests")) _ _
                  (logged_in-Orderly s s0 _ (refl, refl)
                    λ e. stays-Orderly s _ _ _ e (for_list_requests a1) (λ reply. (refl, refl)))
                  (if_both s (is (codes "accept_request")) _ _
                    (logged_in-Orderly s s0 _ (refl, refl)
                      λ e.
                        stays-Orderly s _ _ _ e (for_accept_request b1 b2) (λ reply. (refl, refl)))
                    (if_both s (is (codes "upload_file")) _ _
                      (logged_in-Orderly s s0 _ (refl, refl) (upload-Orderly s ws t _))
                      (later s ws t))))))))
