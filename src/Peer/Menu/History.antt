-- ===== src/Peer/Menu/History.antt =====
-- A whole session at the peer: the commands that are typed, one after the other, and the answers.
use torrent_based_file_shari.Common.{
  ℕ, ◌≡◌, ◌≢◌, refl, sym, ap, ◌∙◌, subst, ◌⊎◌, inl, inr, Bool, true, false, Option, none, some,
  List, [], ◌∷◌, arith, get_elem?, Text, codes, eq_text, words, Bool-cases, Option-cases,
}
use torrent_based_file_shari.Common.Decimal.{ℤ, pos}
use torrent_based_file_shari.Peer.Client.{is_yes, logout_line}
use torrent_based_file_shari.Peer.Menu.{
  Session, Turn, ends, prints, asks, downloads, slot, say, check_tracker, chain, filled_from, menu,
}
use torrent_based_file_shari.Peer.Menu.Signed.{
  Signed, for_create_group, for_list_groups, for_join_group, for_list_requests, for_accept_request,
  for_upload_file, for_list_files, for_stop_share, for_leave_group, for_show_downloads, OpensFor,
  SameUser, Orderly, chain-Orderly,
}

-- The lines that were sent and what came back, the latest first.
abbrev pub History : Type 0
History = List (Text × Option Text)

-- `vector<string> command_split(10)` and the other variables at the start of `main`.
abbrev pub start : Session
start = record {
  login_flag = false;
  username = [];
  command_split = [] ∷ [] ∷ [] ∷ [] ∷ [] ∷ [] ∷ [] ∷ [] ∷ [] ∷ [] ∷ [];
  tracker = ([], pos 0);
}

module _ (sha1 : Text → List ℕ) (myip port : Text) where
  -- The sessions that some commands, files, trackers and answers lead to.
  pub data Reached : Session → History → Type 0 where
    begun : Reached start []
    printed :
        (s : Session) (h : History) (files : Text → Option Text) (connects : Text × ℤ → Bool)
        (info : List Text) (command : Text) (s' : Session) (text : Text)
        → Reached s h
        → menu sha1 files myip port connects info s command ≡ some (prints s' text)
        → Reached s' h
    answered :
        (s : Session) (h : History) (files : Text → Option Text) (connects : Text × ℤ → Bool)
        (info : List Text) (command : Text) (s' : Session) (line : Text)
        (k : Option Text → Session × Text)
        → Reached s h
        → menu sha1 files myip port connects info s command ≡ some (asks s' line k)
        → (reply : Option Text) → Reached (k reply).0 ((line, reply) ∷ h)
    downloaded :
        (s : Session) (h : History) (files : Text → Option Text) (connects : Text × ℤ → Bool)
        (info : List Text) (command : Text) (s' : Session) (group name path : Text)
        → Reached s h
        → menu sha1 files myip port connects info s command ≡ some (downloads s' group name path)
        → Reached s' h

  -- A session of this user was opened with what the peer takes for a yes, and not closed with one since.
  abbrev pub Opened : Text → History → Type 0
  Opened user [] = ⊥
  Opened user ((line, reply) ∷ h) =
      ((is_yes reply ≡ true) × OpensFor port myip user line)
      ⊎ (Opened user h × ((is_yes reply ≡ false) ⊎ (line ≢ logout_line user)))

  menu-Orderly :
      (files : Text → Option Text) (connects : Text × ℤ → Bool) (info : List Text) (s : Session)
      (command : Text) (turn : Turn)
      → menu sha1 files myip port connects info s command ≡ some turn
      → Orderly sha1 files myip port s turn
  unfolding menu Orderly
  menu-Orderly files connects info s command turn e =
      let ws = words command in
      elim (Bool-cases (eq_text (slot (filled_from s ws s.tracker 0) 0) (codes "quit"))) [
        | inl quits ↦
            let same : some ends ≡ some turn = rw quits at e in
            let this : ends ≡ turn = cc in subst (Orderly sha1 files myip port s) this tt
        | inr stays ↦ elim (Option-cases (check_tracker connects s.tracker info)) [
          | inl bad ↦ let no : none ≡ some turn = rw (stays, bad) at e in cc
          | inr ((false, t), found) ↦
              let same : some (prints (filled_from s ws t 0) (say (codes "No tracker online")))
                  ≡ some turn =
                rw (stays, found) at e in
              let this : prints (filled_from s ws t 0) (say (codes "No tracker online")) ≡ turn =
                cc in
              subst (Orderly sha1 files myip port s) this (refl, refl)
          | inr ((true, t), found) ↦
              let same : some (chain sha1 files myip port (filled_from s ws t)) ≡ some turn =
                rw (stays, found) at e in
              let this : chain sha1 files myip port (filled_from s ws t) ≡ turn = cc in
              subst (Orderly sha1 files myip port s) this
                (chain-Orderly sha1 files myip port s ws t)
        ]
      ]

  other_letter : (c d : ℕ) → c ≢ d → some c ≢ some d
  other_letter c d n e = n (ap (λ o. elim o [ none ↦ c | some x ↦ x ]) e)

  Signed-ne-logout : {user line : Text} → Signed user line → line ≢ logout_line user
  Signed-ne-logout (for_create_group group) e =
      other_letter b'r' b'o' (λ h. ground arith) (ap (λ t. get_elem? t 1) e)
  Signed-ne-logout for_list_groups e =
      other_letter b'i' b'o' (λ h. ground arith) (ap (λ t. get_elem? t 1) e)
  Signed-ne-logout (for_join_group group) e =
      other_letter b'j' b'l' (λ h. ground arith) (ap (λ t. get_elem? t 0) e)
  Signed-ne-logout (for_list_requests group) e =
      other_letter b'i' b'o' (λ h. ground arith) (ap (λ t. get_elem? t 1) e)
  Signed-ne-logout (for_accept_request group who) e =
      other_letter b'c' b'o' (λ h. ground arith) (ap (λ t. get_elem? t 1) e)
  Signed-ne-logout (for_upload_file hash size group name path) e =
      other_letter b'p' b'o' (λ h. ground arith) (ap (λ t. get_elem? t 1) e)
  Signed-ne-logout (for_list_files group) e =
      other_letter b'i' b'o' (λ h. ground arith) (ap (λ t. get_elem? t 1) e)
  Signed-ne-logout (for_stop_share group name) e =
      other_letter b't' b'o' (λ h. ground arith) (ap (λ t. get_elem? t 1) e)
  Signed-ne-logout (for_leave_group group) e =
      other_letter b'e' b'o' (λ h. ground arith) (ap (λ t. get_elem? t 1) e)
  Signed-ne-logout for_show_downloads e =
      other_letter b'h' b'o' (λ h. ground arith) (ap (λ t. get_elem? t 1) e)

  abbrev Known : Session → History → Type 0
  Known s h = (s.login_flag ≡ false) ⊎ Opened s.username h

  same-Known : (s s' : Session) (h : History) → SameUser s s' → Known s h → Known s' h
  same-Known s s' h (flag, user) (inl e) = inl (flag ∙ e)
  same-Known s s' h (flag, user) (inr o) = inr (subst (λ u. Opened u h) (sym user) o)

  Known-Opened : (s : Session) (h : History) → s.login_flag ≡ true → Known s h → Opened s.username h
  Known-Opened s h e (inl f) = let bad : true ≡ false = sym e ∙ f in cc
  Known-Opened s h e (inr o) = o

  answered-Known :
      (s : Session) (h : History) (s' : Session) (line : Text) (k : Option Text → Session × Text)
      (reply : Option Text) (files : Text → Option Text)
      → Known s h
      → Orderly sha1 files myip port s (asks s' line k)
      → Known (k reply).0 ((line, reply) ∷ h)
  unfolding Orderly
  answered-Known s h s' line k reply files known (inl (out, user, opens_for, after)) =
      elim (after reply) [
        | inl (yes_, flag, name) ↦
            inr (inl (yes_, subst (λ u. OpensFor port myip u line) (sym name) opens_for))
        | inr (no_, flag) ↦ inl flag
      ]
  answered-Known s h s' line k reply files known (inr (inl (in_, signed, after))) =
      let o = Known-Opened s h in_ known in
      inr (
        subst (λ u. Opened u ((line, reply) ∷ h)) (sym (after reply).1)
          (inr (o, inr (Signed-ne-logout signed))))
  answered-Known s h s' line k reply files known (inr (inr (in_, closes, after))) =
      elim (after reply) [
        | inl (yes_, flag) ↦ inl flag
        | inr (no_, same) ↦ inr (
            subst (λ u. Opened u ((line, reply) ∷ h)) (sym same.1)
              (inr (Known-Opened s h in_ known, inl no_)))
      ]

  Reached-Known : {s : Session} {h : History} → Reached s h → Known s h
  unfolding Orderly
  Reached-Known begun = inl refl
  Reached-Known (printed s h files connects info command s' text r e) =
      same-Known s s' h (menu-Orderly files connects info s command _ e) (Reached-Known r)
  Reached-Known (answered s h files connects info command s' line k r e reply) =
      answered-Known s h s' line k reply files (Reached-Known r)
        (menu-Orderly files connects info s command _ e)
  Reached-Known (downloaded s h files connects info command s' group name path r e) =
      same-Known s s' h (menu-Orderly files connects info s command _ e).1 (Reached-Known r)

  -- What a turn may do after this history.
  abbrev pub Authorised : Session → History → Turn → Type 0
  Authorised s h ends = Unit
  Authorised s h (prints s' text) = Unit
  Authorised s h (asks s' line k) =
      ((s.login_flag ≡ false) × (user : Text) × OpensFor port myip user line)
      ⊎ (Opened s.username h × (Signed s.username line ⊎ (line ≡ logout_line s.username)))
  Authorised s h (downloads s' group name path) = Opened s.username h

  -- In every session that commands can lead to, a command sends a line other than `login` and
  -- `create_user`, or starts a download, only if the reply to an earlier `login` or `create_user` of the
  -- user was taken for a yes and that to no `logout` since. Taken for a yes is every reply that does not
  -- begin with 0, also the empty text of a connection that was lost. Where the line names the user who
  -- asks, it names this one. Whatever the trackers answer, and whether they can be reached or not.
  pub menu-Authorised :
      (s : Session) (h : History) (files : Text → Option Text) (connects : Text × ℤ → Bool)
      (info : List Text) (command : Text) (turn : Turn)
      → Reached s h
      → menu sha1 files myip port connects info s command ≡ some turn
      → Authorised s h turn
  unfolding Orderly
  menu-Authorised s h files connects info command turn r e =
      authorised turn (menu-Orderly files connects info s command turn e)
    where
      authorised : (turn : Turn) → Orderly sha1 files myip port s turn → Authorised s h turn
      authorised ends o = tt
      authorised (prints s' text) o = tt
      authorised (asks s' line k) (inl (out, user, opens_for, after)) = inl (out, user, opens_for)
      authorised (asks s' line k) (inr (inl (in_, signed, after))) =
          inr (Known-Opened s h in_ (Reached-Known r), inl signed)
      authorised (asks s' line k) (inr (inr (in_, closes, after))) =
          inr (Known-Opened s h in_ (Reached-Known r), inr closes)
      authorised (downloads s' group name path) o = Known-Opened s h o.0 (Reached-Known r)
