-- ===== src/Peer/Menu/Repeats.antt =====
-- The words that `command_split` keeps from one command to the next.
use torrent_based_file_shari.Common.{
  ℕ, zero, suc, ◌≡◌, refl, sym, ap, ◌∙◌, Bool, Option, some, List, [], ◌∷◌, ◌++◌, if◌then◌else◌,
  Text, codes, eq_text, words,
}
use torrent_based_file_shari.Common.Decimal.{ℤ}
use torrent_based_file_shari.Tracker.Fetch.{bind}
use torrent_based_file_shari.Peer.Menu.{
  Session, ends, prints, slot, say, check_tracker, refill, chain, filled_from, menu,
}

-- Reading the words that are there already.
refill_same : (n : ℕ) (ws rest : List Text) → refill n ws (ws ++ rest) ≡ ws ++ rest
unfolding refill
refill_same zero ws rest = refl
refill_same (suc n) [] rest = refl
refill_same (suc n) (w ∷ ws) rest = ap (λ l. w ∷ l) (refill_same n ws rest)

refill_nothing : (n : ℕ) (old : List Text) → refill n [] old ≡ old
unfolding refill
refill_nothing zero old = refl
refill_nothing (suc n) old = refl

-- The loop does nothing with a line but fill the places.
filled_same :
    (s : Session) (ws rest : List Text) (t : Text × ℤ) (n : ℕ)
    → s.command_split ≡ ws ++ rest
    → filled_from s [] t n ≡ filled_from s ws t n
filled_same s ws rest t n e =
    ap (λ l. record s { command_split = l; tracker = t })
      (refill_nothing (suc n) s.command_split
        ∙ e
        ∙ sym (refill_same (suc n) ws rest)
        ∙ ap (refill (suc n) ws) (sym e))

-- A line with no word in it is taken for the command whose words are still in the places.
pub menu-repeats :
    (sha1 : Text → List ℕ) (files : Text → Option Text) (myip port : Text)
    (connects : Text × ℤ → Bool) (tracker_info : List Text) (s : Session)
    (blank_line command : Text) (rest : List Text)
    → words blank_line ≡ []
    → s.command_split ≡ words command ++ rest
    → menu sha1 files myip port connects tracker_info s blank_line
      ≡ menu sha1 files myip port connects tracker_info s command
unfolding menu
menu-repeats sha1 files myip port connects tracker_info s blank_line command rest empty e =
    let fill : filled_from s (words blank_line) ≡ filled_from s (words command) =
      ap (filled_from s) empty ∙ (λ i t n. filled_same s (words command) rest t n e i) in
    ap
      (λ (f : Text × ℤ → ℕ → Session).
        if eq_text (slot (f s.tracker 0) 0) (codes "quit")
        then some ends
        else bind (check_tracker connects s.tracker tracker_info) λ (online, t). some (
            if online
            then chain sha1 files myip port (f t)
            else prints (f t 0) (say (codes "No tracker online"))))
      fill
