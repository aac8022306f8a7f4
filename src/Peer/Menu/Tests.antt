-- ===== src/Peer/Menu/Tests.antt =====
-- A short session at the peer.
use torrent_based_file_shari.Common.{
  ◌≡◌, refl, Bool, true, Option, none, some, List, [], ◌∷◌, Text, codes, eq_text, split, split_from,
  words, words_from,
}
use torrent_based_file_shari.Common.Decimal.{ℤ, pos, atoi, skip_space, read_digits}
use torrent_based_file_shari.Peer.Client.{is_yes, output, c_string, login_line, logout_line}
use torrent_based_file_shari.Peer.Menu.{
  Session, asks, opens, closes, check_tracker, refill, chain, filled_from, menu,
}
use torrent_based_file_shari.Peer.Menu.History.{
  History, start, Reached, begun, answered, Authorised, menu-Authorised,
}
use torrent_based_file_shari.Peer.Menu.Repeats.{menu-repeats}
use torrent_based_file_shari.Peer.Tests.{digest}

abbrev one_tracker : List Text
one_tracker = codes "h 1" ∷ []

abbrev reachable : Text × ℤ → Bool
reachable t = true

abbrev no_file : Text → Option Text
no_file p = none

-- After the words of the first line, and after the answer.
abbrev asking : Session
asking = record start {
  command_split = codes "login" ∷ codes "bob" ∷ codes "pw" ∷ [] ∷ [] ∷ [] ∷ [] ∷ [] ∷ [] ∷ [] ∷ [];
  tracker = (codes "h", pos 1);
}

abbrev inside : Session
inside = record asking { login_flag = true; username = codes "bob" }

abbrev one_login : History
one_login = (login_line (codes "bob") (codes "pw") (codes "9") (codes "i"), some (codes "1")) ∷ []

login_typed :
    menu digest no_file (codes "i") (codes "9") reachable one_tracker start (codes "login bob pw")
    ≡ some
        (asks asking (login_line (codes "bob") (codes "pw") (codes "9") (codes "i")) (opens asking))
unfolding menu check_tracker refill chain words words_from split split_from eq_text atoi skip_space
    read_digits
login_typed = refl

logout_typed :
    menu digest no_file (codes "i") (codes "9") reachable one_tracker inside (codes "logout")
    ≡ some (
        asks
          (filled_from inside (codes "logout" ∷ []) (codes "h", pos 1) 0)
          (logout_line (codes "bob"))
          (closes (filled_from inside (codes "logout" ∷ []) (codes "h", pos 1) 0)))
unfolding menu check_tracker refill chain words words_from split split_from eq_text atoi skip_space
    read_digits
logout_typed = refl

reached : Reached digest (codes "i") (codes "9") inside one_login
unfolding output c_string is_yes
reached =
    answered start [] no_file reachable one_tracker (codes "login bob pw") asking
      (login_line (codes "bob") (codes "pw") (codes "9") (codes "i")) (opens asking) begun
      login_typed (some (codes "1"))

menu-Authorised_example : Authorised digest (codes "i") (codes "9") inside one_login (
    asks
      (filled_from inside (codes "logout" ∷ []) (codes "h", pos 1) 0)
      (logout_line (codes "bob"))
      (closes (filled_from inside (codes "logout" ∷ []) (codes "h", pos 1) 0)))
menu-Authorised_example =
    menu-Authorised digest (codes "i") (codes "9") inside one_login no_file reachable one_tracker
      (codes "logout")
      (asks (filled_from inside (codes "logout" ∷ []) (codes "h", pos 1) 0)
        (logout_line (codes "bob"))
        (closes (filled_from inside (codes "logout" ∷ []) (codes "h", pos 1) 0)))
      reached logout_typed

menu-repeats_example :
    menu digest no_file (codes "i") (codes "9") reachable one_tracker asking []
    ≡ menu digest no_file
        (codes "i")
        (codes "9")
        reachable
        one_tracker
        asking
        (codes "login bob pw")
unfolding words words_from
menu-repeats_example =
    menu-repeats digest no_file (codes "i") (codes "9") reachable one_tracker asking []
      (codes "login bob pw") ([] ∷ [] ∷ [] ∷ [] ∷ [] ∷ [] ∷ [] ∷ []) refl refl
