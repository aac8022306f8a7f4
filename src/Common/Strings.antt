-- ===== src/Common/Strings.antt =====
-- Texts as lists of character codes: comparison (`std::string`), `split` on a delimiter as
-- tracker/tracker.cpp, peer/peerserver.cpp and peer/peerdownload.cpp each define it, and the words
-- that `stringstream >>` reads.
pub mod Split
pub mod Words
use Prim.Native.Char.{code}
use Prim.Native.String.{String}
use torrent_based_file_shari.Common.Base.{
  ℕ, ◌≤◌, ◌+◌, ◌≡◌, refl, ap, ◌≢◌, Bool, true, false, ◌&&◌, ◌||◌, Option, none, some, List, [], ◌∷◌,
  ◌++◌, append_assoc, append-nil, arith, ltb, leb, ◌==◌, if◌then◌else◌, ==_refl, ==→eq, Bool-cases,
  inl, inr, ◌∙◌, zero, suc,
}
use torrent_based_file_shari.Common.Lists.{length, length-append, All}

abbrev pub Text : Type 0
Text = List ℕ

abbrev pub codes : String → Text
codes String.[] = []
codes (String.◌∷◌ c s) = code c ∷ codes s

unfoldable pub eq_text : Text → Text → Bool
eq_text [] [] = true
eq_text [] (b ∷ y) = false
eq_text (a ∷ x) [] = false
eq_text (a ∷ x) (b ∷ y) = if a == b then eq_text x y else false

-- `operator<` on `std::string`: bytes are compared as unsigned numbers.
unfoldable pub lt_text : Text → Text → Bool
lt_text [] [] = false
lt_text [] (b ∷ y) = true
lt_text (a ∷ x) [] = false
lt_text (a ∷ x) (b ∷ y) = if ltb a b then true else if a == b then lt_text x y else false

pub eq_text_refl : (x : Text) → eq_text x x ≡ true
unfolding eq_text
eq_text_refl [] = refl
eq_text_refl (a ∷ x) = ground (arith, eq_text_refl x)

pub eq_of_eq_text : (x y : Text) → eq_text x y ≡ true → x ≡ y
unfolding eq_text
eq_of_eq_text [] [] h = refl
eq_of_eq_text [] (b ∷ y) h = cc
eq_of_eq_text (a ∷ x) [] h = cc
eq_of_eq_text (a ∷ x) (b ∷ y) h = ground (arith, eq_of_eq_text x y)

pub eq_text_of_ne : (x y : Text) → x ≢ y → eq_text x y ≡ false
eq_text_of_ne x y h = elim (Bool-cases (eq_text x y)) [
  | inl e ↦ absurd (h (eq_of_eq_text x y e))
  | inr e ↦ e
]

pub eq_text_comm : (x y : Text) → eq_text x y ≡ eq_text y x
unfolding eq_text
eq_text_comm [] [] = refl
eq_text_comm [] (b ∷ y) = refl
eq_text_comm (a ∷ x) [] = refl
eq_text_comm (a ∷ x) (b ∷ y) = ground (arith, eq_text_comm x y)

pub eq_text-append_left : (x y z : Text) → eq_text (x ++ y) (x ++ z) ≡ eq_text y z
unfolding eq_text
eq_text-append_left [] y z = refl
eq_text-append_left (a ∷ x) y z = ground (arith, eq_text-append_left x y z)

-- `split(data, delim)`: `temp` collects the field that is being read.
unfoldable pub split_from : ℕ → Text → Text → List Text
split_from delim temp [] = temp ∷ []
split_from delim temp (c ∷ cs) = elim (c == delim) [
  | true ↦ temp ∷ split_from delim [] cs
  | false ↦ split_from delim (temp ++ c ∷ []) cs
]

unfoldable pub split : Text → ℕ → List Text
unfolding split_from
split text delim = split_from delim [] text

-- A character that `isspace` accepts in the C locale.
abbrev pub is_space : ℕ → Bool
is_space c = (c == 32) || (leb 9 c && leb c 13)

abbrev pub push_word : Text → List Text → List Text
push_word [] ws = ws
push_word (c ∷ cs) ws = (c ∷ cs) ∷ ws

unfoldable pub words_from : Text → Text → List Text
words_from temp [] = push_word temp []
words_from temp (c ∷ cs) = elim (is_space c) [
  | true ↦ push_word temp (words_from [] cs)
  | false ↦ words_from (temp ++ c ∷ []) cs
]

-- What repeated `stream >> word` reads from a text.
unfoldable pub words : Text → List Text
unfolding words_from
words text = words_from [] text

-- Each text of a list, with `after` behind it.
abbrev pub each_with : Text → List Text → Text
each_with after [] = []
each_with after (n ∷ ns) = n ++ (after ++ each_with after ns)

abbrev pub newline : Text
newline = 10 ∷ []
