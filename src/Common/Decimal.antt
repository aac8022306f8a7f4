-- ===== src/Common/Decimal.antt =====
-- `to_string` and `atoi` of the C++ library, on the native numbers and on texts.
use torrent_based_file_shari.Common.Base.{
  ℕ, zero, suc, ◌+◌, ◌-◌, ◌*◌, ◌/◌, ◌%◌, ◌^◌, ◌≤◌, ◌<◌, ◌≡◌, ◌≢◌, refl, ap, ◌∙◌, Bool, true, false,
  ◌&&◌, Option, none, some, [], ◌∷◌, ◌++◌, arith, ltb, leb, ◌==◌, if◌then◌else◌, Bool-cases, inl,
  inr,
}
use torrent_based_file_shari.Common.Lists.{All, All-append}
use torrent_based_file_shari.Common.Strings.{Text, is_space}

-- `negsuc n` is -(n + 1).
pub data ℤ : Type 0 where
  pos : ℕ → ℤ
  negsuc : ℕ → ℤ

-- The digits of a number below `10 ^ rounds`.
unfoldable pub digits : ℕ → ℕ → Text
digits zero n = []
digits (suc rounds) n = elim (ltb n 10) [
  | true ↦ (b'0' + n) ∷ []
  | false ↦ digits rounds (n / 10) ++ (b'0' + n % 10) ∷ []
]

unfoldable pub to_string : ℕ → Text
unfolding digits
to_string n = digits (suc n) n

abbrev pub is_digit : ℕ → Bool
is_digit c = leb b'0' c && leb c b'9'

-- The number that the digits at the front of a text stand for, after `n`.
unfoldable pub read_digits : ℕ → Text → ℕ
read_digits n [] = n
read_digits n (c ∷ cs) = elim (is_digit c) [
  | true ↦ read_digits (n * 10 + (c - b'0')) cs
  | false ↦ n
]

-- An `int` of 32 bits; any other value is undefined behaviour of `atoi`.
abbrev pub in_int : ℤ → Option ℤ
in_int (pos n) = if ltb n (2 ^ 31) then some (pos n) else none
in_int (negsuc n) = if ltb n (2 ^ 31) then some (negsuc n) else none

abbrev pub minus : ℕ → ℤ
minus zero = pos 0
minus (suc n) = negsuc n

abbrev pub read_signed : Text → ℤ
read_signed [] = pos 0
read_signed (c ∷ cs) =
    if c == b'-'
    then minus (read_digits 0 cs)
    else if c == b'+'
    then pos (read_digits 0 cs)
    else pos (read_digits 0 (c ∷ cs))

unfoldable pub skip_space : Text → Text
skip_space [] = []
skip_space (c ∷ cs) = elim (is_space c) [ true ↦ skip_space cs | false ↦ c ∷ cs ]

unfoldable pub atoi : Text → Option ℤ
unfolding skip_space read_digits
atoi t = in_int (read_signed (skip_space t))

abbrev pub Digit : ℕ → Type 0
Digit c = (b'0' ≤ c) × (c ≤ b'9')

digits-Digit : (rounds n : ℕ) → All Digit (digits rounds n)
unfolding digits
digits-Digit zero n = tt
digits-Digit (suc rounds) n = elim (Bool-cases (ltb n 10)) [
  | inl small ↦ rw (small, digits) (ground arith, tt)
  | inr large ↦
      rw (large, digits)
        (All-append Digit (digits rounds (n / 10)) _ (digits-Digit rounds (n / 10))
          (omega arith, tt))
]

read_digits-append :
    (n : ℕ) (ds : Text) (d : ℕ)
    → All Digit ds
    → Digit d
    → read_digits n (ds ++ d ∷ []) ≡ read_digits n ds * 10 + (d - b'0')
unfolding read_digits
read_digits-append n [] d h hd = ground arith
read_digits-append n (c ∷ ds) d (hc, h) hd =
    ground (arith, read_digits-append (n * 10 + (c - b'0')) ds d h hd)

read_digits-digits : (rounds n : ℕ) → n < rounds → read_digits 0 (digits rounds n) ≡ n
unfolding digits read_digits
read_digits-digits zero n h = absurd (omega arith)
read_digits-digits (suc rounds) n h = elim (Bool-cases (ltb n 10)) [
  | inl small ↦ rw (small, digits) (ground arith)
  | inr large ↦
      rw (large, digits)
        (read_digits-append 0 (digits rounds (n / 10)) (b'0' + n % 10)
            (digits-Digit rounds (n / 10)) (omega arith)
          ∙ ap (λ k. k * 10 + (b'0' + n % 10 - b'0'))
              (read_digits-digits rounds (n / 10) (ground arith))
          ∙ omega arith)
]

not_nil : (t : Text) (c : ℕ) → t ++ c ∷ [] ≢ []
not_nil [] c e = cc
not_nil (d ∷ t) c e = cc

digits-ne-nil : (rounds n : ℕ) → digits (suc rounds) n ≢ []
unfolding digits
digits-ne-nil rounds n e = elim (Bool-cases (ltb n 10)) [
  | inl small ↦ not_nil [] (b'0' + n) (rw (small, digits) at e)
  | inr large ↦ not_nil (digits rounds (n / 10)) _ (rw (large, digits) at e)
]

atoi-digits : (t : Text) → t ≢ [] → All Digit t → atoi t ≡ in_int (pos (read_digits 0 t))
unfolding atoi skip_space
atoi-digits [] n h = absurd (n refl)
atoi-digits (c ∷ cs) n (hc, h) =
    let plain : is_space c ≡ false = ground arith in
    let no_minus : (c == b'-') ≡ false = ground arith in
    let no_plus : (c == b'+') ≡ false = ground arith in
    let same : skip_space (c ∷ cs) ≡ c ∷ cs = rw (plain, skip_space) refl in
    let unsigned : read_signed (c ∷ cs) ≡ pos (read_digits 0 (c ∷ cs)) =
      rw (no_minus, no_plus) refl in
    ap (λ t. in_int (read_signed t)) same ∙ ap in_int unsigned

pub atoi-to_string : (n : ℕ) → n < 2 ^ 31 → atoi (to_string n) ≡ some (pos n)
unfolding to_string
atoi-to_string n h =
    atoi-digits (digits (suc n) n) (digits-ne-nil n n) (digits-Digit (suc n) n)
    ∙ ap (λ k. in_int (pos k)) (read_digits-digits (suc n) n (omega arith))
    ∙ ground arith

pub to_string-Digit : (n : ℕ) → All Digit (to_string n)
unfolding to_string
to_string-Digit n = digits-Digit (suc n) n

pub to_string-ne-nil : (n : ℕ) → to_string n ≢ []
unfolding to_string
to_string-ne-nil n = digits-ne-nil n n
