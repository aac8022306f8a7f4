-- ===== src/Peer/Files.antt =====
-- A file of bytes under `fseek` and `fwrite`: what peer/peerdownload.cpp writes where.
use torrent_based_file_shari.Common.{
  ℕ, zero, suc, ◌+◌, ◌≤◌, ◌<◌, ◌≡◌, refl, ap, ◌∙◌, Bool, false, some, [], ◌∷◌, ◌++◌, arith, ltb,
  if◌then◌else◌, length, get_elem?, take, drop, Text,
}

-- `fwrite` at the front of a file.
unfoldable pub overwrite : Text → Text → Text
overwrite [] file = file
overwrite (c ∷ cs) [] = c ∷ cs
overwrite (c ∷ cs) (x ∷ file) = c ∷ overwrite cs file

-- Zeros for the gap behind the end of a file, where something is written.
abbrev pub behind : ℕ → Text → Text
behind p [] = []
behind zero (c ∷ cs) = c ∷ cs
behind (suc p) (c ∷ cs) = 0 ∷ behind p (c ∷ cs)

-- `fseek` and `fwrite`.
unfoldable pub fwrite_at : ℕ → Text → Text → Text
unfolding overwrite
fwrite_at zero text file = overwrite text file
fwrite_at (suc p) text [] = behind (suc p) text
fwrite_at (suc p) text (x ∷ file) = x ∷ fwrite_at p text file

-- The place `k` lies in the `n` bytes from `p` on.
abbrev pub within : ℕ → ℕ → ℕ → Bool
within p n k = if ltb k p then false else ltb k (p + n)

-- Bytes of a file, written over a file of the same length.
pub get_elem?-overwrite :
    (n : ℕ) (source file : Text)
    → length file ≡ length source
    → (k : ℕ)
    → get_elem? (overwrite (take n source) file) k
      ≡ (if ltb k n then get_elem? source k else get_elem? file k)
unfolding overwrite
get_elem?-overwrite zero source file h k = ground arith
get_elem?-overwrite (suc n) [] [] h k = ground arith
get_elem?-overwrite (suc n) [] (x ∷ file) h k = absurd (omega arith)
get_elem?-overwrite (suc n) (c ∷ source) [] h k = absurd (omega arith)
get_elem?-overwrite (suc n) (c ∷ source) (x ∷ file) h zero = ground arith
get_elem?-overwrite (suc n) (c ∷ source) (x ∷ file) h (suc k) =
    ground (arith, get_elem?-overwrite n source file (omega arith) k)

pub get_elem?-fwrite_at :
    (p n : ℕ) (source file : Text)
    → length file ≡ length source
    → p ≤ length source
    → (k : ℕ)
    → get_elem? (fwrite_at p (take n (drop p source)) file) k
      ≡ (if within p n k then get_elem? source k else get_elem? file k)
unfolding fwrite_at
get_elem?-fwrite_at zero n source file h l k = get_elem?-overwrite n source file h k ∙ ground arith
get_elem?-fwrite_at (suc p) n [] file h l k = absurd (omega arith)
get_elem?-fwrite_at (suc p) n (c ∷ source) [] h l k = absurd (omega arith)
get_elem?-fwrite_at (suc p) n (c ∷ source) (x ∷ file) h l zero = ground arith
get_elem?-fwrite_at (suc p) n (c ∷ source) (x ∷ file) h l (suc k) =
    get_elem?-fwrite_at p n source file (omega arith) (omega arith) k ∙ ground arith

length-overwrite :
    (n : ℕ) (source file : Text)
    → length file ≡ length source
    → length (overwrite (take n source) file) ≡ length file
unfolding overwrite
length-overwrite zero source file h = refl
length-overwrite (suc n) [] file h = refl
length-overwrite (suc n) (c ∷ source) [] h = absurd (omega arith)
length-overwrite (suc n) (c ∷ source) (x ∷ file) h = omega (arith, length-overwrite n source file)

pub length-fwrite_at :
    (p n : ℕ) (source file : Text)
    → length file ≡ length source
    → p ≤ length source
    → length (fwrite_at p (take n (drop p source)) file) ≡ length file
unfolding fwrite_at
length-fwrite_at zero n source file h l = length-overwrite n source file h
length-fwrite_at (suc p) n [] file h l = absurd (omega arith)
length-fwrite_at (suc p) n (c ∷ source) [] h l = absurd (omega arith)
length-fwrite_at (suc p) n (c ∷ source) (x ∷ file) h l =
    omega (arith, length-fwrite_at p n source file)

overwrite_nil : (a : Text) → overwrite a [] ≡ a
unfolding overwrite
overwrite_nil [] = refl
overwrite_nil (c ∷ a) = refl

-- What follows at the end of a write.
fwrite_at-end : (a b : Text) → fwrite_at (length a) b a ≡ a ++ b
unfolding fwrite_at overwrite
fwrite_at-end [] b = overwrite_nil b
fwrite_at-end (c ∷ a) b = ap (λ t. c ∷ t) (fwrite_at-end a b)

fwrite_at-overwrite :
    (a b file : Text) → fwrite_at (length a) b (overwrite a file) ≡ overwrite (a ++ b) file
unfolding fwrite_at overwrite
fwrite_at-overwrite [] b file = refl
fwrite_at-overwrite (c ∷ a) b [] = ap (λ t. c ∷ t) (fwrite_at-end a b)
fwrite_at-overwrite (c ∷ a) b (x ∷ file) = ap (λ t. c ∷ t) (fwrite_at-overwrite a b file)

-- Two writes, one behind the other, are one.
pub fwrite_at-append :
    (p : ℕ) (a b file : Text)
    → p ≤ length file
    → fwrite_at (p + length a) b (fwrite_at p a file) ≡ fwrite_at p (a ++ b) file
unfolding fwrite_at
fwrite_at-append zero a b file l =
    let here : zero + length a ≡ length a = omega arith in
    ap (λ n. fwrite_at n b (overwrite a file)) here ∙ fwrite_at-overwrite a b file
fwrite_at-append (suc p) a b [] l = absurd (omega arith)
fwrite_at-append (suc p) a b (x ∷ file) l =
    let next : suc p + length a ≡ suc (p + length a) = omega arith in
    ap (λ n. fwrite_at n b (x ∷ fwrite_at p a file)) next
    ∙ ap (λ t. x ∷ t) (fwrite_at-append p a b file (omega arith))

pub fwrite_at_nil : (p : ℕ) (file : Text) → fwrite_at p [] file ≡ file
unfolding fwrite_at overwrite
fwrite_at_nil zero file = refl
fwrite_at_nil (suc p) [] = refl
fwrite_at_nil (suc p) (x ∷ file) = ap (λ t. x ∷ t) (fwrite_at_nil p file)

overwrite_long : (a file : Text) → length a ≤ length (overwrite a file)
unfolding overwrite
overwrite_long [] file = omega arith
overwrite_long (c ∷ a) [] = omega arith
overwrite_long (c ∷ a) (x ∷ file) = omega (arith, overwrite_long a file)

pub fwrite_at_long :
    (p : ℕ) (a file : Text) → p ≤ length file → p + length a ≤ length (fwrite_at p a file)
unfolding fwrite_at
fwrite_at_long zero a file l = omega (arith, overwrite_long a file)
fwrite_at_long (suc p) a [] l = absurd (omega arith)
fwrite_at_long (suc p) a (x ∷ file) l = omega (arith, fwrite_at_long p a file (omega arith))

-- Files of one length with the same bytes are equal.
pub eq_of_get_elem? :
    (x y : Text)
    → length x ≡ length y
    → ((k : ℕ) → k < length y → get_elem? x k ≡ get_elem? y k)
    → x ≡ y
eq_of_get_elem? [] [] h e = refl
eq_of_get_elem? [] (c ∷ y) h e = absurd (omega arith)
eq_of_get_elem? (b ∷ x) [] h e = absurd (omega arith)
eq_of_get_elem? (b ∷ x) (c ∷ y) h e =
    let head : some b ≡ some c = e 0 (omega arith) in
    let rest = eq_of_get_elem? x y (omega arith) (λ k l. e (suc k) (omega arith)) in cc
