-- ===== src/Common/Strings/Split.antt =====
-- What `split` makes of a line that was put together with the delimiter.
use torrent_based_file_shari.Common.Base.{
  ℕ, ◌+◌, ◌≤◌, ◌≡◌, refl, ◌∙◌, ap, false, [], ◌∷◌, ◌++◌, append_assoc, append-nil, arith, ◌==◌,
  Bool-cases, inl, inr, ==_refl,
}
use torrent_based_file_shari.Common.Lists.{length, length-append, All, All-append}
use torrent_based_file_shari.Common.Strings.{Text, split_from, split}

pub split_from-append :
    (d : ℕ) (temp a b : Text)
    → split_from d temp (a ++ d ∷ b) ≡ split_from d temp a ++ split_from d [] b
unfolding split_from
split_from-append d temp [] b = rw (==_refl d, split_from) refl
split_from-append d temp (c ∷ a) b = elim (Bool-cases (c == d)) [
  | inl e ↦ rw (e, split_from) (ap (λ l. temp ∷ l) (split_from-append d [] a b))
  | inr e ↦ rw (e, split_from) (split_from-append d (temp ++ c ∷ []) a b)
]

pub split-append : (d : ℕ) (a b : Text) → split (a ++ d ∷ b) d ≡ split a d ++ split b d
unfolding split
split-append d a b = split_from-append d [] a b

pub split_from-pos : (d : ℕ) (temp a : Text) → 1 ≤ length (split_from d temp a)
unfolding split_from
split_from-pos d temp [] = omega arith
split_from-pos d temp (c ∷ a) = elim (Bool-cases (c == d)) [
  | inl e ↦ rw (e, split_from) (omega arith)
  | inr e ↦ rw (e, split_from) (split_from-pos d (temp ++ c ∷ []) a)
]

pub split-pos : (d : ℕ) (a : Text) → 1 ≤ length (split a d)
unfolding split
split-pos d a = split_from-pos d [] a

-- One more field for each delimiter.
pub length-split :
    (d : ℕ) (a b : Text) → length (split (a ++ d ∷ b) d) ≡ length (split a d) + length (split b d)
length-split d a b = rw (split-append d a b) (length-append (split a d) (split b d))

-- A text with no delimiter in it.
abbrev pub Lacks : ℕ → Text → Type 0
Lacks d = All (λ c. (c == d) ≡ false)

pub split_from-Lacks : (d : ℕ) (temp a : Text) → Lacks d a → split_from d temp a ≡ (temp ++ a) ∷ []
unfolding split_from
split_from-Lacks d temp [] h = rw append-nil
split_from-Lacks d temp (c ∷ a) h =
    rw (h.0, split_from)
      (split_from-Lacks d (temp ++ c ∷ []) a h.1 ∙ ap (λ l. l ∷ []) (append_assoc temp (c ∷ []) a))

pub split-Lacks : (d : ℕ) (a : Text) → Lacks d a → split a d ≡ a ∷ []
unfolding split
split-Lacks d a h = split_from-Lacks d [] a h

-- The first field.
pub split-field : (a b : Text) → Lacks 32 a → split (a ++ 32 ∷ b) 32 ≡ a ∷ split b 32
split-field a b h = split-append 32 a b ∙ ap (λ l. l ++ split b 32) (split-Lacks 32 a h)

-- No field holds the delimiter.
split_from-fields : (d : ℕ) (temp a : Text) → Lacks d temp → All (Lacks d) (split_from d temp a)
unfolding split_from
split_from-fields d temp [] h = (h, tt)
split_from-fields d temp (c ∷ a) h = elim (Bool-cases (c == d)) [
  | inl e ↦ rw (e, split_from) (h, split_from-fields d [] a tt)
  | inr e ↦
      rw (e, split_from)
        (split_from-fields d (temp ++ c ∷ []) a (All-append _ temp (c ∷ []) h (e, tt)))
]

pub split-fields : (d : ℕ) (a : Text) → All (Lacks d) (split a d)
unfolding split
split-fields d a = split_from-fields d [] a tt
