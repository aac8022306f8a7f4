-- ===== src/Peer/Download/Tests/Sorting.antt =====
-- A sort by `my_comp`, and the choice among three seeders after it.
use torrent_based_file_shari.Common.{
  ℕ, suc, ◌≡◌, refl, ap, ◌∙◌, inl, inr, Bool, true, false, some, List, [], ◌∷◌, arith, length, any,
  if◌then◌else◌, Bool-cases,
}
use torrent_based_file_shari.Peer.Choice.{Cell, populate, decide}
use torrent_based_file_shari.Peer.Choice.Holders.{blank, blank_rows}
use torrent_based_file_shari.Peer.Download.Decided.{Offers}
use torrent_based_file_shari.Peer.Download.Fewest.{
  my_comp, IsOrdered, Sorts, AllFewest, decide-AllFewest,
}

unfoldable put : ℕ × List ℕ → Offers → Offers
put a [] = a ∷ []
put a (b ∷ v) = let rest = put a v in if my_comp a b then a ∷ b ∷ v else b ∷ rest

abbrev insertion_sort : Offers → Offers
insertion_sort [] = []
insertion_sort (a ∷ v) = put a (insertion_sort v)

any-put : (p : ℕ × List ℕ → Bool) (a : ℕ × List ℕ) (v : Offers) → any p (put a v) ≡ any p (a ∷ v)
unfolding put
any-put p a [] = refl
any-put p a (b ∷ v) = elim (Bool-cases (my_comp a b)) [
  | inl e ↦ rw e refl
  | inr e ↦ rw (e, any-put p a v) (swapped (p a) (p b) (any p v))
]
  where
    swapped :
        (x y z : Bool)
        → (if y then true else if x then true else z) ≡ (if x then true else if y then true else z)
    swapped true true z = refl
    swapped true false z = refl
    swapped false y z = refl

length-put : (a : ℕ × List ℕ) (v : Offers) → length (put a v) ≡ suc (length v)
unfolding put
length-put a [] = refl
length-put a (b ∷ v) = elim (Bool-cases (my_comp a b)) [
  | inl e ↦ rw e refl
  | inr e ↦ rw e (ap suc (length-put a v))
]

my_comp_total : (a b : ℕ × List ℕ) → my_comp a b ≡ false → my_comp b a ≡ true
unfolding my_comp
my_comp_total a b h = ground (arith, h)

put-IsOrdered_behind :
    (a b : ℕ × List ℕ) (v : Offers)
    → my_comp b a ≡ true
    → IsOrdered (b ∷ v)
    → IsOrdered (b ∷ put a v)
unfolding put
put-IsOrdered_behind a b [] e o = (e, tt)
put-IsOrdered_behind a b (c ∷ v) e (f, o) = elim (Bool-cases (my_comp a c)) [
  | inl g ↦ rw g (e, (g, o))
  | inr g ↦ rw g (f, put-IsOrdered_behind a c v (my_comp_total a c g) o)
]

put-IsOrdered : (a : ℕ × List ℕ) (v : Offers) → IsOrdered v → IsOrdered (put a v)
unfolding put
put-IsOrdered a [] o = tt
put-IsOrdered a (b ∷ v) o = elim (Bool-cases (my_comp a b)) [
  | inl e ↦ rw e (e, o)
  | inr e ↦ rw e (put-IsOrdered_behind a b v (my_comp_total a b e) o)
]

insertion_sort-Sorts : Sorts insertion_sort
insertion_sort-Sorts = ((same_length, same_any), ordered)
  where
    same_length : (v : Offers) → length (insertion_sort v) ≡ length v
    same_length [] = refl
    same_length (a ∷ v) = length-put a (insertion_sort v) ∙ ap suc (same_length v)

    same_any : (p : ℕ × List ℕ → Bool) (v : Offers) → any p (insertion_sort v) ≡ any p v
    same_any p [] = refl
    same_any p (a ∷ v) =
        any-put p a (insertion_sort v) ∙ ap (λ r. if p a then true else r) (same_any p v)

    ordered : (v : Offers) → IsOrdered (insertion_sort v)
    ordered [] = tt
    ordered (a ∷ v) = put-IsOrdered a (insertion_sort v) (ordered v)

-- The first seeder has both pieces, the second one of them, the third none.
abbrev offers : Offers
offers = (0, 1 ∷ 2 ∷ []) ∷ (1, 2 ∷ []) ∷ (2, []) ∷ []

decide-AllFewest_example :
    (m : List (List Cell)) × (cells : List Cell) × (populate
        (blank_rows 2 offers)
        (insertion_sort offers)
      ≡ some m)
    × (decide m (blank 2) ≡ some cells)
    × (length cells ≡ 2)
    × AllFewest 1 offers cells
decide-AllFewest_example =
    decide-AllFewest 2 offers insertion_sort
      (
        ((omega arith, omega arith), ((omega arith, omega arith), tt)),
        (((omega arith, omega arith), tt), (tt, tt)),
      )
      insertion_sort-Sorts
