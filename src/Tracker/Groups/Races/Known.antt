-- ===== src/Tracker/Groups/Races/Known.antt =====
-- Which groups a table has after the lines of a file were read into it.
use torrent_based_file_shari.Common.{
  ◌≡◌, refl, sym, ap, subst, ◌∙◌, ◌⊎◌, inl, inr, Bool, true, false, none, some, List, [], ◌∷◌,
  if◌then◌else◌, get_elem?, Text, eq_text, eq_of_eq_text, split, Table, lookup, insert, contains,
  Bool-cases, Option-cases,
}
use torrent_based_file_shari.Tracker.Fetch.{space, load_groups}

contains-insert :
    (k n o : Text) (t : Table Text)
    → contains k (insert n o t) ≡ (if eq_text n k then true else contains k t)
unfolding lookup insert
contains-insert k n o [] = elim (Bool-cases (eq_text n k)) [
  | inl e ↦ rw (contains, lookup, insert, e) refl
  | inr e ↦ rw (contains, lookup, insert, e) refl
]
contains-insert k n o ((j, w) ∷ t) = elim (Bool-cases (eq_text j n)) [
  | inl e ↦ elim (Bool-cases (eq_text j k)) [
    | inl f ↦
        let g : eq_text n k ≡ true = subst (λ x. eq_text x k ≡ true) (eq_of_eq_text j n e) f in
        rw (contains, lookup, insert, e, lookup, f, g) refl
    | inr f ↦
        let g : eq_text n k ≡ false = subst (λ x. eq_text x k ≡ false) (eq_of_eq_text j n e) f in
        rw (contains, lookup, insert, e, lookup, f, g) refl
  ]
  | inr e ↦ elim (Bool-cases (eq_text j k)) [
    | inl f ↦ rw (contains, lookup, insert, e, lookup, f) (sym (either_true (eq_text n k)))
    | inr f ↦ rw (contains, lookup, insert, e, lookup, f) (contains-insert k n o t)
  ]
]
  where
    either_true : (b : Bool) → (if b then true else true) ≡ true
    either_true true = refl
    either_true false = refl

-- One more line that was read.
read_line :
    (acc r : Table Text) (l : Text) (ls : List Text)
    → load_groups acc (l ∷ ls) ≡ some r
    → (n : Text) × (o : Text) × (load_groups (insert n o acc) ls ≡ some r)
      × (get_elem? (split l space) 0 ≡ some n)
      × (get_elem? (split l space) 1 ≡ some o)
unfolding load_groups
read_line acc r l ls e = elim (Option-cases (get_elem? (split l space) 0)) [
  | inl h ↦ let bad : none ≡ some r = rw h at e in cc
  | inr (n, h) ↦ elim (Option-cases (get_elem? (split l space) 1)) [
    | inl h2 ↦ let bad : none ≡ some r = rw (h, h2) at e in cc
    | inr (o, h2) ↦ (n, o, rw (h, h2) at e, h, h2)
  ]
]

contains-grows :
    (k : Text) (acc r : Table Text) (ls : List Text)
    → load_groups acc ls ≡ some r
    → contains k acc ≡ true
    → contains k r ≡ true
unfolding load_groups
contains-grows k acc r [] e h = let same : acc ≡ r = cc in subst (λ t. contains k t ≡ true) same h
contains-grows k acc r (l ∷ ls) e h =
    let (n, o, e1, _, _) = read_line acc r l ls e in
    contains-grows k (insert n o acc) r ls e1 (contains-insert k n o acc ∙ kept (eq_text n k))
  where
    kept : (b : Bool) → (if b then true else contains k acc) ≡ true
    kept true = refl
    kept false = h

-- A group that is in the table after lines were read into `acc` was in `acc`, or is in every table that the
-- lines are read into.
pub contains-load_groups :
    (k : Text) (acc acc2 r r2 : Table Text) (ls : List Text)
    → load_groups acc ls ≡ some r
    → load_groups acc2 ls ≡ some r2
    → contains k r ≡ true
    → (contains k acc ≡ true) ⊎ (contains k r2 ≡ true)
unfolding load_groups
contains-load_groups k acc acc2 r r2 [] e e2 h =
    let same : r ≡ acc = cc in inl (subst (λ t. contains k t ≡ true) same h)
contains-load_groups k acc acc2 r r2 (l ∷ ls) e e2 h =
    let (n, o, e1, fn, fo) = read_line acc r l ls e in
    let (n2, o2, e3, fn2, fo2) = read_line acc2 r2 l ls e2 in
    elim (contains-load_groups k (insert n o acc) (insert n2 o2 acc2) r r2 ls e1 e3 h) [
      | inr there ↦ inr there
      | inl new ↦ elim (Bool-cases (eq_text n k)) [
        | inl f ↦
            let both : some n2 ≡ some n = sym fn2 ∙ fn in
            let same : n2 ≡ n = cc in
            let g : eq_text n2 k ≡ true = ap (λ x. eq_text x k) same ∙ f in
            inr (
              contains-grows k (insert n2 o2 acc2) r2 ls e3
                (contains-insert k n2 o2 acc2 ∙ ap (λ c. if c then true else contains k acc2) g))
        | inr f ↦ inl (
            ap (λ c. if c then true else contains k acc) (sym f)
            ∙ sym (contains-insert k n o acc)
            ∙ new)
      ]
    ]
