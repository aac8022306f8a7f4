-- ===== src/Common/Sets.antt =====
-- What is in a `std::set`, and in a map, after an insertion.
use torrent_based_file_shari.Common.Base.{
  ◌≡◌, refl, sym, ap, subst, ◌∙◌, Bool, true, false, some, List, [], ◌∷◌, arith, if◌then◌else◌,
  Bool-cases, inl, inr,
}
use torrent_based_file_shari.Common.Strings.{Text, eq_text, lt_text, eq_text_refl}
use torrent_based_file_shari.Common.Containers.{
  set_insert, lt_pair, eq_pair, mem_text, mem_pair, Table, lookup, insert,
}

-- Two texts of which neither is below the other are the same.
eq_of_lt_text : (a b : Text) → lt_text a b ≡ false → lt_text b a ≡ false → a ≡ b
unfolding lt_text
eq_of_lt_text [] [] h k = refl
eq_of_lt_text [] (y ∷ b) h k = absurd (ground arith)
eq_of_lt_text (x ∷ a) [] h k = absurd (ground arith)
eq_of_lt_text (x ∷ a) (y ∷ b) h k =
    let same : x ≡ y = ground arith in
    let rest = eq_of_lt_text a b (ground arith) (ground arith) in cc

eq_of_lt_pair : (x y : Text × Text) → lt_pair x y ≡ false → lt_pair y x ≡ false → x ≡ y
eq_of_lt_pair (a, b) (c, d) h k =
    let first : a ≡ c = eq_of_lt_text a c (ground arith) (ground arith) in
    let second : b ≡ d = eq_of_lt_text b d (ground arith) (ground arith) in cc

pub mem_pair-set_insert :
    (x : Text × Text) (ys : List (Text × Text)) → mem_pair x (set_insert lt_pair x ys) ≡ true
unfolding mem_pair set_insert
mem_pair-set_insert (a, b) [] = rw (eq_text_refl a, eq_text_refl b) refl
mem_pair-set_insert (a, b) (y ∷ ys) = elim (Bool-cases (lt_pair (a, b) y)) [
  | inl below ↦ rw (below, eq_text_refl a, eq_text_refl b) refl
  | inr no_ ↦ elim (Bool-cases (lt_pair y (a, b))) [
    | inl above ↦ ground (arith, mem_pair-set_insert (a, b) ys)
    | inr no' ↦
        let same = eq_of_lt_pair (a, b) y no_ no' in
        rw (no_, no')
          (subst (λ z. (if eq_pair (a, b) z then true else mem_pair (a, b) ys) ≡ true) same
            (rw (eq_text_refl a, eq_text_refl b) refl))
  ]
]

pub mem_text-set_insert :
    (x v : Text) (ys : List Text)
    → mem_text x (set_insert lt_text v ys) ≡ (if eq_text x v then true else mem_text x ys)
unfolding mem_text set_insert
mem_text-set_insert x v [] = refl
mem_text-set_insert x v (y ∷ ys) = elim (Bool-cases (lt_text v y)) [
  | inl below ↦ rw below refl
  | inr no_ ↦ elim (Bool-cases (lt_text y v)) [
    | inl above ↦
        rw (no_, above)
          (ap (λ b. if eq_text x y then true else b) (mem_text-set_insert x v ys)
            ∙ swap (eq_text x y) (eq_text x v) _)
    | inr no' ↦
        let same = eq_of_lt_text v y no_ no' in
        rw (no_, no')
          (subst
            (λ z.
              (if eq_text x y then true else mem_text x ys)
              ≡ (if eq_text x z then true else (if eq_text x y then true else mem_text x ys)))
            (sym same) (twice (eq_text x y) _))
  ]
]
  where
    swap :
        (a b c : Bool)
        → (if a then true else if b then true else c) ≡ (if b then true else if a then true else c)
    swap true true c = refl
    swap true false c = refl
    swap false true c = refl
    swap false false c = refl

    twice : (a c : Bool) → (if a then true else c) ≡ (if a then true else if a then true else c)
    twice true c = refl
    twice false c = refl

pub lookup-insert_same :
    {V : Type 0} (k : Text) (v : V) (m : Table V) → lookup k (insert k v m) ≡ some v
unfolding lookup insert
lookup-insert_same k v [] = rw (eq_text_refl k) refl
lookup-insert_same k v ((j, w) ∷ m) = elim (Bool-cases (eq_text j k)) [
  | inl e ↦ rw (e, lookup, insert, e) refl
  | inr e ↦ rw (e, lookup, insert, e) (lookup-insert_same k v m)
]
