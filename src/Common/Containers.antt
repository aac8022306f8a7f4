-- ===== src/Common/Containers.antt =====
-- `std::unordered_map` as an association list and `std::set` as a list in increasing order.
use torrent_based_file_shari.Common.Base.{
  Bool, true, false, Option, none, some, List, [], ◌∷◌, if◌then◌else◌,
}
use torrent_based_file_shari.Common.Strings.{Text, eq_text, lt_text}

abbrev pub Table {ℓ} : Type ℓ → Type ℓ
Table V = List (Text × V)

module _ {ℓ} {V : Type ℓ} where
  -- `find`
  unfoldable pub lookup : Text → Table V → Option V
  lookup k [] = none
  lookup k ((j, v) ∷ m) = if eq_text j k then some v else lookup k m

  -- `m[k] = v`
  unfoldable pub insert : Text → V → Table V → Table V
  insert k v [] = (k, v) ∷ []
  insert k v ((j, w) ∷ m) = if eq_text j k then (j, v) ∷ m else (j, w) ∷ insert k v m

  abbrev pub contains : Text → Table V → Bool
  contains k m = elim (lookup k m) [ none ↦ false | some _ ↦ true ]

-- A set in increasing order, by its `operator<`.
unfoldable pub set_insert {ℓ} : {A : Type ℓ} → (A → A → Bool) → A → List A → List A
set_insert lt x [] = x ∷ []
set_insert lt x (y ∷ ys) =
    if lt x y then x ∷ y ∷ ys else if lt y x then y ∷ set_insert lt x ys else y ∷ ys

abbrev pub eq_pair : Text × Text → Text × Text → Bool
eq_pair (a, b) (c, d) = if eq_text a c then eq_text b d else false

-- `operator<` on pairs of strings.
abbrev pub lt_pair : Text × Text → Text × Text → Bool
lt_pair (a, b) (c, d) = if lt_text a c then true else if lt_text c a then false else lt_text b d

-- `set<string>::find`
unfoldable pub mem_text : Text → List Text → Bool
mem_text x [] = false
mem_text x (y ∷ ys) = if eq_text x y then true else mem_text x ys

unfoldable pub mem_pair : Text × Text → List (Text × Text) → Bool
mem_pair x [] = false
mem_pair x (y ∷ ys) = if eq_pair x y then true else mem_pair x ys
