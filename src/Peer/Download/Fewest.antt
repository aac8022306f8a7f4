-- ===== src/Peer/Download/Fewest.antt =====
-- `my_comp` of peer/peerdownload.cpp, by which `CalcChunk` has the seeders sorted: those that have few
-- pieces come first, so a piece is asked of the seeder with the fewest.
use torrent_based_file_shari.Common.{
  ℕ, zero, suc, ◌≤◌, ◌≡◌, refl, sym, ap, ◌∙◌, inl, inr, Bool, true, false, ◌&&◌, none, some, List,
  [], ◌∷◌, arith, leb, ltb, ◌==◌, if◌then◌else◌, length, any, All, All-map, Bool-cases,
  Option-cases, ◌⊎◌,
}
use torrent_based_file_shari.Peer.Choice.{Cell, populate, decide}
use torrent_based_file_shari.Peer.Choice.Holders.{
  blank, blank_rows, holder, holders, InRange, decide-populate,
}
use torrent_based_file_shari.Peer.Download.Decided.{
  Offers, Rearranges, InRange-sort, same_rows, gives, holder-none, length-holders,
}

unfoldable pub my_comp : ℕ × List ℕ → ℕ × List ℕ → Bool
my_comp a b = if leb (length a.1) (length b.1) then true else false

-- No element is out of order with the next.
abbrev pub IsOrdered : Offers → Type 0
IsOrdered [] = Unit
IsOrdered (a ∷ []) = Unit
IsOrdered (a ∷ b ∷ v) = (my_comp a b ≡ true) × IsOrdered (b ∷ v)

abbrev pub Sorts : (Offers → Offers) → Type 0
Sorts sort = Rearranges sort × ((v : Offers) → IsOrdered (sort v))

-- The seeder in the cell has the piece `j` and names a number of pieces that no seeder which has the piece
-- goes below; -1 stands where none has it.
abbrev pub Fewest : ℕ → Offers → Cell → Type 0
Fewest j v none = any (λ e. any (λ i. i == j) e.1) v ≡ false
Fewest j v (some k) =
    (n : ℕ) × (any (λ e. gives j k e && (length e.1 == n)) v ≡ true)
    × (any (λ e. any (λ i. i == j) e.1 && ltb (length e.1) n) v ≡ false)

abbrev pub AllFewest : ℕ → Offers → List Cell → Type 0
AllFewest j v [] = Unit
AllFewest j v (cell ∷ cells) = Fewest j v cell × AllFewest (suc j) v cells

least : (a : ℕ × List ℕ) (v : Offers) → IsOrdered (a ∷ v) → All (λ e. length a.1 ≤ length e.1) v
unfolding my_comp
least a [] h = tt
least a (b ∷ v) (h, hs) =
    let first : length a.1 ≤ length b.1 = ground (arith, h) in
    (first, All-map (λ e l. omega (arith, first, l)) v (least b v hs))

none_below :
    (j n : ℕ) (v : Offers)
    → All (λ e. n ≤ length e.1) v
    → any (λ e. any (λ i. i == j) e.1 && ltb (length e.1) n) v ≡ false
none_below j n [] h = refl
none_below j n (e ∷ v) (l, ls) =
    let not_less : ltb (length e.1) n ≡ false = ground (arith, l) in
    elim (Bool-cases (any (λ i. i == j) e.1)) [
      | inl b ↦ rw (b, not_less) (none_below j n v ls)
      | inr b ↦ rw b (none_below j n v ls)
    ]

IsOrdered-tail : (a : ℕ × List ℕ) (v : Offers) → IsOrdered (a ∷ v) → IsOrdered v
IsOrdered-tail a [] o = tt
IsOrdered-tail a (b ∷ v) o = o.1

either_true : (b : Bool) → (if b then true else true) ≡ true
either_true true = refl
either_true false = refl

holder-Fewest : (j k : ℕ) (v : Offers) → IsOrdered v → holder j v ≡ some k → Fewest j v (some k)
holder-Fewest j k [] o h = let bad : none ≡ some k = h in cc
holder-Fewest j k ((seeder, has) ∷ v) o h = elim (Bool-cases (any (λ i. i == j) has)) [
  | inl b ↦
      let found : some seeder ≡ some k = rw b at h in
      let same : seeder ≡ k = cc in
      let this : (seeder == k) ≡ true = ground (arith, same) in
      let equal : (length has == length has) ≡ true = ground arith in
      let not_less : ltb (length has) (length has) ≡ false = ground arith in
      (
        length has,
        rw (this, b, equal) refl,
        rw (b, not_less) (none_below j (length has) v (least (seeder, has) v o)),
      )
  | inr b ↦
      let (n, there, below) = holder-Fewest j k v (IsOrdered-tail (seeder, has) v o) (rw b at h) in
      (
        n,
        ap (λ r. if gives j k (seeder, has) && (length has == n) then true else r) there
            ∙ either_true _,
        rw b below,
      )
]

holder-AllFewest :
    (j n : ℕ) (v w : Offers)
    → IsOrdered w
    → ((p : ℕ × List ℕ → Bool) → any p w ≡ any p v)
    → AllFewest j v (holders j n w)
holder-AllFewest j zero v w o same = tt
holder-AllFewest j (suc n) v w o same =
    (first (Option-cases (holder j w)), holder-AllFewest (suc j) n v w o same)
  where
    first : (holder j w ≡ none) ⊎ ((k : ℕ) × (holder j w ≡ some k)) → Fewest j v (holder j w)
    first (inl e) = rw e (sym (same (λ e. any (λ i. i == j) e.1)) ∙ holder-none j w e)
    first (inr (k, e)) =
        let (n', there, below) = holder-Fewest j k w o e in
        rw e (
          n',
          sym (same (λ e. gives j k e && (length e.1 == n'))) ∙ there,
          sym (same (λ e. any (λ i. i == j) e.1 && ltb (length e.1) n')) ∙ below,
        )

-- For seeders that name pieces in range, and a sort that keeps the elements and leaves them in the order of
-- `my_comp`, `populate` and `Decide` stay inside of their vectors and choose for every piece a seeder that
-- has it and, among those that have it, names the fewest pieces; -1 stands only for a piece that no
-- seeder has.
pub decide-AllFewest :
    (nchunks : ℕ) (v : Offers) (sort : Offers → Offers)
    → All (InRange nchunks) v
    → Sorts sort
    → (m : List (List Cell)) × (cells : List Cell) × (populate (blank_rows nchunks v) (sort v)
        ≡ some m)
      × (decide m (blank nchunks) ≡ some cells)
      × (length cells ≡ nchunks)
      × AllFewest 1 v cells
decide-AllFewest nchunks v sort h ((keeps, stays), orders) =
    let (m, populated, decided) =
      decide-populate nchunks (sort v) (InRange-sort sort nchunks v (keeps v, λ p. stays p v) h) in
    (
      m,
      holders 1 nchunks (sort v),
      ap (λ r. populate r (sort v)) (same_rows nchunks v (sort v) (sym (keeps v))) ∙ populated,
      decided,
      length-holders 1 nchunks (sort v),
      holder-AllFewest 1 nchunks v (sort v) (orders v) (λ p. stays p v),
    )
