-- ===== src/Peer/Download/Writes.antt =====
-- The single `fwrite`s of a download: where they go, and what they bring when the bytes are those of
-- the file.
use torrent_based_file_shari.Common.{
  ℕ, ◌+◌, ◌-◌, ◌≤◌, ◌<◌, ◌≡◌, ◌≢◌, refl, sym, ap, ◌∙◌, subst, ◌⊎◌, inl, inr, true, List, [], ◌∷◌,
  ◌++◌, append_assoc, arith, ltb, if◌then◌else◌, length, length-append, length-drop, take, drop,
  join, All, Text, Bool-cases, take-append_self, drop-append_self,
}
use torrent_based_file_shari.Peer.Pieces.Checks.{drop-drop}
use torrent_based_file_shari.Peer.Files.{
  fwrite_at, within, fwrite_at_nil, fwrite_at_long, fwrite_at-append,
}
use torrent_based_file_shari.Peer.Download.{recv_loop}

-- A place and the bytes that are written there.
abbrev pub Write : Type 0
Write = ℕ × Text

-- The `fwrite`s of one call of `DownloadKernel`, from the place `p` on.
unfoldable pub writes_of : ℕ → ℕ → List Text → List Write
writes_of p file_size [] = []
writes_of p file_size ([] ∷ ps) = []
writes_of p file_size ((c ∷ cs) ∷ ps) =
    if ltb 0 file_size
    then (p, c ∷ cs) ∷ writes_of (p + length (c ∷ cs)) (file_size - length (c ∷ cs)) ps
    else []

unfoldable pub all_writes : List Write → Text → Text
all_writes [] file = file
all_writes ((p, text) ∷ ws) file = all_writes ws (fwrite_at p text file)

abbrev pub Occurs : Write → List Write → Type 0
Occurs w [] = ⊥
Occurs w (v ∷ vs) = (w ≡ v) ⊎ Occurs w vs

pub All-Occurs :
    (P : Write → Type 0) (ws : List Write) → ((w : Write) → Occurs w ws → P w) → All P ws
All-Occurs P [] h = tt
All-Occurs P (w ∷ ws) h = (h w (inl refl), All-Occurs P ws (λ v o. h v (inr o)))

pub Occurs-All : (P : Write → Type 0) (ws : List Write) (w : Write) → All P ws → Occurs w ws → P w
Occurs-All P [] w h o = absurd o
Occurs-All P (v ∷ vs) w h (inl e) = subst P (sym e) h.0
Occurs-All P (v ∷ vs) w h (inr o) = Occurs-All P vs w h.1 o

-- No piece that `recv` gave is empty.
abbrev pub NonEmpty : List Text → Type 0
NonEmpty = All (λ p. p ≢ [])

-- The bytes of a write are the file's at its place.
abbrev pub Honest : Text → Write → Type 0
Honest source (p, text) = (p ≤ length source) × (text ≡ take (length text) (drop p source))

pub writes_of-Honest :
    (source : Text) (p file_size : ℕ) (ps : List Text) (rest : Text)
    → p ≤ length source
    → drop p source ≡ join ps ++ rest
    → All (Honest source) (writes_of p file_size ps)
unfolding writes_of
writes_of-Honest source p file_size [] rest l e = tt
writes_of-Honest source p file_size ([] ∷ ps) rest l e = tt
writes_of-Honest source p file_size ((c ∷ cs) ∷ ps) rest l e = elim (Bool-cases (ltb 0 file_size)) [
  | inr full ↦ rw full tt
  | inl room ↦
      let t = c ∷ cs in
      let e' : drop p source ≡ t ++ (join ps ++ rest) = e ∙ append_assoc t (join ps) rest in
      rw room (
        (l, sym (ap (take (length t)) e' ∙ take-append_self t (join ps ++ rest))),
        writes_of-Honest source (p + length t) (file_size - length t) ps rest
            (omega (arith, ap length e', length-append t (join ps ++ rest), length-drop p source))
            (sym (drop-drop (length t) p source)
              ∙ ap (drop (length t)) e'
              ∙ drop-append_self t (join ps ++ rest)),
      )
]

-- Each byte that fits is in a write.
pub writes_of-covers :
    (p file_size : ℕ) (ps : List Text) (k : ℕ)
    → NonEmpty ps
    → p ≤ k
    → k < p + file_size
    → k < p + length (join ps)
    → (w : Write) × Occurs w (writes_of p file_size ps) × (within w.0 (length w.1) k ≡ true)
unfolding writes_of
writes_of-covers p file_size [] k h l f j = absurd (omega arith)
writes_of-covers p file_size ([] ∷ ps) k h l f j = absurd (h.0 refl)
writes_of-covers p file_size ((c ∷ cs) ∷ ps) k h l f j =
    let t = c ∷ cs in
    let room : ltb 0 file_size ≡ true = ground arith in
    rw room (elim (Bool-cases (ltb k (p + length t))) [
      | inl here ↦ ((p, t), inl refl, ground arith)
      | inr later ↦
          let (w, o, i) =
            writes_of-covers (p + length t) (file_size - length t) ps k h.1 (ground arith)
              (ground arith) (ground (arith, length-append t (join ps))) in
          (w, inr o, i)
    ])

-- The `fwrite`s of one call, one after the other and with nothing between them, are the one write of
-- `receive`.
pub all_writes-writes_of :
    (p file_size : ℕ) (ps : List Text) (file : Text)
    → p ≤ length file
    → all_writes (writes_of p file_size ps) file ≡ fwrite_at p (recv_loop file_size ps) file
unfolding all_writes writes_of recv_loop
all_writes-writes_of p file_size [] file l = sym (fwrite_at_nil p file)
all_writes-writes_of p file_size ([] ∷ ps) file l = sym (fwrite_at_nil p file)
all_writes-writes_of p file_size ((c ∷ cs) ∷ ps) file l = elim (Bool-cases (ltb 0 file_size)) [
  | inr full ↦ rw full (sym (fwrite_at_nil p file))
  | inl room ↦
      let t = c ∷ cs in
      rw room (
        all_writes-writes_of (p + length t) (file_size - length t) ps (fwrite_at p t file)
          (fwrite_at_long p t file l)
        ∙ fwrite_at-append p t (recv_loop (file_size - length t) ps) file l)
]
