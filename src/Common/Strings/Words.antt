-- ===== src/Common/Strings/Words.antt =====
-- What `stream >> word` reads from words that were put together with blanks.
use torrent_based_file_shari.Common.Base.{
  ◌≡◌, ◌≢◌, refl, sym, ◌∙◌, ap, false, List, [], ◌∷◌, ◌++◌, append_assoc, append-nil,
}
use torrent_based_file_shari.Common.Lists.{All}
use torrent_based_file_shari.Common.Strings.{Text, is_space, push_word, words_from, words}

-- A word: some characters, none of them white space.
abbrev pub NoSpace : Text → Type 0
NoSpace = All (λ c. is_space c ≡ false)

abbrev pub IsWord : Text → Type 0
IsWord w = (w ≢ []) × NoSpace w

words_from-NoSpace : (temp w : Text) → NoSpace w → words_from temp w ≡ push_word (temp ++ w) []
unfolding words_from
words_from-NoSpace temp [] h = ap (λ t. push_word t []) (sym (append-nil temp))
words_from-NoSpace temp (c ∷ w) h =
    rw (h.0, words_from)
      (words_from-NoSpace (temp ++ c ∷ []) w h.1
        ∙ ap (λ t. push_word t []) (append_assoc temp (c ∷ []) w))

words_from-blank :
    (temp w rest : Text)
    → NoSpace w
    → words_from temp (w ++ 32 ∷ rest) ≡ push_word (temp ++ w) (words_from [] rest)
unfolding words_from
words_from-blank temp [] rest h = ap (λ t. push_word t (words_from [] rest)) (sym (append-nil temp))
words_from-blank temp (c ∷ w) rest h =
    rw (h.0, words_from)
      (words_from-blank (temp ++ c ∷ []) w rest h.1
        ∙ ap (λ t. push_word t (words_from [] rest)) (append_assoc temp (c ∷ []) w))

push_word_lem : (w : Text) (ws : List Text) → w ≢ [] → push_word w ws ≡ w ∷ ws
push_word_lem [] ws h = absurd (h refl)
push_word_lem (c ∷ w) ws h = refl

-- The last word of a line, and a word before others.
pub words-one : (w : Text) → IsWord w → words w ≡ w ∷ []
unfolding words
words-one w h = words_from-NoSpace [] w h.1 ∙ push_word_lem w [] h.0

pub words-more : (w rest : Text) → IsWord w → words (w ++ 32 ∷ rest) ≡ w ∷ words rest
unfolding words
words-more w rest h = words_from-blank [] w rest h.1 ∙ push_word_lem w _ h.0
