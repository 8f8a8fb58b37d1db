-- ===== src/Stdlib/Joined.antt =====
-- bimbleos_parse_command gives back the words that are joined by spaces.
use bimble_os.Common.{
  ℕ, zero, suc, ◌≤◌, ◌<◌, ◌≡◌, ◌≢◌, refl, sym, ap, ◌∙◌, true, false, Bool, none, List, [], ◌∷◌,
  ◌++◌, arith, length, ◌==◌, map, take,
}
use mathlib.Core.List.{append_assoc, append-nil}
use mathlib.Core.Path.{ap₂}
use bimble_os.Stdlib.{copied, bimbleos_parse_command}
use bimble_os.Stdlib.Commands.{words, end_word, bimbleos_parse_command_lem}

abbrev pub joined : List (List ℕ) → List ℕ
joined [] = []
joined (w ∷ []) = w
joined (w ∷ w' ∷ ws) = w ++ (b' ' ∷ joined (w' ∷ ws))

abbrev NoSpace : List ℕ → Type 0
NoSpace [] = Unit
NoSpace (c ∷ w) = (c ≢ b' ') × NoSpace w

-- Words of 1 to 511 characters without spaces.
unfoldable pub AreWords : List (List ℕ) → Type 0
AreWords [] = Unit
AreWords (w ∷ ws) = (0 < length w) × (length w < 512) × NoSpace w × AreWords ws

words-append : (w begun s : List ℕ) → NoSpace w → words begun (w ++ s) ≡ words (begun ++ w) s
unfolding words
words-append [] begun s h = rw (append-nil begun) refl
words-append (c ∷ w) begun s h =
    let other : (c == b' ') ≡ false = let n = h.0 in ground arith in
    rw other (
      words-append w (begun ++ (c ∷ [])) s h.1
      ∙ ap (λ b. words b s) (append_assoc begun (c ∷ []) w))

end_word-some : (w : List ℕ) (ws : List (List ℕ)) → 0 < length w → end_word w ws ≡ w ∷ ws
end_word-some [] ws h = absurd (omega arith)
end_word-some (c ∷ w) ws h = refl

words-joined : (ws : List (List ℕ)) → AreWords ws → words [] (joined ws) ≡ ws
unfolding words AreWords
words-joined [] h = refl
words-joined (w ∷ []) h =
    ap (words []) (sym (append-nil w)) ∙ words-append w [] [] h.2 ∙ end_word-some w [] h.0
words-joined (w ∷ w' ∷ ws) h =
    words-append w [] (b' ' ∷ joined (w' ∷ ws)) h.2
    ∙ end_word-some w (words [] (joined (w' ∷ ws))) h.0
    ∙ ap (λ l. w ∷ l) (words-joined (w' ∷ ws) h.3)

take_all : (n : ℕ) (s : List ℕ) → length s ≤ n → take n s ≡ s
take_all zero [] h = refl
take_all zero (c ∷ s) h = absurd (omega arith)
take_all (suc n) [] h = refl
take_all (suc n) (c ∷ s) h = ap (λ l. c ∷ l) (take_all n s (omega arith))

map-copied : (ws : List (List ℕ)) → AreWords ws → map (copied 512) ws ≡ ws
unfolding AreWords
map-copied [] h = refl
map-copied (w ∷ ws) h = let size = h.1 in ap₂ ◌∷◌ (take_all 511 w (omega arith)) (map-copied ws h.3)

-- Words of 1 to 511 characters without spaces, joined by single spaces to a command of at most 1024
-- characters, are what `bimbleos_parse_command` gives of it, where `strtok` has no string left from
-- before, every allocation succeeds and the size is below 1025.
pub bimbleos_parse_command-joined :
    (succeeds : ℕ → Bool) (ws : List (List ℕ)) (max : ℕ)
    → ((n : ℕ) → succeeds n ≡ true)
    → AreWords ws
    → length (joined ws) ≤ 1024
    → max < 1025
    → bimbleos_parse_command succeeds (joined ws) max none ≡ (ws, none)
bimbleos_parse_command-joined succeeds ws max allocated h fits small =
    bimbleos_parse_command_lem succeeds allocated (joined ws) max small
    ∙ ap (λ s. (map (copied 512) (words [] s), none)) (take_all 1024 (joined ws) fits)
    ∙ ap (λ l. (map (copied 512) l, none)) (words-joined ws h)
    ∙ ap (λ l. (l, none)) (map-copied ws h)
