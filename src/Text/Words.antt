-- ===== src/Text/Words.antt =====
-- What `split_ascii_whitespace` can return.
use Prim.Native.Char.{Char, code}
use Prim.Native.String.{String, [], ◌∷◌}
use text.Mathlib.TextEquality.{eq_iff}
use text.Mathlib.TextLemmas.{nil-append, cons-append}
use vcissuer.Prelude.{◌≡◌, ◌≢◌, false, All, arith}
use vcissuer.Text.{push, is_ascii_whitespace, words_from, split_ascii_whitespace}

-- No white space in the text.
abbrev pub NoSpace : String → Type 0
NoSpace [] = Unit
NoSpace (c ∷ s) = (is_ascii_whitespace (code c) ≡ false) × NoSpace s

NoSpace-push :
    (s : String) (c : Char) → NoSpace s → is_ascii_whitespace (code c) ≡ false → NoSpace (push s c)
NoSpace-push [] c h p = rw nil-append (p, tt)
NoSpace-push (d ∷ s) c h p = rw cons-append (h.0, NoSpace-push s c h.1 p)

abbrev pub IsWord : String → Type 0
IsWord w = (w ≢ "") × NoSpace w

words_from-IsWord : (word s : String) → NoSpace word → All IsWord (words_from word s)
unfolding words_from
words_from-IsWord word [] h = ground (arith, eq_iff word "")
words_from-IsWord word (c ∷ s) h = ground (
  arith,
  eq_iff word "",
  words_from-IsWord "" s tt,
  words_from-IsWord (push word c) s,
  NoSpace-push word c h,
)

-- Each word is not empty and holds no white space.
pub split_ascii_whitespace-IsWord : (s : String) → All IsWord (split_ascii_whitespace s)
unfolding split_ascii_whitespace
split_ascii_whitespace-IsWord s = words_from-IsWord "" s tt
