-- ===== src/Text.antt =====
-- The functions of Rust's `str` that the service uses, on native texts: `as_bytes`, `split`,
-- `split_ascii_whitespace`, `trim_end_matches('/')`, `trim().is_empty()`, `contains(char)`,
-- `strip_prefix` and `parse` of an unsigned number.
pub mod Words
use Prim.Native.Char.{Char, code}
use Prim.Native.String.{String, [], ◌∷◌, ◌++◌, len, slice}
use text.Mathlib.Text.{◌==◌ as str_eq, starts_with}
use mathlib.Core.List
use vcissuer.Prelude.{
  ℕ, ◌+◌, ◌-◌, ◌*◌, ◌/◌, ◌%◌, Bool, true, false, ◌&&◌, ◌||◌, Option, none, some, List, ltb, leb,
  ◌==◌, if◌then◌else◌,
}

-- The UTF-8 of one character.
abbrev utf8 : ℕ → List ℕ
utf8 c =
    if ltb c 0x80
    then List.◌∷◌ c List.[]
    else if ltb c 0x800
    then List.◌∷◌ (0xc0 + c / 64) (List.◌∷◌ (0x80 + c % 64) List.[])
    else if ltb c 0x10000
    then List.◌∷◌ (0xe0 + c / 4096)
        (List.◌∷◌ (0x80 + c / 64 % 64) (List.◌∷◌ (0x80 + c % 64) List.[]))
    else List.◌∷◌ (0xf0 + c / 262144) (
        List.◌∷◌ (0x80 + c / 4096 % 64)
          (List.◌∷◌ (0x80 + c / 64 % 64) (List.◌∷◌ (0x80 + c % 64) List.[])))

unfoldable pub as_bytes : String → List ℕ
as_bytes [] = List.[]
as_bytes (c ∷ s) = List.◌++◌ (utf8 (code c)) (as_bytes s)

unfoldable pub is_empty : String → Bool
is_empty s = str_eq s ""

abbrev pub push : String → Char → String
push s c = s ++ (c ∷ [])

-- `split` at a character: one piece more than there are separators.
split_from : ℕ → String → String → List String
split_from at piece [] = List.◌∷◌ piece List.[]
split_from at piece (c ∷ s) =
    let closed = split_from at "" s in
    let longer = split_from at (push piece c) s in
    if code c == at then List.◌∷◌ piece closed else longer

unfoldable pub split : ℕ → String → List String
unfolding split_from
split at s = split_from at "" s

abbrev pub is_ascii_whitespace : ℕ → Bool
is_ascii_whitespace c = c == 32 || c == 9 || c == 10 || c == 12 || c == 13

-- A word ends at white space or at the end of the text, and is not empty.
abbrev end_word : String → List String → List String
end_word word words = if str_eq word "" then words else List.◌∷◌ word words

pub words_from : String → String → List String
words_from word [] = end_word word List.[]
words_from word (c ∷ s) =
    let next = words_from "" s in
    let longer = words_from (push word c) s in
    if is_ascii_whitespace (code c) then end_word word next else longer

unfoldable pub split_ascii_whitespace : String → List String
unfolding words_from
split_ascii_whitespace s = words_from "" s

-- `trim_end_matches('/')`: a slash is dropped where only slashes follow.
unfoldable pub trim_end_slashes : String → String
trim_end_slashes [] = []
trim_end_slashes (c ∷ s) =
    let rest = trim_end_slashes s in if code c == b'/' && str_eq rest "" then "" else c ∷ rest

-- The characters that `char::is_whitespace` accepts.
abbrev is_whitespace : ℕ → Bool
is_whitespace c =
    leb 9 c && leb c 13
    || c == 32
    || c == 0x85
    || c == 0xa0
    || c == 0x1680
    || leb 0x2000 c && leb c 0x200a
    || c == 0x2028
    || c == 0x2029
    || c == 0x202f
    || c == 0x205f
    || c == 0x3000

-- `trim().is_empty()`.
unfoldable pub is_blank : String → Bool
is_blank [] = true
is_blank (c ∷ s) = is_whitespace (code c) && is_blank s

unfoldable pub has_char : ℕ → String → Bool
has_char at [] = false
has_char at (c ∷ s) = code c == at || has_char at s

unfoldable pub strip_prefix : String → String → Option String
strip_prefix prefix s = if starts_with s prefix then some (slice s (len prefix) (len s)) else none

-- Digits to the end of the text, no more than `most`.
digits_from : ℕ → ℕ → String → Option ℕ
digits_from most acc [] = some acc
digits_from most acc (c ∷ s) =
    let next = acc * 10 + (code c - b'0') in
    let rest = digits_from most next s in
    if leb b'0' (code c) && leb (code c) b'9' && leb next most then rest else none

signed_digits : ℕ → String → Option ℕ
unfolding digits_from
signed_digits most [] = none
signed_digits most (c ∷ []) = digits_from most 0 (c ∷ [])
signed_digits most (c ∷ d ∷ s) =
    if code c == b'+' then digits_from most 0 (d ∷ s) else digits_from most 0 (c ∷ d ∷ s)

-- `parse` of a text with no minus sign, into a type whose greatest value is `most`.
unfoldable pub parse_number : ℕ → String → Option ℕ
unfolding signed_digits
parse_number most s = signed_digits most s
