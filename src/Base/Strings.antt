-- ===== src/Base/Strings.antt =====
-- What the program uses of Go's `strings` package, over texts of Unicode code points.
pub mod Order
pub mod Parts
use Prim.Native.Nat.{ℕ, ◌+◌}
use Prim.Native.Char.{Char, code}
use Prim.Native.String.{String, [], ◌∷◌}
use mathlib.Core.Bool.{Bool, true, false, ◌&&◌, ◌||◌}
use mathlib.Core.Option.{Option, none, some}
use mathlib.Core.List.{List, [], ◌∷◌}
use kontxt.Base.Control.{Eq_nat, Eq_string, ◌==◌, leb, ltb, if◌then◌else◌, is_some}

-- unicode.IsSpace
unfoldable pub is_space : Char → Bool
is_space c =
    let n = code c in
    (leb 9 n && leb n 13)
    || n == 32
    || n == 0x85
    || n == 0xa0
    || n == 0x1680
    || (leb 0x2000 n && leb n 0x200a)
    || n == 0x2028
    || n == 0x2029
    || n == 0x202f
    || n == 0x205f
    || n == 0x3000

-- A word in front of others; an empty one is none.
abbrev pub push_word : String → List String → List String
push_word [] ws = ws
push_word (c ∷ w) ws = (c ∷ w) ∷ ws

-- The text up to the first space, and the words after it.
unfoldable pub span_words : String → String × List String
span_words [] = ([], [])
span_words (c ∷ s) =
    let (w, ws) = span_words s in if is_space c then ([], push_word w ws) else (c ∷ w, ws)

-- strings.Fields
unfoldable pub fields : String → List String
unfolding span_words is_space
fields s = let (w, ws) = span_words s in push_word w ws

-- The text up to the first separator, and the parts after it.
unfoldable pub span_parts : ℕ → String → String × List String
span_parts sep [] = ([], [])
span_parts sep (c ∷ s) =
    let (w, ws) = span_parts sep s in if code c == sep then ([], w ∷ ws) else (c ∷ w, ws)

-- strings.Split by a separator of one character
unfoldable pub split : ℕ → String → List String
unfolding span_parts
split sep s = let (w, ws) = span_parts sep s in w ∷ ws

-- `s[:i]` and `s[i+1:]` at the first separator, `i := strings.Index(s, sep)`
unfoldable pub cut : ℕ → String → Option (String × String)
cut sep [] = none
cut sep (c ∷ s) =
    let rest = cut sep s in
    if code c == sep
    then some ([], s)
    else elim rest [ none ↦ none | some (a, b) ↦ some (c ∷ a, b) ]

-- `s[:i]` at the last separator, `i := strings.LastIndex(s, sep)`
unfoldable pub before_last : ℕ → String → Option String
before_last sep [] = none
before_last sep (c ∷ s) =
    let rest = before_last sep s in
    elim rest [ some a ↦ some (c ∷ a) | none ↦ if code c == sep then some [] else none ]

-- What is left of a text behind a prefix.
unfoldable pub strip_prefix : String → String → Option String
strip_prefix s [] = some s
strip_prefix [] (_ ∷ _) = none
strip_prefix (c ∷ s) (d ∷ p) = if code c == code d then strip_prefix s p else none

-- strings.HasPrefix
unfoldable pub has_prefix : String → String → Bool
unfolding strip_prefix
has_prefix s p = is_some (strip_prefix s p)

-- strings.TrimPrefix
unfoldable pub trim_prefix : String → String → String
unfolding strip_prefix
trim_prefix s p = elim (strip_prefix s p) [ none ↦ s | some rest ↦ rest ]

-- strings.Contains of one character
unfoldable pub contains_char : String → ℕ → Bool
contains_char [] n = false
contains_char (c ∷ s) n = code c == n || contains_char s n

-- Whether the last character is this one.
unfoldable pub ends_with : String → ℕ → Bool
ends_with [] n = false
ends_with (c ∷ []) n = code c == n
ends_with (c ∷ d ∷ s) n = ends_with (d ∷ s) n

-- strings.TrimSuffix by one character
unfoldable pub trim_suffix : ℕ → String → String
trim_suffix n [] = []
trim_suffix n (c ∷ []) = if code c == n then [] else c ∷ []
trim_suffix n (c ∷ d ∷ s) = c ∷ trim_suffix n (d ∷ s)

-- Whether the first character is this one.
abbrev pub starts_with : String → ℕ → Bool
starts_with [] n = false
starts_with (c ∷ s) n = code c == n

-- strings.Trim with a cutset of one character
unfoldable pub trim_left : ℕ → String → String
trim_left n [] = []
trim_left n (c ∷ s) = let rest = trim_left n s in if code c == n then rest else c ∷ s

unfoldable pub trim_right : ℕ → String → String
trim_right n [] = []
trim_right n (c ∷ s) =
    let rest = trim_right n s in if rest == "" && code c == n then [] else c ∷ rest

unfoldable pub trim : ℕ → String → String
unfolding trim_left trim_right
trim n s = trim_right n (trim_left n s)

-- The letter that stands in the second text where the first has this one.
abbrev pub translate : String → String → Char → Char
translate (u ∷ us) (l ∷ ls) c = let rest = translate us ls c in if code u == code c then l else rest
translate _ _ c = c

-- strings.ToLower of ASCII texts, such as header names; other letters stay.
unfoldable pub to_lower : String → String
to_lower [] = []
to_lower (c ∷ s) =
    translate "ABCDEFGHIJKLMNOPQRSTUVWXYZ" "abcdefghijklmnopqrstuvwxyz" c ∷ to_lower s

-- The text up to the first separator: `if idx := strings.Index(s, sep); idx >= 0 { s = s[:idx] }`
unfoldable pub up_to : ℕ → String → String
up_to sep [] = []
up_to sep (c ∷ s) = let rest = up_to sep s in if code c == sep then [] else c ∷ rest

-- Go's `<` on strings: by bytes, which for UTF-8 is by code points.
unfoldable pub text_lt : String → String → Bool
text_lt _ [] = false
text_lt [] (_ ∷ _) = true
text_lt (c ∷ s) (d ∷ t) =
    let rest = text_lt s t in if code c == code d then rest else ltb (code c) (code d)

-- The class of a code point under simple folding: the letters that fold to ASCII.
abbrev pub fold_code : ℕ → ℕ
fold_code n =
    if leb 65 n && leb n 90
    then n + 32
    else if n == 0x212a
    then 107
    else if n == 0x17f
    then 115
    else n

-- strings.EqualFold
unfoldable pub equal_fold : String → String → Bool
equal_fold [] [] = true
equal_fold [] (_ ∷ _) = false
equal_fold (_ ∷ _) [] = false
equal_fold (c ∷ s) (d ∷ t) = fold_code (code c) == fold_code (code d) && equal_fold s t
