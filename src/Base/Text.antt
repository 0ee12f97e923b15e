-- ===== src/Base/Text.antt =====
-- Go strings as the list of their code points (the texts that the program handles are valid UTF-8, whose
-- bytewise order is the order of code points), with the functions of `strings` and `strconv`
-- that the program calls.
use Prim.Native.Char.{code}
use Prim.Native.String.{String}
use Prim.Native.Nat.{ℕ, ◌+◌, ◌-◌, ◌*◌}
use mathlib.Core.Bool.{Bool, true, false, ◌&&◌, ◌||◌}
use mathlib.Core.Option.{Option, none, some}
use mathlib.Core.List.{List, [], ◌∷◌, ◌++◌, reverse}
use registry_ui.Base.Tests.{ltb, leb, ◌==◌, if◌then◌else◌}
use registry_ui.Base.Int.{ℤ, pos, negsuc, two63}

abbrev pub Text : Type 0
Text = List ℕ

-- The code points of a literal.
abbrev pub codes : String → Text
codes String.[] = []
codes (String.◌∷◌ c s) = code c ∷ codes s

unfoldable pub text_eq : Text → Text → Bool
text_eq [] [] = true
text_eq [] (_ ∷ _) = false
text_eq (_ ∷ _) [] = false
text_eq (a ∷ s) (b ∷ t) = a == b && text_eq s t

-- Go's `<` on strings.
unfoldable pub text_lt : Text → Text → Bool
text_lt [] [] = false
text_lt [] (_ ∷ _) = true
text_lt (_ ∷ _) [] = false
text_lt (a ∷ s) (b ∷ t) = ltb a b || (a == b && text_lt s t)

abbrev pub is_empty : Text → Bool
is_empty [] = true
is_empty (_ ∷ _) = false

-- `strings.HasPrefix(s, prefix)`, the text first.
unfoldable pub has_prefix : Text → Text → Bool
has_prefix s [] = true
has_prefix [] (_ ∷ _) = false
has_prefix (a ∷ s) (b ∷ t) = a == b && has_prefix s t

-- `strings.Contains(s, sep)` for a separator of one character.
unfoldable pub contains : Text → ℕ → Bool
contains [] sep = false
contains (c ∷ s) sep = c == sep || contains s sep

-- The text before the first separator, and the rest behind each separator.
unfoldable pub split_onto : ℕ → Text → Text → List Text
split_onto sep cur [] = cur ∷ []
split_onto sep cur (c ∷ s) = elim (c == sep) [
  | true ↦ cur ∷ split_onto sep [] s
  | false ↦ split_onto sep (cur ++ c ∷ []) s
]

-- `strings.Split(s, sep)` for a separator of one character.
unfoldable pub split : Text → ℕ → List Text
unfolding split_onto
split s sep = split_onto sep [] s

-- `strings.Join(parts, sep)`.
unfoldable pub join : List Text → Text → Text
join [] sep = []
join (p ∷ []) sep = p
join (p ∷ q ∷ ps) sep = p ++ sep ++ join (q ∷ ps) sep

-- `unicode.IsSpace`.
abbrev is_space : ℕ → Bool
is_space c =
    (leb 9 c && leb c 13)
    || c == 32
    || c == 0x85
    || c == 0xa0
    || c == 0x1680
    || (leb 0x2000 c && leb c 0x200a)
    || c == 0x2028
    || c == 0x2029
    || c == 0x202f
    || c == 0x205f
    || c == 0x3000

drop_spaces : Text → Text
drop_spaces [] = []
drop_spaces (c ∷ s) = if is_space c then drop_spaces s else c ∷ s

-- `strings.TrimSpace`.
unfoldable pub trim_space : Text → Text
unfolding drop_spaces
trim_space s = reverse (drop_spaces (reverse (drop_spaces s)))

-- `cur` is the field that is being read; empty fields are dropped.
close_field : Text → List Text → List Text
close_field [] rest = rest
close_field (c ∷ cur) rest = (c ∷ cur) ∷ rest

fields_onto : Text → Text → List Text
fields_onto cur [] = close_field cur []
fields_onto cur (c ∷ s) = elim (is_space c) [
  | true ↦ close_field cur (fields_onto [] s)
  | false ↦ fields_onto (cur ++ c ∷ []) s
]

-- `strings.Fields`.
unfoldable pub fields : Text → List Text
unfolding fields_onto close_field
fields s = fields_onto [] s

-- The decimal digits behind `n`; the value is not bounded.
digits : Text → ℕ → Option ℕ
digits [] n = some n
digits (c ∷ s) n = if leb b'0' c && leb c b'9' then digits s (n * 10 + (c - b'0')) else none

unsigned : Text → Option ℕ
unfolding digits
unsigned [] = none
unsigned (c ∷ s) = digits (c ∷ s) 0

-- The magnitude of an int64: `int64` holds -2 ^ 63 up to 2 ^ 63 - 1.
signed : Bool → Option ℕ → Option ℤ
signed negative none = none
signed false (some n) = if ltb n two63 then some (pos n) else none
signed true (some n) =
    if n == 0 then some (pos 0) else if leb n two63 then some (negsuc (n - 1)) else none

-- `strconv.Atoi`; an error, of syntax or of range, is `none`.
unfoldable pub atoi : Text → Option ℤ
unfolding unsigned signed
atoi [] = none
atoi (c ∷ s) =
    if c == b'-'
    then signed true (unsigned s)
    else if c == b'+'
    then signed false (unsigned s)
    else signed false (unsigned (c ∷ s))
