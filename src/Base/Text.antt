-- ===== src/Base/Text.antt =====
-- The functions of Rust's `str` that the program calls. `len`, `count`, `find`, `starts_with` and
-- `==` are the native ones; `to_uppercase` and `to_lowercase` follow the Unicode tables and are
-- parameters of what uses them.
use Prim.Native.Nat.{ℕ, zero, suc, ◌+◌, ◌-◌, ◌*◌, ◌/◌, ◌%◌}
use Prim.Native.Char.{Char, code}
use Prim.Native.String.{String, ◌++◌, ◌∷◌, []}
use Prim.Native.String
use mathlib.Core.Bool.{Bool, true, false, ◌&&◌, ◌||◌}
use mathlib.Core.List.{List}
use mathlib.Core.Option.{Option, none, some}
use text.Mathlib.Text.{find?, is_lt}
use bc_server_rust.Base.Tests.{leb, ltb, nat_beq, if◌then◌else◌}
use bc_server_rust.Base.Int.{ℤ, pos, negsuc, fits_i64}

abbrev pub is_empty_text : String → Bool
is_empty_text [] = true
is_empty_text (c ∷ s) = false

-- `a.contains(b)`.
abbrev pub contains_text : String → String → Bool
contains_text s t = elim (find? s t) [ none ↦ false | some i ↦ true ]

-- `a < b`, by the bytes.
abbrev pub text_lt : String → String → Bool
text_lt s t = is_lt (String.compare s t)

-- `char::is_whitespace`: the Unicode property White_Space.
abbrev pub is_whitespace : ℕ → Bool
is_whitespace c =
    (leb 0x9 c && leb c 0xd)
    || nat_beq c 0x20
    || nat_beq c 0x85
    || nat_beq c 0xa0
    || nat_beq c 0x1680
    || (leb 0x2000 c && leb c 0x200a)
    || nat_beq c 0x2028
    || nat_beq c 0x2029
    || nat_beq c 0x202f
    || nat_beq c 0x205f
    || nat_beq c 0x3000

unfoldable pub trim_start : String → String
trim_start [] = []
trim_start (c ∷ s) = let rest = trim_start s in if is_whitespace (code c) then rest else c ∷ s

unfoldable pub trim_end : String → String
trim_end [] = []
trim_end (c ∷ s) =
    let rest = trim_end s in if is_whitespace (code c) && is_empty_text rest then [] else c ∷ rest

unfoldable pub trim : String → String
unfolding trim_start trim_end
trim s = trim_end (trim_start s)

-- `s.trim_matches(c)`.
abbrev trim_start_matches : ℕ → String → String
trim_start_matches d [] = []
trim_start_matches d (c ∷ s) =
    let rest = trim_start_matches d s in if nat_beq (code c) d then rest else c ∷ s

abbrev trim_end_matches : ℕ → String → String
trim_end_matches d [] = []
trim_end_matches d (c ∷ s) =
    let rest = trim_end_matches d s in
    if nat_beq (code c) d && is_empty_text rest then [] else c ∷ rest

abbrev pub trim_matches : ℕ → String → String
trim_matches d s = trim_end_matches d (trim_start_matches d s)

-- `s.split(d)`: the pieces between the delimiters, at least one.
abbrev cons_piece : Char → List String → List String
cons_piece c List.[] = List.◌∷◌ (c ∷ []) List.[]
cons_piece c (List.◌∷◌ p ps) = List.◌∷◌ (c ∷ p) ps

unfoldable pub split : ℕ → String → List String
split d [] = List.◌∷◌ [] List.[]
split d (c ∷ s) =
    let rest = split d s in if nat_beq (code c) d then List.◌∷◌ [] rest else cons_piece c rest

-- `s.chars().take(n).collect()`.
unfoldable pub take_chars : ℕ → String → String
take_chars zero s = []
take_chars (suc n) [] = []
take_chars (suc n) (c ∷ s) = c ∷ take_chars n s

abbrev pub all_chars : (ℕ → Bool) → String → Bool
all_chars p [] = true
all_chars p (c ∷ s) = p (code c) && all_chars p s

abbrev is_digit : ℕ → Bool
is_digit c = leb b'0' c && leb c b'9'

abbrev digits_value : ℕ → String → ℕ
digits_value acc [] = acc
digits_value acc (c ∷ s) = digits_value (acc * 10 + (code c - b'0')) s

abbrev negate : ℕ → ℤ
negate zero = pos 0
negate (suc n) = negsuc n

abbrev checked : ℤ → Option ℤ
checked z = if fits_i64 z then some z else none

abbrev parse_digits : (ℕ → ℤ) → String → Option ℤ
parse_digits sign [] = none
parse_digits sign (c ∷ s) =
    if all_chars is_digit (c ∷ s) then checked (sign (digits_value 0 (c ∷ s))) else none

-- `s.parse::<i64>().ok()`: a sign and digits, in range.
unfoldable pub parse_i64 : String → Option ℤ
unfolding fits_i64
parse_i64 [] = none
parse_i64 (c ∷ s) =
    if nat_beq (code c) b'-'
    then parse_digits negate s
    else if nat_beq (code c) b'+'
    then parse_digits pos s
    else parse_digits pos (c ∷ s)

-- The decimal digits of a number; each division by ten takes one step of the fuel.
abbrev digit_text : ℕ → String
digit_text d =
    if nat_beq d 0
    then "0"
    else if nat_beq d 1
    then "1"
    else if nat_beq d 2
    then "2"
    else if nat_beq d 3
    then "3"
    else if nat_beq d 4
    then "4"
    else if nat_beq d 5
    then "5"
    else if nat_beq d 6
    then "6"
    else if nat_beq d 7
    then "7"
    else if nat_beq d 8
    then "8"
    else "9"

unfoldable pub decimal : ℕ → ℕ → String
decimal zero n = []
decimal (suc f) n =
    let more = decimal f (n / 10) ++ digit_text (n % 10) in if ltb n 10 then digit_text n else more

-- `z.to_string()`: twenty digits hold every 64-bit number.
unfoldable pub to_string : ℤ → String
unfolding decimal
to_string (pos n) = decimal 20 n
to_string (negsuc n) = "-" ++ decimal 20 (n + 1)
