-- ===== src/HttpApi/Values.antt =====
-- The helpers at the end of internal/httpapi/handler.go, and what they use of package strconv.
pub mod Recipients
pub mod Tests
use smmail.Prelude.{
  ℕ, ◌+◌, ◌-◌, ◌*◌, ◌/◌, ◌%◌, ◌^◌, Bool, true, false, ◌&&◌, ◌==◌, ltb, leb, Bytes, is_empty,
  trim_space, split, ℤ, pos, negsuc, eqb_ℤ, List, [], ◌∷◌, ◌++◌, map, Option, none, some,
  if◌then◌else◌,
}

abbrev pub is_digit : ℕ → Bool
is_digit c = leb b'0' c && leb c b'9'

-- The digits of a number, after those that make `acc`.
pub digits_value : ℕ → Bytes → Option ℕ
digits_value acc [] = some acc
digits_value acc (c ∷ s) = if is_digit c then digits_value (acc * 10 + (c - b'0')) s else none

-- At least one digit.
pub unsigned : Bytes → Option ℕ
unfolding digits_value
unsigned [] = none
unsigned (c ∷ s) = digits_value 0 (c ∷ s)

-- A number from -2^63 to 2^63 - 1.
abbrev pub positive : Option ℕ → Option ℤ
positive none = none
positive (some n) = if ltb n (2 ^ 63) then some (pos n) else none

abbrev pub negative : Option ℕ → Option ℤ
negative none = none
negative (some n) =
    if n == 0 then some (pos 0) else if leb n (2 ^ 63) then some (negsuc (n - 1)) else none

-- `strconv.ParseInt(s, 10, 64)` and `strconv.Atoi`, where `none` is an error.
unfoldable pub parse_int64 : Bytes → Option ℤ
unfolding unsigned
parse_int64 [] = none
parse_int64 (c ∷ s) =
    if c == b'-'
    then negative (unsigned s)
    else if c == b'+'
    then positive (unsigned s)
    else positive (unsigned (c ∷ s))

abbrev pub or_fallback : Option ℤ → ℤ → ℤ
or_fallback none fallback = fallback
or_fallback (some x) fallback = x

unfoldable pub parse_int : Bytes → ℤ → ℤ
unfolding parse_int64
parse_int v fallback = or_fallback (parse_int64 v) fallback

abbrev pub default_if_zero : ℤ → ℤ → ℤ
default_if_zero v fallback = if eqb_ℤ v (pos 0) then fallback else v

abbrev pub default_if_empty : Bytes → Bytes → Bytes
default_if_empty v fallback = if is_empty (trim_space v) then fallback else trim_space v

-- `strings.ReplaceAll` of one byte by another.
abbrev pub replace_all : Bytes → ℕ → ℕ → Bytes
replace_all s old new = map (λ (c : ℕ). if c == old then new else c) s

-- The loop of `splitRecipients`.
abbrev pub trimmed_parts : List Bytes → List Bytes
trimmed_parts [] = []
trimmed_parts (p ∷ parts) =
    if is_empty (trim_space p) then trimmed_parts parts else trim_space p ∷ trimmed_parts parts

unfoldable pub split_recipients : Bytes → List Bytes
split_recipients raw =
    trimmed_parts (split (replace_all (replace_all raw b'\n' b',') b';' b',') b',')

-- `strings.Join(recipients, ",")`.
abbrev pub join_comma : List Bytes → Bytes
join_comma [] = []
join_comma (s ∷ []) = s
join_comma (s ∷ next ∷ rest) = s ++ (b',' ∷ join_comma (next ∷ rest))

-- `hex.EncodeToString`.
abbrev pub hex_digit : ℕ → ℕ
hex_digit d = if ltb d 10 then b'0' + d else b'a' + (d - 10)

unfoldable pub encode_to_string : Bytes → Bytes
encode_to_string [] = []
encode_to_string (c ∷ s) = hex_digit (c / 16) ∷ hex_digit (c % 16) ∷ encode_to_string s

-- `strings.HasPrefix`.
abbrev pub has_prefix : Bytes → Bytes → Bool
has_prefix s [] = true
has_prefix [] (d ∷ p) = false
has_prefix (c ∷ s) (d ∷ p) = if c == d then has_prefix s p else false
