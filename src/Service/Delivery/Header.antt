-- ===== src/Service/Delivery/Header.antt =====
-- `rewriteFromHeader` and the functions that it calls, of internal/service/delivery.go. A loop that
-- appends is a function of what it has built so far.
pub mod Lines
pub mod Sender
pub mod Tests
use smmail.Prelude.{
  ℕ, zero, suc, ◌+◌, ◌/◌, ◌%◌, ◌<◌, Bool, true, false, ◌&&◌, ◌==◌, ltb, leb, Bytes, codes, eqb,
  is_empty, trim_space, to_lower_byte, List, [], ◌∷◌, ◌++◌, Option, none, some, map, take,
  if◌then◌else◌,
}

-- `string(s[i])`: Go converts the byte to the UTF-8 encoding of the code point of that number.
pub byte_string : ℕ → Bytes
byte_string c = if ltb c 128 then c ∷ [] else (192 + c / 64) ∷ (128 + c % 64) ∷ []

-- The loop of `splitLines` over the rest of the text: `cur` is the line so far.
pub lines_from : Bytes → Bytes → List Bytes
lines_from cur [] = cur ∷ []
lines_from cur (c ∷ s) =
    let skip = lines_from cur s in
    let next = lines_from [] s in
    let more = lines_from (cur ++ byte_string c) s in
    if c == b'\r' then skip else if c == b'\n' then cur ∷ next else more

pub split_lines : Bytes → List Bytes
split_lines s = lines_from [] s

abbrev pub crlf : Bytes
crlf = b'\r' ∷ b'\n' ∷ []

pub join_crlf : List Bytes → Bytes
join_crlf [] = []
join_crlf (ln ∷ []) = ln
join_crlf (ln ∷ next ∷ rest) = ln ++ (crlf ++ join_crlf (next ∷ rest))

pub to_lower_prefix : Bytes → ℕ → Bytes
to_lower_prefix s n = map to_lower_byte (take n s)

-- `toLowerPrefix(ln, 5) == "from:"`.
pub is_from : Bytes → Bool
unfolding to_lower_prefix
is_from ln = eqb (to_lower_prefix ln 5) (codes "from:")

-- The index of the first empty line.
pub header_end : List Bytes → Option ℕ
header_end [] = none
header_end (ln ∷ rest) =
    if is_empty ln then some 0 else elim (header_end rest) [ none ↦ none | some i ↦ some (suc i) ]

-- The new line.
pub from_line : Bytes → Bytes
from_line from_email = codes "From: <" ++ trim_space from_email ++ codes ">"

-- The loop over the lines before index `n`: the lines with the first From line replaced, or `none`
-- if there is none.
pub replace_from : Bytes → ℕ → List Bytes → Option (List Bytes)
replace_from line zero lines = none
replace_from line (suc n) [] = none
replace_from line (suc n) (ln ∷ rest) =
    if is_from ln
    then some (line ∷ rest)
    else elim (replace_from line n rest) [ none ↦ none | some lines ↦ some (ln ∷ lines) ]

-- The lines of the new message, where the header ends before line `n`.
pub with_from : Bytes → ℕ → List Bytes → List Bytes
with_from line n lines = elim (replace_from line n lines) [
  | some replaced ↦ replaced
  | none ↦ line ∷ lines
]

pub rewrite_from_header : Bytes → Bytes → Bytes
rewrite_from_header message from_email =
    if is_empty from_email then message else elim (header_end (split_lines message)) [
      | none ↦ message
      | some n ↦ join_crlf (with_from (from_line from_email) n (split_lines message))
    ]
