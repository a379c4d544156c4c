-- ===== src/Service/Delivery/Header/Lines.antt =====
-- `splitLines` and `joinCRLF` against each other.
use smmail.Prelude.{
  ℕ, ◌+◌, ◌/◌, ◌%◌, ◌<◌, ◌≡◌, refl, ◌≢◌, ◌∙◌, ap, sym, Bool, ◌||◌, not, ◌==◌, leb, Bytes, List, [],
  ◌∷◌, ◌++◌, append_assoc, append-nil, length, length-append, count, arith, All, All-append,
}
use smmail.Service.Delivery.Header.{byte_string, lines_from, split_lines, crlf, join_crlf}

-- An ASCII character that ends no line.
abbrev pub IsPlain : ℕ → Type 0
IsPlain c = (c < 128) × (c ≢ b'\r') × (c ≢ b'\n')

abbrev pub IsLine : Bytes → Type 0
IsLine = All IsPlain

lines_from-plain :
    (c : ℕ) (cur s : Bytes) → IsPlain c → lines_from cur (c ∷ s) ≡ lines_from (cur ++ c ∷ []) s
unfolding lines_from byte_string
lines_from-plain c cur s h = ground arith

lines_from-line :
    (cur ln rest : Bytes) → IsLine ln → lines_from cur (ln ++ rest) ≡ lines_from (cur ++ ln) rest
lines_from-line cur [] rest h = rw append-nil
lines_from-line cur (c ∷ ln) rest (hc, h) =
    lines_from-plain c cur (ln ++ rest) hc
    ∙ lines_from-line (cur ++ c ∷ []) ln rest h
    ∙ ap (λ (x : Bytes). lines_from x rest) (append_assoc cur (c ∷ []) ln)

lines_from-crlf : (cur s : Bytes) → lines_from cur (crlf ++ s) ≡ cur ∷ lines_from [] s
unfolding lines_from
lines_from-crlf cur s = refl

lines_from-join :
    (cur ln : Bytes) (rest : List Bytes)
    → All IsLine (ln ∷ rest)
    → lines_from cur (join_crlf (ln ∷ rest)) ≡ (cur ++ ln) ∷ rest
unfolding join_crlf
lines_from-join cur ln [] (h, _) =
    ap (lines_from cur) (sym (append-nil ln))
    ∙ lines_from-line cur ln [] h
    ∙ (unfold lines_from in refl)
lines_from-join cur ln (next ∷ rest) (h, hs) =
    lines_from-line cur ln (crlf ++ join_crlf (next ∷ rest)) h
    ∙ lines_from-crlf (cur ++ ln) (join_crlf (next ∷ rest))
    ∙ ap (λ (x : List Bytes). (cur ++ ln) ∷ x) (lines_from-join [] next rest hs)

-- Lines of plain characters, at least one, come back from their joint text.
pub split_lines-join_crlf :
    (lines : List Bytes) → lines ≢ [] → All IsLine lines → split_lines (join_crlf lines) ≡ lines
unfolding split_lines
split_lines-join_crlf [] some_line h = absurd (some_line refl)
split_lines-join_crlf (ln ∷ rest) some_line h = lines_from-join [] ln rest h

abbrev IsAscii : ℕ → Type 0
IsAscii c = c < 128

-- `splitLines` of an ASCII text gives plain lines.
lines_from-IsLine :
    (cur s : Bytes) → IsLine cur → All (λ c. c < 128) s → All IsLine (lines_from cur s)
unfolding lines_from byte_string
lines_from-IsLine cur [] hcur h = (hcur, tt)
lines_from-IsLine cur (c ∷ s) hcur (hc, h) = ground (
  arith,
  lines_from-IsLine cur s hcur h,
  lines_from-IsLine [] s tt h,
  λ (p : IsPlain c).
      lines_from-IsLine (cur ++ c ∷ []) s (All-append IsPlain cur (c ∷ []) hcur (p, tt)) h,
)

pub split_lines-IsLine : (s : Bytes) → All (λ c. c < 128) s → All IsLine (split_lines s)
unfolding split_lines
split_lines-IsLine s h = lines_from-IsLine [] s tt h

-- The bytes of all lines.
abbrev pub total : List Bytes → ℕ
total [] = 0
total (ln ∷ rest) = length ln + total rest

abbrev pub is_line_end : ℕ → Bool
is_line_end c = c == b'\r' || c == b'\n'

total-lines_from :
    (cur s : Bytes)
    → total (lines_from cur s)
      ≡ length cur + count (λ c. not (is_line_end c)) s + count (λ c. leb 128 c) s
unfolding lines_from byte_string
total-lines_from cur [] = omega arith
total-lines_from cur (c ∷ s) = ground (
  arith,
  total-lines_from cur s,
  total-lines_from [] s,
  total-lines_from (cur ++ c ∷ []) s,
  total-lines_from (cur ++ (192 + c / 64) ∷ (128 + c % 64) ∷ []) s,
  length-append cur (c ∷ []),
  length-append cur ((192 + c / 64) ∷ (128 + c % 64) ∷ []),
)

-- Every byte from 128 on, as in text beyond ASCII, takes two bytes in the lines.
pub total-split_lines :
    (s : Bytes)
    → total (split_lines s) ≡ count (λ c. not (is_line_end c)) s + count (λ c. leb 128 c) s
unfolding split_lines
total-split_lines s = omega (arith, total-lines_from [] s)
