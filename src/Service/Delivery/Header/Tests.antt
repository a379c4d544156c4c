-- ===== src/Service/Delivery/Header/Tests.antt =====
-- The header of a short message.
use smmail.Prelude.{◌≡◌, ◌+◌, refl, count, not, leb, Bytes, codes, List, [], ◌∷◌, arith, trim_space}
use smmail.Service.Delivery.Header.{
  split_lines, lines_from, byte_string, join_crlf, is_from, to_lower_prefix, header_end, from_line,
  replace_from, with_from, rewrite_from_header,
}
use smmail.Service.Delivery.Header.Lines.{
  IsLine, split_lines-join_crlf, is_line_end, total, total-split_lines,
}

abbrev message : Bytes
message = codes "Subject: hi\r\nfROM: a\r\n\r\nhello"

abbrev header : List Bytes
header = codes "Subject: hi" ∷ codes "fROM: a" ∷ []

abbrev body : List Bytes
body = codes "hello" ∷ []

-- The lower case of the header's name does not matter.
rewritten :
    rewrite_from_header message (codes " x@y ") ≡ codes "Subject: hi\r\nFrom: <x@y>\r\n\r\nhello"
unfolding rewrite_from_header split_lines lines_from byte_string header_end from_line with_from
    replace_from is_from to_lower_prefix join_crlf trim_space
rewritten = refl

first-IsLine : IsLine (codes "Subject: hi")
first-IsLine = omega arith

second-IsLine : IsLine (codes "fROM: a")
second-IsLine = omega arith

lines_example : split_lines (join_crlf header) ≡ header
lines_example = split_lines-join_crlf header (λ e. cc) (first-IsLine, (second-IsLine, tt))

-- A byte beyond ASCII and a line end.
total_example :
    total (split_lines (233 ∷ 10 ∷ 97 ∷ []))
    ≡ count (λ c. not (is_line_end c)) (233 ∷ 10 ∷ 97 ∷ [])
      + count (λ c. leb 128 c) (233 ∷ 10 ∷ 97 ∷ [])
total_example = total-split_lines (233 ∷ 10 ∷ 97 ∷ [])
