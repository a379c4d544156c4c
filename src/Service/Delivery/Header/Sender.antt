-- ===== src/Service/Delivery/Header/Sender.antt =====
-- What `rewriteFromHeader` does to a message with a header and a body.
use smmail.Prelude.{◌≡◌, Bool, not, Bytes, List, ◌∷◌, Option, none, some, length, find, filter, All}
use smmail.Service.Delivery.Header.{is_from, replace_from}
use smmail.Service.Delivery.Header.Lines.{IsLine}

abbrev pub is_other : Bytes → Bool
is_other ln = not (is_from ln)

-- The header of the new message.
new_header : Bytes → List Bytes → List Bytes
new_header line header = elim (replace_from line (length header) header) [
  | some h ↦ h
  | none ↦ line ∷ header
]

-- What a header is after the loop: there was no From line, or the first is replaced.
abbrev Replaced : Bytes → List Bytes → Option (List Bytes) → Type 0
Replaced line header none = find is_from header ≡ none
Replaced line header (some h) =
    (find is_from h ≡ some line) × (filter is_other h ≡ filter is_other header)

-- The first From line of the new header is the new line, and the other lines are the old ones.
abbrev pub HasSender : Bytes → List Bytes → List Bytes → Type 0
HasSender line header h =
    (find is_from h ≡ some line) × (filter is_other h ≡ filter is_other header)

-- The new lines are plain too.
abbrev AllPlain : Option (List Bytes) → Type 0
AllPlain none = Unit
AllPlain (some lines) = All IsLine lines
