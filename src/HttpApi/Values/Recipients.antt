-- ===== src/HttpApi/Values/Recipients.antt =====
-- The list of recipients of a test mail.
use smmail.Prelude.{
  ℕ, ◌≡◌, refl, ap, ◌∙◌, false, ◌==◌, Bytes, is_empty, trim_space, split, split-append, split-end,
  List, [], ◌∷◌, All, All-append, All-map, arith,
}
use smmail.HttpApi.Values.{replace_all, trimmed_parts, split_recipients, join_comma}

-- A recipient that has no separator, and no space around it, and is not empty.
pub record IsRecipient (s : Bytes) : Type 0 where
  pub trimmed : trim_space s ≡ s
  pub something : is_empty s ≡ false
  pub commas : All (λ c. (c == b',') ≡ false) s
  pub semicolons : All (λ c. (c == b';') ≡ false) s
  pub lines : All (λ c. (c == b'\n') ≡ false) s

replaced-same :
    (s : Bytes) (old new : ℕ) → All (λ c. (c == old) ≡ false) s → replace_all s old new ≡ s
replaced-same [] old new h = refl
replaced-same (c ∷ s) old new (hc, h) = ground (arith, hc, replaced-same s old new h)

-- Every byte of a joined list is one of a member, or a comma.
join_comma-All :
    (P : ℕ → Type 0) (rs : List Bytes) → P b',' → All (λ r. All P r) rs → All P (join_comma rs)
join_comma-All P [] k h = tt
join_comma-All P (r ∷ []) k (hr, h) = hr
join_comma-All P (r ∷ next ∷ rest) k (hr, h) =
    All-append P r (b',' ∷ join_comma (next ∷ rest)) hr (k, join_comma-All P (next ∷ rest) k h)

-- The parts of a joined list.
split-join_comma :
    (r : Bytes) (rs : List Bytes)
    → All IsRecipient (r ∷ rs)
    → split (join_comma (r ∷ rs)) b',' ≡ r ∷ rs
split-join_comma r [] (hr, h) = split-end r b',' hr.commas
split-join_comma r (next ∷ rest) (hr, h) =
    split-append r (join_comma (next ∷ rest)) b',' hr.commas
    ∙ ap (λ (x : List Bytes). r ∷ x) (split-join_comma next rest h)

trimmed_parts-same : (rs : List Bytes) → All IsRecipient rs → trimmed_parts rs ≡ rs
trimmed_parts-same [] h = refl
trimmed_parts-same (r ∷ rs) (hr, h) =
    rw (hr.trimmed, hr.something) (ap (λ (x : List Bytes). r ∷ x) (trimmed_parts-same rs h))

-- splitRecipients gives back the recipients of a list that is joined by commas, if the list is not
-- empty and each is trimmed, not empty, and without commas, semicolons and line feeds.
pub split_recipients-join_comma :
    (r : Bytes) (rs : List Bytes)
    → All IsRecipient (r ∷ rs)
    → split_recipients (join_comma (r ∷ rs)) ≡ r ∷ rs
unfolding split_recipients
split_recipients-join_comma r rs h =
    let joined = join_comma (r ∷ rs) in
    let no_lines : replace_all joined b'\n' b',' ≡ joined = replaced-same joined b'\n' b',' (
      join_comma-All (λ c. (c == b'\n') ≡ false) (r ∷ rs) refl
        (All-map (r ∷ rs) (λ s k. k.lines) h)) in
    let no_semicolons : replace_all joined b';' b',' ≡ joined = replaced-same joined b';' b',' (
      join_comma-All (λ c. (c == b';') ≡ false) (r ∷ rs) refl
        (All-map (r ∷ rs) (λ s k. k.semicolons) h)) in
    ap (λ (s : Bytes). trimmed_parts (split (replace_all s b';' b',') b',')) no_lines
    ∙ ap (λ (s : Bytes). trimmed_parts (split s b',')) no_semicolons
    ∙ ap trimmed_parts (split-join_comma r rs h)
    ∙ trimmed_parts-same (r ∷ rs) h
