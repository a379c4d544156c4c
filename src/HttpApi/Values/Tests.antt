-- ===== src/HttpApi/Values/Tests.antt =====
-- The helpers of the handlers, run.
use smmail.Prelude.{◌≡◌, refl, codes, trim_space, split, [], ◌∷◌, pos, All}
use smmail.HttpApi.Values.{split_recipients, parse_int, parse_int64, encode_to_string}
use smmail.HttpApi.Values.Recipients.{IsRecipient, split_recipients-join_comma}

splits_recipients :
    split_recipients (codes " a@x.org;b@x.org,,\n c@x.org ")
    ≡ codes "a@x.org" ∷ codes "b@x.org" ∷ codes "c@x.org" ∷ []
unfolding split_recipients split trim_space
splits_recipients = refl

parses_ints : (parse_int (codes "12") (pos 25) ≡ pos 12) × (parse_int (codes "x") (pos 25) ≡ pos 25)
unfolding parse_int parse_int64
parses_ints = (refl, refl)

encodes : encode_to_string (255 ∷ 0 ∷ []) ≡ codes "ff00"
unfolding encode_to_string
encodes = refl

two_recipients : All IsRecipient (codes "a@x.org" ∷ codes "b@x.org" ∷ [])
unfolding trim_space
two_recipients = (
  record {
    trimmed = refl;
    something = refl;
    commas = (refl, (refl, (refl, (refl, (refl, (refl, (refl, tt)))))));
    semicolons = (refl, (refl, (refl, (refl, (refl, (refl, (refl, tt)))))));
    lines = (refl, (refl, (refl, (refl, (refl, (refl, (refl, tt)))))));
  },
  (
    record {
      trimmed = refl;
      something = refl;
      commas = (refl, (refl, (refl, (refl, (refl, (refl, (refl, tt)))))));
      semicolons = (refl, (refl, (refl, (refl, (refl, (refl, (refl, tt)))))));
      lines = (refl, (refl, (refl, (refl, (refl, (refl, (refl, tt)))))));
    },
    tt,
  ),
)

split_recipients-join_comma_example :
    split_recipients (codes "a@x.org,b@x.org") ≡ codes "a@x.org" ∷ codes "b@x.org" ∷ []
split_recipients-join_comma_example =
    split_recipients-join_comma (codes "a@x.org") (codes "b@x.org" ∷ []) two_recipients
