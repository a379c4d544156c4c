-- ===== src/Service/Auth/Tests.antt =====
-- A password that fits.
use smmail.Prelude.{◌≡◌, refl, true, codes, eqb, find, some}
use smmail.Runtime.{ok}
use smmail.Service.Auth.{validate}
use smmail.Service.Auth.Valid.{validate_iff}
use smmail.Fixture.{calm, start, alice}

validate_example :
    ((validate calm (codes "alice") (codes "secret") start).0 ≡ ok alice
      → (find (λ v. eqb v.username (codes "alice")) start.db.users.rows ≡ some alice)
        × (alice.enabled ≡ true)
        × (calm.same_password alice.password_hash (codes "secret") ≡ true))
    × ((find (λ v. eqb v.username (codes "alice")) start.db.users.rows ≡ some alice)
          × (alice.enabled ≡ true)
          × (calm.same_password alice.password_hash (codes "secret") ≡ true)
        → (validate calm (codes "alice") (codes "secret") start).0 ≡ ok alice)
validate_example = validate_iff calm (codes "alice") (codes "secret") start alice refl
