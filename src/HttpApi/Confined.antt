-- ===== src/HttpApi/Confined.antt =====
-- What an account that is restricted to the servers of the system can get at.
pub mod Writes
pub mod Served
pub mod Tests
use smmail.Prelude.{
  ℕ, ◌≡◌, refl, sym, subst, ◌∙◌, ◌⊎◌, inl, inr, Bool, true, false, not, ◌&&◌, leb, ◌-◌, ◌*◌,
  pos_part, codes, ◌++◌, ℤ, pos, eqb_ℤ, eqb_ℤ_iff, eqb_ℤ_refl, is_positive, List, [], ◌∷◌, Option,
  none, some, find, filter, any, update, if◌then◌else◌, Bool-cases, find-filter, arith,
}
use smmail.Models.{User, PackagePlan, UpstreamSmtp, UserSmtpAssignment, is_pending}
use smmail.Models.Database.{Database, Table}
use smmail.Runtime.{Env, World, exec, timestamp}
use smmail.Runtime.Effects.{Steps, Steps-if, exec-cases}
use smmail.Runtime.Kept.{IsDatabaseOrder, On, On-exec, On-fail, On-tick, On-two_at}
use smmail.Repo.Users
use smmail.Repo.Events
use smmail.Repo.Events.{seconds_per_day, between}
use smmail.Repo.Queue
use smmail.Repo.Smtps
use smmail.Repo.Smtps.{is_assignment}
use smmail.HttpApi.Handled.{Deletes}
use smmail.HttpApi.Sound.{has_id}
use smmail.HttpApi.Sound.Tables.{assigned}

abbrev pub is_unowned : Option UpstreamSmtp → Bool
is_unowned none = false
is_unowned (some s) = eqb_ℤ s.owner_user_id (pos 0)

-- The server is one of the system.
abbrev pub is_system : ℤ → Database → Bool
is_system i db = is_unowned (find (has_id i) db.upstream_smtps.rows)

abbrev pub is_assigned : ℤ → ℤ → Database → Bool
is_assigned id i db = any (is_assignment id i) db.user_smtp_assignments.rows

-- An owner's server with a property.
abbrev pub owns : ℤ → (UpstreamSmtp → Bool) → Database → Bool
owns id p db = any (λ s. eqb_ℤ s.owner_user_id id && p s) db.upstream_smtps.rows

-- The user owns no server that was not there, the servers of the system stay, and the user is assigned
-- no other server that was not assigned.
pub record Confines (id : ℤ) (db db' : Database) : Type 0 where
  pub owned : (p : UpstreamSmtp → Bool) → owns id p db' ≡ true → owns id p db ≡ true
  pub system : (i : ℤ) → is_system i db ≡ true → is_system i db' ≡ true
  pub granted :
      (i : ℤ)
      → is_assigned id i db' ≡ true
      → (is_assigned id i db ≡ true) ⊎ (is_system i db' ≡ true)

pub Confines-order : (id : ℤ) → IsDatabaseOrder (Confines id)
Confines-order id = record {
  same = λ db. record { owned = λ p h. h; system = λ i h. h; granted = λ i h. inl h };
  chain = λ a b c x y. record {
    owned = λ p h. x.owned p (y.owned p h);
    system = λ i h. y.system i (x.system i h);
    granted = λ i h. elim (y.granted i h) [
      | inr s ↦ inr s
      | inl k ↦ elim (x.granted i k) [ inl l ↦ inl l | inr s ↦ inr (y.system i s) ]
    ];
  };
}
