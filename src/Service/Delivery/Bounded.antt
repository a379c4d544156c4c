-- ===== src/Service/Delivery/Bounded.antt =====
-- The limits of an account, in seconds, and what the worker records.
use smmail.Prelude.{
  ℕ, ◌-◌, ◌*◌, ◌/◌, ◌≤◌, ◌≡◌, true, ℤ, pos_part, is_positive, [], eqb_ℤ, find, some, List,
}
use smmail.Models.{User}
use smmail.Runtime.{Env, World}
use smmail.Repo.Events.{sent_since}
use smmail.Service.Delivery.{user_checks, Signal, run}
use smmail.Service.Delivery.Quiet.{events}
use smmail.Service.Delivery.Windows.{IsMonotone, IsWithin, run-IsWithin}

-- In the last seconds no more mail of the user is recorded as sent than a limit allows, if it is on.
abbrev pub Holds : Env → ℤ → World → ℤ → ℕ → Type 0
Holds env user_id w limit seconds =
    is_positive limit ≡ true
    → sent_since user_id [] ((env.clock w.ticks - seconds * 1000000000) / 1000000000) (events w)
      ≤ pos_part limit

-- The account is there, and its four limits hold in the last second, minute, hour and day.
pub record IsBounded (env : Env) (user_id : ℤ) (user : User) (w : World) : Type 0 where
  pub account : find (λ u. eqb_ℤ u.id user_id) w.db.users.rows ≡ some user
  pub per_sec : Holds env user_id w user.limit_per_sec 1
  pub per_min : Holds env user_id w user.limit_per_min 60
  pub per_hour : Holds env user_id w user.limit_per_hour 3600
  pub per_day : Holds env user_id w user.limit_per_day 86400

module _ (env : Env) (monotone : IsMonotone env) (user_id : ℤ) (user : User) where
  to_checks : (w : World) → IsBounded env user_id user w → IsWithin env monotone user_id user w
  unfolding user_checks
  to_checks w h = record {
    account = h.account;
    within = (h.per_sec, (h.per_min, (h.per_hour, (h.per_day, tt))));
  }

  of_checks : (w : World) → IsWithin env monotone user_id user w → IsBounded env user_id user w
  unfolding user_checks
  of_checks w h =
      let (sec, (min, (hour, (day, _)))) = h.within in
      record { account = h.account; per_sec = sec; per_min = min; per_hour = hour; per_day = day }

  -- In whatever way the database and the upstream servers fail, if the clock does not go back, the
  -- worker leaves no more mail of the account recorded as sent in the last second, minute, hour and
  -- day than the limits that are on allow, if that was so when it started.
  pub run-IsBounded :
      (signals : List Signal) (w : World)
      → IsBounded env user_id user w
      → IsBounded env user_id user (run env signals w)
  run-IsBounded signals w h =
      of_checks (run env signals w)
        (run-IsWithin env monotone user_id user signals w (to_checks w h))
