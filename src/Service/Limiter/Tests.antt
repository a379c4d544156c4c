-- ===== src/Service/Limiter/Tests.antt =====
-- Two mails of a user with a throttle of one second.
use smmail.Prelude.{get_key, set_key, ℕ, ◌≡◌, refl, codes, decimal, pos, wrap64}
use smmail.Runtime.{Result, err, message}
use smmail.Service.Limiter.{Limiter, checks, count_checks, check_and_inc, new_limiter}

abbrev call : ℕ → Limiter → Result (Unit {0}) × Limiter
call now l =
    check_and_inc now (pos 7) (codes "b.org") (pos 1) (pos 9) (pos 0) (pos 0) (pos 1000) (pos 0)
      (pos 0) l

refused :
    (call 5500000000 (call 5000000000 new_limiter).1).0
    ≡ err (message (codes "user throttled: wait 1000ms"))
unfolding check_and_inc count_checks checks get_key set_key decimal wrap64
refused = refl
