-- ===== src/Service/Limiter/Throttle.antt =====
-- What the limiter remembers of a mail that it lets through.
use smmail.Prelude.{get_key, ℕ, ◌≡◌, false, ◌&&◌, ℤ, is_positive, some}
use smmail.Service.Limiter.{Limiter, user_key, too_soon}

-- What a call that lets a mail through has found and left.
record Accepted (now : ℕ) (user_id throttle_ms : ℤ) (l l' : Limiter) : Type 0 where
  pub waited :
      is_positive throttle_ms
        && too_soon throttle_ms now (get_key (user_key user_id) l.last_send_at)
      ≡ false
  pub noted : get_key (user_key user_id) l'.last_send_at ≡ some now
