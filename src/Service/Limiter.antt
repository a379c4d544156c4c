-- ===== src/Service/Limiter.antt =====
-- internal/service/limiter.go: the counters in memory. A map is an association list by its keys.
pub mod Throttle
pub mod Tests
use smmail.Prelude.{
  get_key, set_key, ℕ, ◌+◌, Bool, true, false, not, ◌&&◌, Bytes, codes, eqb, decimal, ℤ, pos,
  is_positive, leb_ℤ, ltb_ℤ, scale, wrap64, List, [], ◌∷◌, ◌++◌, Option, none, some, if◌then◌else◌,
}
use smmail.Runtime.{message, Result, ok, err}
use smmail.Service.Delivery.{seconds, sub_time}

pub record LimiterCounter : Type 0 where
  pub count : ℕ
  pub start : ℕ

pub record Limiter : Type 0 where
  pub buckets : List (Bytes × LimiterCounter)
  pub last_send_at : List (Bytes × ℕ)
  pub domain_last_at : List (Bytes × ℕ)

abbrev pub new_limiter : Limiter
new_limiter = record { buckets = []; last_send_at = []; domain_last_at = [] }

-- One of `checks`; a window is in nanoseconds.
pub record Check : Type 0 where
  pub key : Bytes
  pub limit : ℤ
  pub win : ℕ

abbrev pub user_key : ℤ → Bytes
user_key user_id = codes "u:" ++ decimal user_id

abbrev pub domain_key : ℤ → Bytes → Bytes
domain_key user_id domain = user_key user_id ++ (codes ":d:" ++ domain)

pub checks : ℤ → Bytes → ℤ → ℤ → ℤ → ℤ → ℤ → List Check
checks user_id domain per_sec per_min per_hour per_day domain_per_hour =
    record { key = user_key user_id ++ codes ":sec"; limit = per_sec; win = seconds 1 }
    ∷ record { key = user_key user_id ++ codes ":min"; limit = per_min; win = seconds 60 }
    ∷ record { key = user_key user_id ++ codes ":hour"; limit = per_hour; win = seconds 3600 }
    ∷ record { key = user_key user_id ++ codes ":day"; limit = per_day; win = seconds 86400 }
    ∷ record {
      key = user_key user_id ++ (codes ":domain:" ++ (domain ++ codes ":hour"));
      limit = domain_per_hour;
      win = seconds 3600;
    }
    ∷ []

-- `now.Sub(last) < time.Duration(ms)*time.Millisecond`, for a time that is there.
abbrev pub too_soon : ℤ → ℕ → Option ℕ → Bool
too_soon ms now none = false
too_soon ms now (some last) = ltb_ℤ (sub_time now last) (wrap64 (scale 1000000 ms))

-- The window of a counter is over, or there is no counter.
abbrev pub is_over : ℕ → ℕ → Option LimiterCounter → Bool
is_over now win none = true
is_over now win (some b) = leb_ℤ (pos win) (sub_time now b.start)

abbrev pub count_of : Option LimiterCounter → LimiterCounter
count_of none = record { count = 0; start = 0 }
count_of (some b) = b

-- The loop over the checks: the result, and the counters, which keep what the checks before the one
-- that fails have counted.
pub count_checks :
    ℕ
    → List Check
    → List (Bytes × LimiterCounter)
    → Result (Unit {0}) × List (Bytes × LimiterCounter)
count_checks now [] buckets = (ok tt, buckets)
count_checks now (c ∷ rest) buckets =
    let b = count_of (get_key c.key buckets) in
    let skipped = count_checks now rest buckets in
    let started =
      count_checks now rest (set_key c.key (record { count = 1; start = now }) buckets) in
    let counted =
      count_checks now rest (set_key c.key (record b { count = b.count + 1 }) buckets) in
    if not (is_positive c.limit)
    then skipped
    else if is_over now c.win (get_key c.key buckets)
    then started
    else if ltb_ℤ c.limit (pos (b.count + 1))
    then (err (message (codes "rate limit exceeded: " ++ c.key)), buckets)
    else counted

-- The end of `CheckAndInc`.
abbrev pub note_sent :
    ℕ
    → ℤ
    → Bytes
    → Limiter
    → Result (Unit {0}) × List (Bytes × LimiterCounter)
    → Result (Unit {0}) × Limiter
note_sent now user_id domain l (err e, buckets) = (err e, record l { buckets = buckets })
note_sent now user_id domain l (ok done, buckets) = (
  ok done,
  record {
    buckets = buckets;
    last_send_at = set_key (user_key user_id) now l.last_send_at;
    domain_last_at = set_key (domain_key user_id domain) now l.domain_last_at;
  },
)

pub check_and_inc :
    ℕ → ℤ → Bytes → ℤ → ℤ → ℤ → ℤ → ℤ → ℤ → ℤ → Limiter → Result (Unit {0}) × Limiter
check_and_inc now user_id domain per_sec per_min per_hour per_day throttle_ms domain_per_hour
      domain_throttle_ms l =
    if is_positive throttle_ms
      && too_soon throttle_ms now (get_key (user_key user_id) l.last_send_at)
    then (err (message (codes "user throttled: wait " ++ decimal throttle_ms ++ codes "ms")), l)
    else if is_positive domain_throttle_ms
        && too_soon domain_throttle_ms now (get_key (domain_key user_id domain) l.domain_last_at)
    then (
      err (message (codes "domain throttled: wait " ++ decimal domain_throttle_ms ++ codes "ms")),
      l,
    )
    else note_sent now user_id domain l (
        count_checks now (checks user_id domain per_sec per_min per_hour per_day domain_per_hour)
          l.buckets)
