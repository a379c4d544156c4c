-- ===== src/Service/Delivery/Windows.antt =====
-- The worker keeps the recorded mail of a user within the limits of the account.
use smmail.Prelude.{
  ℕ, suc, ◌+◌, ◌-◌, ◌/◌, ◌≤◌, ◌≡◌, ◌≢◌, subst, inl, inr, true, false, ◌&&◌, Bytes, leb, ℤ, pos,
  pos_part, is_positive, List, [], ◌∷◌, some, arith, All, All-map, All-append_left, Bool-cases,
  eqb_ℤ, eqb_ℤ_iff, find, count-append,
}
use smmail.Models.{MailEvent, QueueItem, User}
use smmail.Runtime.{Env, World, tick, nanoseconds, timestamp}
use smmail.Repo.Events.{sent_since, is_sent_by}
use smmail.Service.Delivery.{
  user_checks, limit_checks, LimitCheck, sent_event, process_item, Signal, run,
}
use smmail.Service.Delivery.Quiet.{Quiet, Quiet-tick, events}
use smmail.Service.Delivery.Quiet.Calls.{recorded}
use smmail.Service.Delivery.Hold.{Room, Passes}
use smmail.Service.Delivery.Rounds.{run_induction}
use smmail.Service.Delivery.Outcome.{Delivered, process_item-Outcome}

-- The clock does not go back.
abbrev pub IsMonotone : Env → Type 0
IsMonotone env = (s t : ℕ) → s ≤ t → env.clock s ≤ env.clock t

-- The second since which a limit counts, now.
abbrev pub window_start : Env → LimitCheck → World → ℕ
window_start env c w = (env.clock w.ticks - c.window) / nanoseconds

-- No more mail is recorded in the window that ends now than the limit allows, if it is on.
abbrev pub Within : Env → ℤ → World → LimitCheck → Type 0
Within env user_id w c =
    is_positive c.limit ≡ true
    → sent_since user_id c.domain (window_start env c w) (events w) ≤ pos_part c.limit

-- A later start counts no more.
sent_since-antitone :
    (user_id : ℤ) (domain : Bytes) (s t : ℕ) (es : List MailEvent)
    → s ≤ t
    → sent_since user_id domain t es ≤ sent_since user_id domain s es
sent_since-antitone user_id domain s t [] h = omega arith
sent_since-antitone user_id domain s t (e ∷ es) h =
    ground (arith, sent_since-antitone user_id domain s t es h)

later_start : (a b window : ℕ) → a ≤ b → (a - window) / nanoseconds ≤ (b - window) / nanoseconds
later_start a b window h = omega arith

-- A mail counts at most once, and not for another user.
sent_since-one :
    (user_id : ℤ) (domain : Bytes) (since : ℕ) (e : MailEvent)
    → sent_since user_id domain since (e ∷ []) ≤ 1
sent_since-one user_id domain since e = ground arith

pub sent_since-other :
    (user_id : ℤ) (domain : Bytes) (since : ℕ) (e : MailEvent)
    → e.user_id ≢ user_id
    → sent_since user_id domain since (e ∷ []) ≡ 0
sent_since-other user_id domain since e h = ground (arith, eqb_ℤ_iff e.user_id user_id)

recorded_counts :
    (env : Env) (user_id : ℤ) (domain : Bytes) (since : ℕ) (e : MailEvent) (w : World)
    → sent_since user_id domain since (events (recorded env e w))
      ≤ sent_since user_id domain since (events w) + 1
recorded_counts env user_id domain since e w =
    let new = record e {
      id = pos (suc w.db.mail_events.last_id);
      created_at = timestamp env w.ticks;
    } in
    omega (
      arith,
      count-append (λ x. is_sent_by user_id domain x && leb since x.created_at) (events w)
          (new ∷ []),
      sent_since-one user_id domain since new,
    )

not_own : (a b : ℤ) → eqb_ℤ a b ≡ false → a ≢ b
not_own a b h e = cc ((eqb_ℤ_iff a b).1 e)

module _ (env : Env) (monotone : IsMonotone env) where
  start-le :
      (window s t : ℕ)
      → s ≤ t
      → (env.clock s - window) / nanoseconds ≤ (env.clock t - window) / nanoseconds
  start-le window s t h = later_start (env.clock s) (env.clock t) window (monotone s t h)

  -- Time alone, and all that records no sent mail, keeps the bound.
  Within-Quiet :
      (user_id : ℤ) (c : LimitCheck) (u v : World)
      → Quiet u v
      → Within env user_id u c
      → Within env user_id v c
  Within-Quiet user_id c u v q h on = omega (
    arith,
    h on,
    q.counts user_id c.domain (window_start env c v),
    sent_since-antitone user_id c.domain (window_start env c u) (window_start env c v) (events u)
        (start-le c.window u.ticks v.ticks q.later),
  )

  -- Room found before leaves the bound in place when one more mail is recorded.
  Within-recorded :
      (user_id : ℤ) (c : LimitCheck) (e : MailEvent) (at : ℕ) (w y : World)
      → Quiet w y
      → at ≤ y.ticks
      → Room user_id (env.clock at) (events w) c
      → Within env user_id (recorded env e y) c
  Within-recorded user_id c e at w y q h room on =
      let s = window_start env c (recorded env e y) in
      omega (
        arith,
        room on,
        recorded_counts env user_id c.domain s e y,
        q.counts user_id c.domain s,
        sent_since-antitone user_id c.domain ((env.clock at - c.window) / nanoseconds) s (events w)
            (start-le c.window at (suc y.ticks) (omega (arith, h))),
      )

  -- A mail of another user does not count.
  Within-other :
      (user_id : ℤ) (c : LimitCheck) (e : MailEvent) (w : World)
      → e.user_id ≢ user_id
      → Within env user_id w c
      → Within env user_id (recorded env e w) c
  Within-other user_id c e w other h on =
      let new = record e {
        id = pos (suc w.db.mail_events.last_id);
        created_at = timestamp env w.ticks;
      } in
      let s = window_start env c (recorded env e w) in
      omega (
        arith,
        h on,
        count-append (λ x. is_sent_by user_id c.domain x && leb s x.created_at) (events w)
            (new ∷ []),
        sent_since-other user_id c.domain s new other,
        sent_since-antitone user_id c.domain (window_start env c w) s (events w)
            (start-le c.window w.ticks (suc w.ticks) (omega arith)),
      )

  module _ (user_id : ℤ) (user : User) where
    -- The account is there, and each check that is on holds in the window that ends now.
    pub record IsWithin (w : World) : Type 0 where
      pub account : find (λ u. eqb_ℤ u.id user_id) w.db.users.rows ≡ some user
      pub within : All (Within env user_id w) (user_checks user)

    Quiet-IsWithin : (u v : World) → Quiet u v → IsWithin u → IsWithin v
    Quiet-IsWithin u v q h = record {
      account = rw q.users_same h.account;
      within = All-map (user_checks user) (λ c. Within-Quiet user_id c u v q) h.within;
    }

    passed-Room :
        (item : QueueItem) (w v : World)
        → item.user_id ≡ user_id
        → IsWithin w
        → (p : Passes env item w v)
        → All (Room user_id (env.clock p.at) (events w)) (user_checks user)
    unfolding limit_checks
    passed-Room item w v e h p =
        let es = events w in
        let found : find (λ u. eqb_ℤ u.id user_id) w.db.users.rows ≡ some p.user =
          subst (λ i. find (λ u. eqb_ℤ u.id i) w.db.users.rows ≡ some p.user) e p.found in
        let same : p.user ≡ user = cc (found, h.account) in
        let room : All (Room item.user_id (env.clock p.at) es) (user_checks p.user) =
          All-append_left (Room item.user_id (env.clock p.at) es) (user_checks p.user) _ p.room in
        subst (λ u. All (Room user_id (env.clock p.at) es) (user_checks u)) same
          (subst (λ i. All (Room i (env.clock p.at) es) (user_checks p.user)) e room)

    Delivered-IsWithin :
        (item : QueueItem) (w w' : World) → IsWithin w → Delivered env item w w' → IsWithin w'
    Delivered-IsWithin item w w' h d = elim (Bool-cases (eqb_ℤ item.user_id user_id)) [
      | inl own ↦
          let e = (eqb_ℤ_iff item.user_id user_id).0 own in
          rw d.recorded_last (record {
            account = (Quiet-IsWithin w d.before d.quiet h).account;
            within =
                All-map (user_checks user)
                  (λ c room.
                    Within-recorded user_id c (sent_event item) d.passes.at w d.before d.quiet
                      (omega (arith, d.passes.before_end, d.after_checks)) room)
                  (passed-Room item w d.checked e h d.passes);
          })
      | inr other ↦
          let k = Quiet-IsWithin w d.before d.quiet h in
          rw d.recorded_last (record {
            account = k.account;
            within =
                All-map (user_checks user)
                  (λ c.
                    Within-other user_id c (sent_event item) d.before
                      (not_own item.user_id user_id other))
                  k.within;
          })
    ]

    process_item-IsWithin :
        (item : QueueItem) (w : World) → IsWithin w → IsWithin (process_item env item w).1
    process_item-IsWithin item w h = elim (process_item-Outcome env item w) [
      | inl q ↦ Quiet-IsWithin w _ q h
      | inr d ↦ Delivered-IsWithin item w _ h d
    ]

    pub run-IsWithin :
        (signals : List Signal) (w : World) → IsWithin w → IsWithin (run env signals w)
    run-IsWithin signals w h =
        run_induction env (λ item u. process_item-IsWithin item u)
          (λ u. Quiet-IsWithin u (tick u) (Quiet-tick u)) signals w h
