-- ===== src/Service/Delivery/Sends.antt =====
-- How many messages a round hands to the upstream servers.
use smmail.Prelude.{
  ℕ, ◌+◌, ◌≤◌, ◌≡◌, refl, ◌∙◌, Bool, true, false, Bytes, ℤ, List, [], ◌∷◌, length, length-append,
  ◌==◌, Option, none, some, Option-cases, inl, inr, if◌then◌else◌, arith,
}
use smmail.Models.{QueueItem, UpstreamSmtp}
use smmail.Runtime.{Env, World, M, Error, message, Result, ok, err, continue, ◌>>=◌}
use smmail.Runtime.Effects.{Steps}
use smmail.Repo.Users
use smmail.Repo.Smtps
use smmail.Repo.Smtps.{joined}
use smmail.Service.Delivery.{
  hold_if_limited, try_accounts, deliver, next_rr, rotated, after_hold, process_item,
}
use smmail.Service.Delivery.Accounts.{mail_by, logged, try_accounts-taken, try_accounts-refused}
use smmail.Service.Delivery.Accepted.{list_assigned-eq_ok}
use smmail.Service.Delivery.Rotation.{length-rotated-le}
use smmail.Service.Delivery.Silent.{
  Silent, Silent-fail, query-Silent, get_by_id-Silent, next_rr-Silent, mark_retry-Silent,
  hold_if_limited-Silent, after_delivery-Silent,
}

-- No user has more servers that are assigned and enabled.
pub record Few (n : ℕ) (w : World) : Type 0 where
  pub few :
      (id : ℤ) → length (joined id w.db.upstream_smtps.rows w.db.user_smtp_assignments.rows) ≤ n

-- At most so many messages are handed over, and the servers and assignments stay.
pub record Sends (n : ℕ) (w w' : World) : Type 0 where
  pub sent : length w'.transmissions ≤ length w.transmissions + n
  pub servers_same : w'.db.upstream_smtps.rows ≡ w.db.upstream_smtps.rows
  pub assignments_same : w'.db.user_smtp_assignments.rows ≡ w.db.user_smtp_assignments.rows

pub Silent-Sends : (n : ℕ) (w w' : World) → Silent w w' → Sends n w w'
Silent-Sends n w w' h = record {
  sent = rw h.nothing_sent (omega arith);
  servers_same = h.servers_same;
  assignments_same = h.assignments_same;
}

pub Sends-refl : (n : ℕ) (w : World) → Sends n w w
Sends-refl n w = record { sent = omega arith; servers_same = refl; assignments_same = refl }

pub Sends-chain : (j k n : ℕ) (u v w : World) → j + k ≤ n → Sends j u v → Sends k v w → Sends n u w
Sends-chain j k n u v w l p q = record {
  sent = omega (arith, l, p.sent, q.sent);
  servers_same = q.servers_same ∙ p.servers_same;
  assignments_same = q.assignments_same ∙ p.assignments_same;
}

pub Few-Sends : (n k : ℕ) (w w' : World) → Sends k w w' → Few n w → Few n w'
Few-Sends n k w w' s h = record { few = λ id. rw (s.servers_same, s.assignments_same) (h.few id) }

-- What a round hands over at most, by what the checks answer.
abbrev pub cost : ℕ → Result Bool → ℕ
cost n (ok false) = n
cost n (ok true) = 0
cost n (err e) = 0

module _ (env : Env) where
  continued :
      {A B : Type 0} (f : A → M B) (n : ℕ) (r : Result A) (v : World)
      → ((a : A) → r ≡ ok a → Sends n v (f a v).1)
      → Sends n v (continue f r v).1
  continued f n (ok a) v h = h a refl
  continued f n (err e) v h = Sends-refl n v

  -- A call that sends nothing, and the rest.
  Silent-then :
      {A B : Type 0} (m : M A) (f : A → M B) (n : ℕ) (w : World)
      → Steps Silent m
      → ((a : A) → (m w).0 ≡ ok a → Sends n (m w).1 (f a (m w).1).1)
      → Sends n w ((m >>= f) w).1
  unfolding ◌>>=◌
  Silent-then m f n w s h =
      Sends-chain 0 n n w (m w).1 _ (omega arith) (Silent-Sends 0 w (m w).1 (s.at w))
        (continued f n (m w).0 (m w).1 h)

  Sends-if :
      {A : Type 0} (b : Bool) (m k : M A) (n : ℕ) (w : World)
      → Sends n w (m w).1
      → Sends n w (k w).1
      → Sends n w ((if b then m else k) w).1
  Sends-if true m k n w p q = p
  Sends-if false m k n w p q = q

  one_sent :
      (item : QueueItem) (acc : UpstreamSmtp) (w : World) (o : Option Error)
      → Sends 1 w (logged w (mail_by item acc) o)
  one_sent item acc w o = record {
    sent = omega (arith, length-append w.transmissions ((mail_by item acc, o) ∷ []));
    servers_same = refl;
    assignments_same = refl;
  }

  try_accounts-Sends :
      (item : QueueItem) (failure : Bytes) (accs : List UpstreamSmtp) (n : ℕ) (w : World)
      → length accs ≤ n
      → Sends n w (try_accounts env item failure accs w).1
  unfolding try_accounts
  try_accounts-Sends item failure [] n w l =
      Silent-Sends n w _ ((Silent-fail (message failure)).at w)
  try_accounts-Sends item failure (acc ∷ rest) n w l =
      elim (Option-cases (env.relay w.ticks (mail_by item acc))) [
        | inl e ↦ rw (try_accounts-taken env item failure acc rest w e) (
            Sends-chain 1 0 n w (logged w (mail_by item acc) none) _ (omega (arith, l))
              (one_sent item acc w none) (Sends-refl 0 _))
        | inr (f, e) ↦ rw (try_accounts-refused env item failure acc rest w f e) (
            Sends-chain 1 (length rest) n w (logged w (mail_by item acc) (some f)) _
              (omega (arith, l)) (one_sent item acc w (some f))
              (try_accounts-Sends item failure rest (length rest)
                (logged w (mail_by item acc) (some f)) (omega arith)))
      ]

  list_assigned-Silent : (id : ℤ) → Steps Silent (Smtps.list_assigned env id)
  unfolding Smtps.list_assigned
  list_assigned-Silent id = query-Silent env _

  listed-le :
      (n : ℕ) (id : ℤ) (w : World) (assigned : List UpstreamSmtp)
      → Few n w
      → (Smtps.list_assigned env id w).0 ≡ ok assigned
      → length assigned ≤ n
  listed-le n id w assigned h e = rw (list_assigned-eq_ok env id w assigned e) (h.few id)

  deliver-Sends :
      (item : QueueItem) (n : ℕ) (w : World) → Few n w → Sends n w (deliver env item w).1
  unfolding deliver
  deliver-Sends item n w h =
      Silent-then (Users.get_by_id env item.user_id) _ n w (get_by_id-Silent env item.user_id)
        (λ user e.
          let v = (Users.get_by_id env item.user_id w).1 in
          let k =
            Few-Sends n 0 w v (Silent-Sends 0 w v ((get_by_id-Silent env item.user_id).at w)) h in
          Silent-then (Smtps.list_assigned env item.user_id) _ n v
            (list_assigned-Silent item.user_id)
            (λ assigned e'.
              let l = listed-le n item.user_id v assigned k e' in
              Sends-if (length assigned == 0) _ _ n _ (Silent-Sends n _ _ ((Silent-fail _).at _)) (
                Sends-if user.rotation_on _ _ n _
                  (Silent-then (next_rr item.user_id (length assigned)) _ n _
                    (next_rr-Silent env item.user_id (length assigned))
                    (λ idx e''.
                      try_accounts-Sends item _ (rotated idx assigned) n _
                        (omega (arith, l, length-rotated-le idx assigned))))
                  (try_accounts-Sends item _ assigned n _ l))))

  after_hold-Sends :
      (item : QueueItem) (n : ℕ) (r : Result Bool) (w : World)
      → Few n w
      → Sends (cost n r) w (after_hold env item r w).1
  unfolding after_hold ◌>>=◌
  after_hold-Sends item n (ok true) w h = Sends-refl 0 w
  after_hold-Sends item n (ok false) w h =
      Sends-chain n 0 n w (deliver env item w).1 _ (omega arith) (deliver-Sends item n w h) (
        Silent-Sends 0 _ _
          ((after_delivery-Silent env item (deliver env item w).0).at (deliver env item w).1))
  after_hold-Sends item n (err e) w h = Silent-Sends 0 w _ ((mark_retry-Silent env item.id _).at w)

  pub process_item-Sends :
      (item : QueueItem) (n : ℕ) (w : World)
      → Few n w
      → Sends (cost n (hold_if_limited env item w).0) w (process_item env item w).1
  unfolding process_item ◌>>=◌
  process_item-Sends item n w h =
      let v = (hold_if_limited env item w).1 in
      let q = Silent-Sends 0 w v ((hold_if_limited-Silent env item).at w) in
      Sends-chain 0 (cost n (hold_if_limited env item w).0) _ w v _ (omega arith) q
        (after_hold-Sends item n (hold_if_limited env item w).0 v (Few-Sends n 0 w v q h))
