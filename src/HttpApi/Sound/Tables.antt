-- ===== src/HttpApi/Sound/Tables.antt =====
-- What the statements do to the ownership of the servers.
use smmail.Prelude.{
  ℕ, suc, ◌≤◌, ◌≡◌, refl, sym, subst, ◌∙◌, Bool, true, false, not, ℤ, pos, negsuc, eqb_ℤ, eqb_ℤ_iff,
  eqb_ℤ_refl, List, [], ◌∷◌, ◌++◌, All, All-append, All-filter, All-update, All-map, find, count,
  filter, any, update, find-append, find-last, find-filter, count-append, count-filter-le,
  count-one, count-other, if◌then◌else◌, Bool-cases, Option-cases, inl, inr, arith,
}
use smmail.Models.{UpstreamSmtp, UserSmtpAssignment}
use smmail.Models.Database.{Table, insert_row, skip_id, update_rows, delete_rows}
use smmail.Repo.Smtps.{is_assignment}
use smmail.HttpApi.Sound.{has_id, suits, is_owned, is_given, IsOwned}

pub given-suc : (n : ℕ) (id : ℤ) → is_given n id ≡ true → is_given (suc n) id ≡ true
given-suc n (pos k) h = ground arith
given-suc n (negsuc k) h = ground arith

given-next : (n : ℕ) (id : ℤ) → is_given n id ≡ true → eqb_ℤ id (pos (suc n)) ≡ false
given-next n (pos k) h = ground arith
given-next n (negsuc k) h = ground arith

-- The next id is new.
count-next :
    (n : ℕ) (smtps : List UpstreamSmtp)
    → All (λ (s : UpstreamSmtp). is_given n s.id ≡ true) smtps
    → count (has_id (pos (suc n))) smtps ≡ 0
count-next n [] h = omega arith
count-next n (s ∷ smtps) (hs, h) = ground (arith, given-next n s.id, count-next n smtps h)

is_owned-append :
    (smtps more : List UpstreamSmtp) (a : UserSmtpAssignment)
    → is_owned smtps a ≡ true
    → is_owned (smtps ++ more) a ≡ true
is_owned-append smtps more a h = elim (Option-cases (find (has_id a.smtp_id) smtps)) [
  | inl e ↦ ground (arith, e, h)
  | inr (s, e) ↦ ground (arith, e, h, find-append (has_id a.smtp_id) smtps more s)
]

-- A new server.
pub insert-IsOwned :
    (row : ℤ → UpstreamSmtp) (t : Table UpstreamSmtp) (assignments : List UserSmtpAssignment)
    → ((id : ℤ) → (row id).id ≡ id)
    → IsOwned t assignments
    → IsOwned (insert_row row t) assignments
insert-IsOwned row t assignments same h = record {
  owned =
      All-map assignments (λ a k. is_owned-append t.rows (row (pos (suc t.last_id)) ∷ []) a k)
        h.owned;
  given =
      All-append _ t.rows (row (pos (suc t.last_id)) ∷ [])
        (All-map t.rows (λ s k. given-suc t.last_id s.id k) h.given)
        (ground (arith, same (pos (suc t.last_id))), tt);
  one_id = λ id. elim (Bool-cases (eqb_ℤ (row (pos (suc t.last_id))).id id)) [
    | inl e ↦ omega (
      arith,
      count-append (has_id id) t.rows (row (pos (suc t.last_id)) ∷ []),
      count-one (has_id id) (row (pos (suc t.last_id))),
      subst (λ i. count (has_id i) t.rows ≡ 0)
          (sym (same (pos (suc t.last_id))) ∙ (eqb_ℤ_iff (row (pos (suc t.last_id))).id id).0 e)
          (count-next t.last_id t.rows h.given),
    )
    | inr e ↦ omega (
      arith,
      h.one_id id,
      count-append (has_id id) t.rows (row (pos (suc t.last_id)) ∷ []),
      count-other (has_id id) (row (pos (suc t.last_id))) e,
    )
  ];
}

-- Assignments are deleted.
pub filter-IsOwned :
    (p : UserSmtpAssignment → Bool) (t : Table UpstreamSmtp) (assignments : List UserSmtpAssignment)
    → IsOwned t assignments
    → IsOwned t (filter p assignments)
filter-IsOwned p t assignments h = record {
  owned = All-filter _ p assignments h.owned;
  given = h.given;
  one_id = h.one_id;
}

-- A test of two different integers.
other_id : (a b c : ℤ) → eqb_ℤ b c ≡ false → eqb_ℤ a b ≡ true → not (eqb_ℤ a c) ≡ true
other_id a b c h k = ground (arith, h, (eqb_ℤ_iff a b).0 k)

is_owned-filter :
    (id : ℤ) (smtps : List UpstreamSmtp) (a : UserSmtpAssignment)
    → eqb_ℤ a.smtp_id id ≡ false
    → is_owned smtps a ≡ true
    → is_owned (filter (λ (s : UpstreamSmtp). not (eqb_ℤ s.id id)) smtps) a ≡ true
is_owned-filter id smtps a e h =
    rw
      (find-filter (has_id a.smtp_id) (λ (s : UpstreamSmtp). not (eqb_ℤ s.id id)) smtps
        (λ s k. other_id s.id a.smtp_id id e k))
      h

-- A server is deleted, after its assignments.
without-owned :
    (id : ℤ) (smtps : List UpstreamSmtp) (assignments : List UserSmtpAssignment)
    → All (λ a. is_owned smtps a ≡ true) assignments
    → All
        (λ a. is_owned (filter (λ (s : UpstreamSmtp). not (eqb_ℤ s.id id)) smtps) a ≡ true)
        (filter (λ (a : UserSmtpAssignment). not (eqb_ℤ a.smtp_id id)) assignments)
without-owned id smtps [] h = tt
without-owned id smtps (a ∷ rest) (ha, h) = elim (Bool-cases (eqb_ℤ a.smtp_id id)) [
  | inl e ↦ rw e (without-owned id smtps rest h)
  | inr e ↦ rw e (is_owned-filter id smtps a e ha, without-owned id smtps rest h)
]

pub delete-IsOwned :
    (id : ℤ) (t : Table UpstreamSmtp) (assignments : List UserSmtpAssignment)
    → IsOwned t assignments
    → IsOwned
        (delete_rows (λ (s : UpstreamSmtp). eqb_ℤ s.id id) t)
        (filter (λ (a : UserSmtpAssignment). not (eqb_ℤ a.smtp_id id)) assignments)
delete-IsOwned id t assignments h = record {
  owned = without-owned id t.rows assignments h.owned;
  given = All-filter _ _ t.rows h.given;
  one_id =
      λ i. omega (arith, h.one_id i, count-filter-le (has_id i) (λ s. not (eqb_ℤ s.id id)) t.rows);
}

-- An assignment is updated or inserted, for a server that was found.
pub update-IsOwned :
    (p : UserSmtpAssignment → Bool) (f : UserSmtpAssignment → UserSmtpAssignment)
    (t : Table UpstreamSmtp) (assignments : List UserSmtpAssignment)
    → ((a : UserSmtpAssignment) → is_owned t.rows (f a) ≡ is_owned t.rows a)
    → IsOwned t assignments
    → IsOwned t (update p f assignments)
update-IsOwned p f t assignments same h = record {
  owned = All-update _ p f assignments (λ a k. ground (arith, same a, k)) h.owned;
  given = h.given;
  one_id = h.one_id;
}

pub assign-IsOwned :
    (a : UserSmtpAssignment) (t : Table UpstreamSmtp) (assignments : List UserSmtpAssignment)
    → is_owned t.rows a ≡ true
    → IsOwned t assignments
    → IsOwned t (assignments ++ a ∷ [])
assign-IsOwned a t assignments k h = record {
  owned = All-append _ assignments (a ∷ []) h.owned (k, tt);
  given = h.given;
  one_id = h.one_id;
}

-- The table after `AssignToUser`.
abbrev pub assigned : ℤ → ℤ → ℤ → Bool → ℕ → Table UserSmtpAssignment → Table UserSmtpAssignment
assigned user_id smtp_id weight enabled now t =
    if any (is_assignment user_id smtp_id) t.rows
    then update_rows (is_assignment user_id smtp_id)
        (λ a. record a { weight = weight; enabled = enabled }) (skip_id t)
    else insert_row
        (λ id. record {
          id = id;
          user_id = user_id;
          smtp_id = smtp_id;
          weight = weight;
          enabled = enabled;
          created_at = now;
        })
        t

pub assigned-IsOwned :
    (user_id smtp_id weight : ℤ) (enabled : Bool) (now : ℕ) (t : Table UpstreamSmtp)
    (assignments : Table UserSmtpAssignment)
    → suits user_id (find (has_id smtp_id) t.rows) ≡ true
    → IsOwned t assignments.rows
    → IsOwned t (assigned user_id smtp_id weight enabled now assignments).rows
assigned-IsOwned user_id smtp_id weight enabled now t assignments k h =
    elim (Bool-cases (any (is_assignment user_id smtp_id) assignments.rows)) [
      | inl e ↦ rw e (
          update-IsOwned (is_assignment user_id smtp_id)
            (λ a. record a { weight = weight; enabled = enabled }) t assignments.rows (λ a. refl) h)
      | inr e ↦ rw e (assign-IsOwned _ t assignments.rows k h)
    ]

-- The server that was created last suits its owner.
pub last-suits :
    (user_id : ℤ) (smtps : List UpstreamSmtp) (s : UpstreamSmtp)
    → s.owner_user_id ≡ user_id
    → count (has_id s.id) (smtps ++ s ∷ []) ≤ 1
    → suits user_id (find (has_id s.id) (smtps ++ s ∷ [])) ≡ true
last-suits user_id smtps s h k = ground (
  arith,
  eqb_ℤ_refl s.id,
  count-append (has_id s.id) smtps (s ∷ []),
  find-last (has_id s.id) smtps s,
  (eqb_ℤ_iff s.owner_user_id user_id).1 h,
)
