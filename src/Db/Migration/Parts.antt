-- ===== src/Db/Migration/Parts.antt =====
-- What a step of OpenAndMigrate that succeeds leaves, and what it has set up.
use smmail.Prelude.{
  ◌≡◌, refl, inl, inr, Bool, true, ◌&&◌, Bytes, eqb_refl, List, [], ◌∷◌, ◌++◌, Option, none, some,
  any, update, All, All-append, All-append_left, All-append_right, Bool-cases, arith,
}
use smmail.Runtime.{World, Error, Result, ok, err, tick}
use smmail.Repo.Packages.{is_named}
use smmail.Db.Schema.{
  Column, TableSchema, Schema, is_table, is_column, has_table, has_column, create_table,
  with_column,
}
use smmail.Db.Migration.{File, Setup, and_then, ◌>>◌, create, effect, unless}

-- What a file may have: a table, a column of a table, a package of a name.
pub data Part : Type 0 where
  table : Bytes → Part
  column_of : Bytes → Bytes → Part
  package_named : Bytes → Part

abbrev pub has : Part → File → Bool
has (table name) file = has_table name file.schema
has (column_of name c) file = has_column name c file.schema
has (package_named name) file = any (is_named name) file.world.db.package_plans.rows

-- Nothing is lost.
pub record Grows (f g : File) : Type 0 where
  pub kept : (x : Part) → has x f ≡ true → has x g ≡ true

pub Grows-refl : (f : File) → Grows f f
Grows-refl f = record { kept = λ x h. h }

pub Grows-trans : (f g k : File) → Grows f g → Grows g k → Grows f k
Grows-trans f g k p q = record { kept = λ x h. q.kept x (p.kept x h) }

abbrev pub Has : List Part → File → Type 0
Has parts file = All (λ x. has x file ≡ true) parts

Has-Grows : (parts : List Part) (f g : File) → Grows f g → Has parts f → Has parts g
Has-Grows [] f g p h = tt
Has-Grows (x ∷ parts) f g p (h, rest) = (p.kept x h, Has-Grows parts f g p rest)

pub Has-left : (parts more : List Part) (f : File) → Has (parts ++ more) f → Has parts f
Has-left parts more f h = All-append_left (λ x. has x f ≡ true) parts more h

pub Has-right : (parts more : List Part) (f : File) → Has (parts ++ more) f → Has more f
Has-right parts more f h = All-append_right (λ x. has x f ≡ true) parts more h

-- A run that succeeds loses nothing, and sets the parts up.
pub record SetsUp (parts : List Part) (m : Setup) : Type 0 where
  pub at : (f : File) → (m f).0 ≡ ok tt → Grows f (m f).1 × Has parts (m f).1

module _ (parts more : List Part) (next : Setup) (k : SetsUp more next) where
  then_sets :
      (r : Result (Unit {0})) (f g : File)
      → (r ≡ ok tt → Grows f g × Has parts g)
      → (and_then next r g).0 ≡ ok tt
      → Grows f (and_then next r g).1 × Has (parts ++ more) (and_then next r g).1
  then_sets (ok done) f g h e =
      let (grows, parts_there) = h refl in
      let (grows', more_there) = k.at g e in
      (
        Grows-trans f g (next g).1 grows grows',
        All-append (λ (x : Part). has x (next g).1 ≡ true) parts more
            (Has-Grows parts g (next g).1 grows' parts_there) more_there,
      )
  then_sets (err x) f g h e = absurd cc

  pub SetsUp-then : (m : Setup) → SetsUp parts m → SetsUp (parts ++ more) (m >> next)
  unfolding ◌>>◌
  SetsUp-then m s = record { at = λ f e. then_sets (m f).0 f (m f).1 (s.at f) e }

pub SetsUp-unless : (e : Option Error) → SetsUp [] (unless e)
SetsUp-unless none = record { at = λ f e. (Grows-refl f, tt) }
SetsUp-unless (some x) = record { at = λ f e. absurd cc }

-- What a statement that succeeds does to a schema.
pub record Extends (parts : List Part) (s s' : Schema) : Type 0 where
  pub tables : (n : Bytes) → has_table n s ≡ true → has_table n s' ≡ true
  pub columns : (n c : Bytes) → has_column n c s ≡ true → has_column n c s' ≡ true
  pub there : (w : World) → Has parts (record { schema = s'; world = w })

pub Extends-Grows :
    (parts : List Part) (file : File) (s : Schema)
    → Extends parts file.schema s
    → Grows file (record { schema = s; world = tick file.world })
Extends-Grows parts file s e = record { kept = λ x h. kept_part x h }
  where
    kept_part :
        (x : Part)
        → has x file ≡ true
        → has x (record { schema = s; world = tick file.world }) ≡ true
    kept_part (table n) h = e.tables n h
    kept_part (column_of n c) h = e.columns n c h
    kept_part (package_named n) h = h

pub any-append_left {ℓ} :
    {A : Type ℓ} (p : A → Bool) (xs ys : List A) → any p xs ≡ true → any p (xs ++ ys) ≡ true
any-append_left p [] ys h = absurd cc
any-append_left p (x ∷ xs) ys h = ground (arith, any-append_left p xs ys)

pub any-append_last {ℓ} :
    {A : Type ℓ} (p : A → Bool) (xs : List A) (y : A) → p y ≡ true → any p (xs ++ y ∷ []) ≡ true
any-append_last p [] y h = rw h refl
any-append_last p (x ∷ xs) y h = ground (arith, any-append_last p xs y h)

any-update {ℓ} :
    {A : Type ℓ} (p q : A → Bool) (f : A → A)
    → ((x : A) → p x ≡ true → p (f x) ≡ true)
    → (xs : List A) → any p xs ≡ true
    → any p (update q f xs) ≡ true
any-update p q f keep [] h = absurd cc
any-update p q f keep (x ∷ xs) h = ground (arith, keep x, any-update p q f keep xs)

any-update_some {ℓ} :
    {A : Type ℓ} (p q : A → Bool) (f : A → A)
    → ((x : A) → q x ≡ true → p (f x) ≡ true)
    → (xs : List A) → any q xs ≡ true
    → any p (update q f xs) ≡ true
any-update_some p q f gain [] h = absurd cc
any-update_some p q f gain (x ∷ xs) h = ground (arith, gain x, any-update_some p q f gain xs)

pub effect-Extends :
    (t : TableSchema) (s : Schema) → Extends (table t.name ∷ []) s (effect (create t) s)
unfolding create_table
effect-Extends t s = elim (Bool-cases (has_table t.name s)) [
  | inl e ↦ rw e (record { tables = λ n h. h; columns = λ n c h. h; there = λ w. (e, tt) })
  | inr e ↦ rw e (record {
    tables = λ n h. any-append_left (is_table n) s (t ∷ []) h;
    columns = λ n c h. any-append_left _ s (t ∷ []) h;
    there = λ w. (any-append_last (is_table t.name) s t (eqb_refl t.name), tt);
  })
]

has_new_column :
    (n : Bytes) (c : Column) (t : TableSchema)
    → is_table n t ≡ true
    → is_table n (with_column c t) && any (is_column c.name) (with_column c t).columns ≡ true
has_new_column n c t h =
    rw (h, any-append_last (is_column c.name) t.columns c (eqb_refl c.name)) refl

keeps_column :
    (n m : Bytes) (c : Column) (t : TableSchema)
    → is_table n t && any (is_column m) t.columns ≡ true
    → is_table n t && any (is_column m) (t.columns ++ c ∷ []) ≡ true
keeps_column n m c t h = ground (arith, h, any-append_left (is_column m) t.columns (c ∷ []))

pub with_column-Extends :
    (n : Bytes) (c : Column) (s : Schema)
    → has_table n s ≡ true
    → Extends (column_of n c.name ∷ []) s (update (is_table n) (with_column c) s)
with_column-Extends n c s e = record {
  tables = λ k h. any-update (is_table k) (is_table n) (with_column c) (λ t g. g) s h;
  columns = λ k m h. any-update _ (is_table n) (with_column c) (keeps_column k m c) s h;
  there = λ w. (any-update_some _ (is_table n) (with_column c) (has_new_column n c) s e, tt);
}
