-- ===== src/Database/Laws.antt =====
-- What a call of the database leaves alone, and what a successful one returns.
use nimbus_storage_platform.Base.{ℕ, ◌≡◌, refl, ◌⊎◌, [], arith}
use nimbus_storage_platform.Database.{Db}
use nimbus_storage_platform.Database.Actions.{
  World, Result, ok, err, database_error, call, exec, query,
}

-- The same tables, time and identifiers: only the faults ahead may differ.
pub record SameData (v w : World) : Type 0 where
  pub same_db : v.db ≡ w.db
  pub same_now : v.now ≡ w.now
  pub same_ids : v.next_id ≡ w.next_id

abbrev pub after : {E A : Type 0} → Result E A × World → World
after r = r.1

module _ (E : Type 0) {A : Type 0} where
  -- A query changes nothing, and returns what it reads or a database error.
  pub query-SameData : (g : Db → A) (w : World) → SameData (query {E = E} g w).1 w
  unfolding query call
  query-SameData g w = ground arith

  pub query-cases :
      (g : Db → A) (w : World)
      → ((query {E = E} g w).0 ≡ ok (g w.db)) ⊎ ((query {E = E} g w).0 ≡ database_error)
  unfolding query call
  query-cases g w = ground arith

module _ {E A : Type 0} where
  pub query-ok :
      (g : Db → A) (w : World) {a : A} {v : World}
      → query {E = E} g w ≡ (ok a, v)
      → (a ≡ g w.db) × SameData v w
  unfolding query call
  query-ok g w h = ground arith

module _ {E : Type 0} where
  pub exec-ok :
      (f : ℕ → Db → Db) (w : World) {v : World}
      → exec {E = E} f w ≡ (ok tt, v)
      → (v.db ≡ f w.now w.db) × (v.now ≡ w.now)
  unfolding exec call
  exec-ok f w h = ground arith

  pub exec-failed :
      (f : ℕ → Db → Db) (w : World) {v : World}
      → exec {E = E} f w ≡ (database_error, v)
      → v.db ≡ w.db
  unfolding exec call
  exec-failed f w h = ground arith

  pub exec-err : (f : ℕ → Db → Db) (w : World) {e : E} {v : World} → exec f w ≡ (err e, v) → ⊥
  unfolding exec call
  exec-err f w h = ground arith

-- Statements where no call fails.
pub exec-calm :
    {E : Type 0} (f : ℕ → Db → Db) (w : World)
    → w.faults ≡ []
    → exec {E = E} f w ≡ (ok tt, record w { db = f w.now w.db })
unfolding exec call
exec-calm f w calm = rw calm refl

pub query-calm :
    {E A : Type 0} (g : Db → A) (w : World) → w.faults ≡ [] → query {E = E} g w ≡ (ok (g w.db), w)
unfolding query call
query-calm g w calm = rw calm refl
