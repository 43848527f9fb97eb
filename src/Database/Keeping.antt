-- ===== src/Database/Keeping.antt =====
-- What an action keeps true of the tables, however it ends: put together from what its statements
-- keep.
use nimbus_storage_platform.Base.{ℕ, ◌≡◌, Bool, true, false, Option, none, some, arith}
use nimbus_storage_platform.Database.{Db}
use nimbus_storage_platform.Database.Actions.{
  M, World, Result, ok, err, database_error, bind_result, ◌>>=◌, ◌>>◌, reject_if, call, exec, query,
  write, read, new_uuid, or_throw,
}
use nimbus_storage_platform.Database.Transactions.{Body, transaction, transaction_preserves}

abbrev pub Keeps : (Db → Type 0) → {E A : Type 0} → M E A → Type 0
Keeps P m = (w : World) → P w.db → P (m w).1.db

module _ (P : Db → Type 0) (E : Type 0) where
  bind_result-Keeps :
      {A B : Type 0} (r : Result E A) (w : World) (f : A → M E B)
      → ((a : A) → Keeps P (f a))
      → P w.db
      → P (bind_result r w f).1.db
  bind_result-Keeps (ok a) w f rest h = rest a w h
  bind_result-Keeps (err e) w f rest h = h
  bind_result-Keeps database_error w f rest h = h

  pub >>=-Keeps :
      {A B : Type 0} (m : M E A) (f : A → M E B)
      → Keeps P m
      → ((a : A) → Keeps P (f a))
      → Keeps P (m >>= f)
  >>=-Keeps m f first rest w h = bind_result-Keeps (m w).0 (m w).1 f rest (first w h)

  pub >>-Keeps :
      {B : Type 0} (m : M E (Unit {0})) (k : M E B) → Keeps P m → Keeps P k → Keeps P (m >> k)
  >>-Keeps m k first rest = >>=-Keeps m (λ _. k) first (λ _. rest)

  pub reject_if-Keeps : (bad : Bool) (e : E) → Keeps P (reject_if bad e)
  reject_if-Keeps true e w h = h
  reject_if-Keeps false e w h = h

  call-db : (w : World) → (call {E = E} w).1.db ≡ w.db
  unfolding call
  call-db w = ground arith

  pub call-Keeps : Keeps P (call {E = E})
  call-Keeps w h = rw (call-db w) h

  pub new_uuid-Keeps : Keeps P (new_uuid {E = E})
  unfolding new_uuid
  new_uuid-Keeps w h = h

  pub query-Keeps : {A : Type 0} (g : Db → A) → Keeps P (query {E = E} g)
  unfolding query
  query-Keeps g = >>-Keeps call (read g) call-Keeps (λ w h. h)

  pub or_throw-Keeps : {A : Type 0} (row : Option A) (e : E) → Keeps P (or_throw row e)
  or_throw-Keeps none e w h = h
  or_throw-Keeps (some a) e w h = h

  pub exec-Keeps :
      (f : ℕ → Db → Db) → ((now : ℕ) (db : Db) → P db → P (f now db)) → Keeps P (exec {E = E} f)
  unfolding exec
  exec-Keeps f keeps = >>-Keeps call (λ w. write (f w.now) w) call-Keeps (λ w h. keeps w.now w.db h)

  pub transaction-Keeps :
      {A : Type 0} (body : Body E A)
      → ((now : ℕ) (db db' : Db) (a : A) → P db → body now db ≡ ok (a, db') → P db')
      → Keeps P (transaction body)
  transaction-Keeps body keeps w h =
      transaction_preserves body P w h (λ a db made. keeps w.now w.db db a h made)
