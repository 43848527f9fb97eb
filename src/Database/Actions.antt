-- ===== src/Database/Actions.antt =====
-- Actions on the database: a call may fail, and an action returns the world it leaves also where it
-- fails. `database_error` is an error that Postgres or the connection reports; `err` carries the
-- code's own errors.
use nimbus_storage_platform.Base.{
  ℕ, suc, Bool, true, false, List, [], ◌∷◌, ◌≡◌, refl, ◌⊎◌, arith, inl, inr, Option, none, some,
}
use nimbus_storage_platform.Database.{Db}

pub record World : Type 0 where
  pub db : Db
  pub now : ℕ
  pub faults : List Bool
  pub next_id : ℕ

pub data Result (E A : Type 0) : Type 0 where
  ok : A → Result E A
  err : E → Result E A
  database_error : Result E A

abbrev pub M : Type 0 → Type 0 → Type 0
M E A = World → Result E A × World

abbrev pub bind_result : {E A B : Type 0} → Result E A → World → (A → M E B) → Result E B × World
bind_result (ok a) w f = f a w
bind_result (err e) w f = (err e, w)
bind_result database_error w f = (database_error, w)

infixl 5 ◌>>=◌ ◌>>◌
abbrev pub ◌>>=◌ : {E A B : Type 0} → M E A → (A → M E B) → M E B
◌>>=◌ m f w = bind_result (m w).0 (m w).1 f

abbrev pub ◌>>◌ : {E B : Type 0} → M E (Unit {0}) → M E B → M E B
◌>>◌ m k = m >>= λ _. k

abbrev pub return : {E A : Type 0} → A → M E A
return a w = (ok a, w)

abbrev pub throw : {E A : Type 0} → E → M E A
throw e w = (err e, w)

-- `if bad { return err }`.
abbrev pub reject_if : {E : Type 0} → Bool → E → M E (Unit {0})
reject_if true e w = (err e, w)
reject_if false e w = (ok tt, w)

abbrev pub call_with : {E : Type 0} → List Bool → World → Result E (Unit {0}) × World
call_with [] w = (ok tt, w)
call_with (true ∷ faults) w = (database_error, record w { faults = faults })
call_with (false ∷ faults) w = (ok tt, record w { faults = faults })

-- One round trip to the database.
unfoldable pub call : {E : Type 0} → M E (Unit {0})
call w = call_with w.faults w

-- A write of the tables, as part of a statement that has been sent.
abbrev pub write : {E : Type 0} → (Db → Db) → M E (Unit {0})
write f w = (ok tt, record w { db = f w.db })

abbrev pub read : {E A : Type 0} → (Db → A) → M E A
read g w = (ok (g w.db), w)

-- A statement that writes, given the time of the server, and a query.
unfoldable pub exec : {E : Type 0} → (ℕ → Db → Db) → M E (Unit {0})
exec f = call >> λ w. write (f w.now) w

unfoldable pub query : {E A : Type 0} → (Db → A) → M E A
query g = call >> read g

-- idgen.NewUUID: a fresh identifier.
unfoldable pub new_uuid : {E : Type 0} → M E ℕ
new_uuid w = (ok w.next_id, record w { next_id = suc w.next_id })

-- An effect whose failure is logged and not returned.
abbrev pub best_effort : {E F : Type 0} → M F (Unit {0}) → M E (Unit {0})
best_effort m w = (ok tt, (m w).1)

-- `nil` with an error beside it: a missing row.
abbrev pub or_throw : {E A : Type 0} → Option A → E → M E A
or_throw none e w = (err e, w)
or_throw (some a) e w = (ok a, w)

-- A successful bind went through its first part.
pub >>=-ok :
    {E A B : Type 0} (m : M E A) (f : A → M E B) (w : World) {b : B} {w' : World}
    → (m >>= f) w ≡ (ok b, w')
    → (a : A) × (v : World) × (m w ≡ (ok a, v)) × (f a v ≡ (ok b, w'))
>>=-ok {E} {A} {B} m f w {b} {w'} h = go (m w).0 (m w).1 refl h
  where
    go :
        (r : Result E A) (v : World)
        → m w ≡ (r, v)
        → bind_result r v f ≡ (ok b, w')
        → (a : A) × (v' : World) × (m w ≡ (ok a, v')) × (f a v' ≡ (ok b, w'))
    go (ok a) v e k = (a, v, e, k)
    go (err x) v e k = cc
    go database_error v e k = cc

-- A bind that fails with an error of the code's own fails in one of its parts.
pub >>=-err :
    {E A B : Type 0} (m : M E A) (f : A → M E B) (w : World) {e : E} {w' : World}
    → (m >>= f) w ≡ (err e, w')
    → (m w ≡ (err e, w')) ⊎ ((a : A) × (v : World) × (m w ≡ (ok a, v)) × (f a v ≡ (err e, w')))
>>=-err {E} {A} {B} m f w {e} {w'} h = go (m w).0 (m w).1 refl h
  where
    go :
        (r : Result E A) (v : World)
        → m w ≡ (r, v)
        → bind_result r v f ≡ (err e, w')
        → (m w ≡ (err e, w'))
          ⊎ ((a : A) × (v' : World) × (m w ≡ (ok a, v')) × (f a v' ≡ (err e, w')))
    go (ok a) v p k = inr (a, v, p, k)
    go (err x) v p k = inl (ground arith)
    go database_error v p k = cc
