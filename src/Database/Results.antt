-- ===== src/Database/Results.antt =====
-- Chains of results, for operations that report an error and keep no more state than they return.
use nimbus_storage_platform.Base.{◌≡◌, refl, Bool, true, false}
use nimbus_storage_platform.Database.Actions.{Result, ok, err, database_error}

infixl 5 ◌>>=◌ ◌>>◌
abbrev pub ◌>>=◌ : {E A B : Type 0} → Result E A → (A → Result E B) → Result E B
database_error >>= next = database_error
err failure >>= next = err failure
ok found >>= next = next found

abbrev pub ◌>>◌ : {E B : Type 0} → Result E (Unit {0}) → Result E B → Result E B
first >> next = first >>= λ _. next

abbrev pub reject_if : {E : Type 0} → Bool → E → Result E (Unit {0})
reject_if true e = err e
reject_if false e = ok tt

-- `if err != nil { return ErrX }`.
abbrev pub or_else : {E A : Type 0} → Result E A → E → Result E A
or_else (ok a) e = ok a
or_else (err _) e = err e
or_else database_error e = err e

-- A successful chain went through its first part.
pub chain-ok :
    {E A B : Type 0} (first : Result E A) (next : A → Result E B) {b : B}
    → first >>= next ≡ ok b
    → (found : A) × (first ≡ ok found) × (next found ≡ ok b)
chain-ok database_error next h = cc
chain-ok (err failure) next h = cc
chain-ok (ok found) next h = (found, refl, h)

pub rejected-ok :
    {E B : Type 0} (bad : Bool) (e : E) (next : Result E B) {b : B}
    → reject_if bad e >> next ≡ ok b
    → (bad ≡ false) × (next ≡ ok b)
rejected-ok true e next h = cc
rejected-ok false e next h = (refl, h)

pub ok-injective : {E A : Type 0} {a b : A} → ◌≡◌ {A = Result E A} (ok a) (ok b) → a ≡ b
ok-injective h = cc
