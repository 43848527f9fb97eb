-- ===== src/Auth/World.antt =====
-- What backend/internal/auth/service.go works on, and the TOTP statements of repository.go. A call of
-- Postgres or Redis fails where `faults` says so. Raw tokens and their hashes are one number; fresh ones
-- come from `next_id`.
use nimbus_storage_platform.Base.{
  ℕ, suc, Bool, true, false, not, ◌&&◌, Option, none, some, List, [], ◌∷◌, map, filter, find?, any,
  ◌==◌, if◌then◌else◌,
}
use nimbus_storage_platform.Database.Actions.{Result, ok, err, database_error}
use nimbus_storage_platform.Auth.{AuthError, totp_already_enabled, totp_not_enrolled, Sessions}
use nimbus_storage_platform.Auth.Redis.{Entry}

-- A row of user_totp.
pub record Enrollment : Type 0 where
  pub user_id : ℕ
  pub secret : ℕ
  pub confirmed_at : Option ℕ

pub record AuthWorld : Type 0 where
  pub sessions : Sessions
  pub emails : List (ℕ × ℕ)
  pub enrollments : List Enrollment
  pub redis : List Entry
  pub now : ℕ
  pub faults : List Bool
  pub next_id : ℕ

abbrev pub AuthAction : Type 0 → Type 0
AuthAction A = AuthWorld → Result AuthError A × AuthWorld

abbrev pub then_result :
    {A B : Type 0}
    → Result AuthError A × AuthWorld
    → (A → AuthAction B)
    → Result AuthError B × AuthWorld
then_result (ok a, w) next = next a w
then_result (err e, w) next = (err e, w)
then_result (database_error, w) next = (database_error, w)

infixl 5 ◌>>=◌ ◌>>◌
abbrev pub ◌>>=◌ : {A B : Type 0} → AuthAction A → (A → AuthAction B) → AuthAction B
◌>>=◌ first next w = then_result (first w) next

abbrev pub ◌>>◌ : {B : Type 0} → AuthAction (Unit {0}) → AuthAction B → AuthAction B
first >> next = first >>= λ _. next

abbrev pub return : {A : Type 0} → A → AuthAction A
return a w = (ok a, w)

abbrev pub refuse_if : Bool → AuthError → AuthAction (Unit {0})
refuse_if true e w = (err e, w)
refuse_if false e w = (ok tt, w)

abbrev pub reach_with : List Bool → AuthAction (Unit {0})
reach_with [] w = (ok tt, w)
reach_with (true ∷ faults) w = (database_error, record w { faults = faults })
reach_with (false ∷ faults) w = (ok tt, record w { faults = faults })

-- One round trip to Postgres or Redis.
unfoldable pub reach : AuthAction (Unit {0})
reach w = reach_with w.faults w

abbrev pub asks : {A : Type 0} → (AuthWorld → A) → AuthAction A
asks g w = (ok (g w), w)

abbrev pub or_refuse : {A : Type 0} → Option A → AuthError → AuthAction A
or_refuse none e w = (err e, w)
or_refuse (some a) e w = (ok a, w)

abbrev pub fresh : AuthAction ℕ
fresh w = (ok w.next_id, record w { next_id = suc w.next_id })

abbrev pub set_redis : List Entry → AuthAction (Unit {0})
set_redis entries w = (ok tt, record w { redis = entries })

abbrev pub has_enrollment : ℕ → Enrollment → Bool
has_enrollment user_id e = e.user_id == user_id

abbrev pub is_confirmed : Enrollment → Bool
is_confirmed e = elim e.confirmed_at [ none ↦ false | some _ ↦ true ]

-- `GetTOTP`.
unfoldable pub get_totp : ℕ → AuthAction Enrollment
get_totp user_id = do
  reach
  row ← asks (λ w. find? (has_enrollment user_id) w.enrollments)
  or_refuse row totp_not_enrolled

-- `CreateTOTPEnrollment`: an upsert that leaves a confirmed row as it is.
unfoldable pub upsert_enrollment : ℕ → ℕ → List Enrollment → Option (List Enrollment)
upsert_enrollment user_id secret [] =
    some (record { user_id = user_id; secret = secret; confirmed_at = none } ∷ [])
upsert_enrollment user_id secret (e ∷ es) =
    if has_enrollment user_id e
    then (if is_confirmed e then none else some (record e { secret = secret } ∷ es))
    else elim (upsert_enrollment user_id secret es) [ none ↦ none | some rows ↦ some (e ∷ rows) ]

abbrev pub set_enrollments : List Enrollment → AuthAction (Unit {0})
set_enrollments rows w = (ok tt, record w { enrollments = rows })

unfoldable pub create_totp_enrollment : ℕ → ℕ → AuthAction (Unit {0})
create_totp_enrollment user_id secret = do
  reach
  rows ← asks (λ w. upsert_enrollment user_id secret w.enrollments)
  stored ← or_refuse rows totp_already_enabled
  set_enrollments stored

abbrev pub is_pending : ℕ → Enrollment → Bool
is_pending user_id e = has_enrollment user_id e && not (is_confirmed e)

abbrev pub confirm_rows : ℕ → ℕ → List Enrollment → List Enrollment
confirm_rows user_id now =
    map
      (λ (e : Enrollment). if is_pending user_id e then record e { confirmed_at = some now } else e)

-- `ConfirmTOTP` of the repository: no row affected means no pending enrollment.
unfoldable pub mark_confirmed : ℕ → AuthAction (Unit {0})
mark_confirmed user_id = do
  reach
  pending ← asks (λ w. any (is_pending user_id) w.enrollments)
  refuse_if (not pending) totp_not_enrolled
  rows ← asks (λ w. confirm_rows user_id w.now w.enrollments)
  set_enrollments rows

unfoldable pub delete_totp : ℕ → AuthAction (Unit {0})
delete_totp user_id = do
  reach
  rows ← asks (λ w. filter (λ (e : Enrollment). not (has_enrollment user_id e)) w.enrollments)
  set_enrollments rows

-- 30 seconds.
abbrev pub totp_period : ℕ
totp_period = 30000000000

abbrev pub totp_skew : ℕ
totp_skew = 1

-- Five minutes.
abbrev pub totp_challenge_ttl : ℕ
totp_challenge_ttl = 300000000000

-- An access token, as its verified claims.
pub record AccessToken : Type 0 where
  pub user_id : ℕ
  pub jti : ℕ
  pub expires_at : ℕ

pub record TokenPair : Type 0 where
  pub access_token : AccessToken
  pub refresh_token : ℕ

pub data LoginResult : Type 0 where
  tokens : TokenPair → LoginResult
  totp_required : ℕ → LoginResult
