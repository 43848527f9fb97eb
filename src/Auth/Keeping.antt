-- ===== src/Auth/Keeping.antt =====
-- The statements and steps that backend/internal/auth/service.go is made of, and the burnt time steps
-- that they leave in Redis.
use nimbus_storage_platform.Base.{
  ℕ, ◌≡◌, Bool, true, false, not, Option, none, some, arith, find?, any,
}
use nimbus_storage_platform.Database.Actions.{Result, ok, err, database_error}
use nimbus_storage_platform.Auth.{AuthError, totp_not_enrolled, totp_already_enabled}
use nimbus_storage_platform.Auth.World.{
  AuthWorld, AuthAction, then_result, ◌>>=◌, ◌>>◌, refuse_if, reach, asks, or_refuse,
  has_enrollment, get_totp, upsert_enrollment, create_totp_enrollment, set_enrollments, is_pending,
  confirm_rows, mark_confirmed, delete_totp,
}
use nimbus_storage_platform.Auth.Service.{if_reached, unchecked}
use nimbus_storage_platform.Auth.Codes.{Burnt}

module _ (user_id step until : ℕ) where
  abbrev pub Keeps : {A : Type 0} → AuthAction A → Type 0
  Keeps m = (w : AuthWorld) → Burnt user_id step until w → Burnt user_id step until (m w).1

  pub then_result-Burnt :
      {A B : Type 0} (r : Result AuthError A) (w : AuthWorld) (next : A → AuthAction B)
      → ((a : A) → Keeps (next a))
      → Burnt user_id step until w
      → Burnt user_id step until (then_result (r, w) next).1
  then_result-Burnt (ok a) w next rest h = rest a w h
  then_result-Burnt (err e) w next rest h = h
  then_result-Burnt database_error w next rest h = h

  pub >>=-Keeps :
      {A B : Type 0} (first : AuthAction A) (next : A → AuthAction B)
      → Keeps first
      → ((a : A) → Keeps (next a))
      → Keeps (first >>= next)
  >>=-Keeps first next h k w b = then_result-Burnt (first w).0 (first w).1 next k (h w b)

  pub >>-Keeps :
      {B : Type 0} (first : AuthAction (Unit {0})) (next : AuthAction B)
      → Keeps first
      → Keeps next
      → Keeps (first >> next)
  >>-Keeps first next h k = >>=-Keeps first (λ _. next) h (λ _. k)

  reach-redis : (w : AuthWorld) → (reach w).1.redis ≡ w.redis
  unfolding reach
  reach-redis w = ground arith

  pub reach-Keeps : Keeps reach
  reach-Keeps w h = rw (reach-redis w) h

  pub refuse_if-Keeps : (bad : Bool) (e : AuthError) → Keeps (refuse_if bad e)
  refuse_if-Keeps true e w h = h
  refuse_if-Keeps false e w h = h

  pub or_refuse-Keeps : {A : Type 0} (row : Option A) (e : AuthError) → Keeps (or_refuse row e)
  or_refuse-Keeps none e w h = h
  or_refuse-Keeps (some a) e w h = h

  pub get_totp-Keeps : (u : ℕ) → Keeps (get_totp u)
  unfolding get_totp
  get_totp-Keeps u =
      >>-Keeps reach
        (asks (λ w. find? (has_enrollment u) w.enrollments) >>= λ row.
          or_refuse row totp_not_enrolled)
        reach-Keeps
        (λ w h. or_refuse-Keeps (find? (has_enrollment u) w.enrollments) totp_not_enrolled w h)

  if_reached-Burnt :
      (r : Result AuthError (Unit {0})) (change : AuthWorld → AuthWorld) (w : AuthWorld)
      → ((v : AuthWorld) → Burnt user_id step until v → Burnt user_id step until (change v))
      → Burnt user_id step until w
      → Burnt user_id step until (if_reached r change w)
  if_reached-Burnt (ok _) change w keeps h = keeps w h
  if_reached-Burnt (err e) change w keeps h = h
  if_reached-Burnt database_error change w keeps h = h

  pub unchecked-Keeps :
      (change : AuthWorld → AuthWorld)
      → ((v : AuthWorld) → Burnt user_id step until v → Burnt user_id step until (change v))
      → Keeps (unchecked change)
  unchecked-Keeps change keeps w h =
      if_reached-Burnt (reach w).0 change (reach w).1 keeps (reach-Keeps w h)

  pub create_totp_enrollment-Keeps : (u secret : ℕ) → Keeps (create_totp_enrollment u secret)
  unfolding create_totp_enrollment
  create_totp_enrollment-Keeps u secret = >>-Keeps reach _ reach-Keeps (λ w h.
      >>=-Keeps (or_refuse (upsert_enrollment u secret w.enrollments) totp_already_enabled)
        set_enrollments
        (or_refuse-Keeps (upsert_enrollment u secret w.enrollments) totp_already_enabled)
        (λ rows v k. k) w h)

  pub mark_confirmed-Keeps : (u : ℕ) → Keeps (mark_confirmed u)
  unfolding mark_confirmed
  mark_confirmed-Keeps u = >>-Keeps reach _ reach-Keeps (λ w h.
      >>-Keeps (refuse_if (not (any (is_pending u) w.enrollments)) totp_not_enrolled)
        (asks (λ v. confirm_rows u v.now v.enrollments) >>= set_enrollments)
        (refuse_if-Keeps (not (any (is_pending u) w.enrollments)) totp_not_enrolled) (λ v k. k) w h)

  pub delete_totp-Keeps : (u : ℕ) → Keeps (delete_totp u)
  unfolding delete_totp
  delete_totp-Keeps u = >>-Keeps reach _ reach-Keeps (λ w h. h)
