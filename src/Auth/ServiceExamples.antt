-- ===== src/Auth/ServiceExamples.antt =====
-- Concrete runs of backend/internal/auth/service.go: user 3 has a confirmed enrollment and a pending
-- login challenge.
use nimbus_storage_platform.Base.{◌+◌, ◌≡◌, refl, ap, ◌⊎◌, true, false, none, some, [], ◌∷◌, ◌==◌}
use nimbus_storage_platform.Database.Actions.{ok, err, database_error}
use nimbus_storage_platform.Auth.{
  invalid_totp_code, invalid_token, create_refresh_family, insert_token,
}
use nimbus_storage_platform.Auth.Redis.{
  totp_used, totp_challenge, blacklist, redis_get, redis_set, redis_del,
}
use nimbus_storage_platform.Auth.World.{
  Enrollment, AuthWorld, AccessToken, TokenPair, get_totp, reach,
}
use nimbus_storage_platform.Auth.Service.{
  Crypto, burn, first_match, verify_totp, verify_totp_once, complete_totp_login, logout,
  verify_access_token, issue_new_session,
}
use nimbus_storage_platform.Auth.Login.{
  Serves, done, step, wait, finish_login, serve, verify_totp_once_burns,
}
use nimbus_storage_platform.Auth.Steps.{
  IsProven, IsLost, logout_ends_access, complete_totp_login-IsProven,
}

-- Codes that are the sum of secret and step.
abbrev crypto : Crypto
crypto = record {
  totp_code = λ key s. key + s;
  decode = λ secret. some secret;
  verify_password = λ hash password. hash == password;
  signed = λ token. true;
  access_ttl = 100;
  refresh_ttl = 1000;
}

abbrev enrollment : Enrollment
enrollment = record { user_id = 3; secret = 10; confirmed_at = some 1 }

-- In the time step 3.
abbrev world : AuthWorld
world = record {
  sessions = record {
    refresh_tokens = [];
    reset_tokens = [];
    credentials = record { user_id = 3; password_hash = 77 } ∷ [];
  };
  emails = (5, 3) ∷ [];
  enrollments = enrollment ∷ [];
  redis = record { key = totp_challenge 40; value = 3; expires_at = 95000000000 } ∷ [];
  now = 90000000000;
  faults = [];
  next_id = 100;
}

-- The code of step 3 is burnt until 180 seconds.
abbrev burnt : AuthWorld
burnt = record world {
  redis =
      record { key = totp_used 3 3; value = 1; expires_at = 180000000000 }
      ∷ record { key = totp_challenge 40; value = 3; expires_at = 95000000000 }
      ∷ [];
}

matches_3 : verify_totp crypto 10 13 90000000000 ≡ some 3
unfolding verify_totp first_match
matches_3 = refl

accepted : verify_totp_once crypto 3 10 13 world ≡ (ok tt, burnt)
unfolding verify_totp_once verify_totp first_match reach burn redis_get redis_set redis_del
accepted = refl

abbrev later : AuthWorld
later =
    serve crypto (finish_login 40 13)
      (record burnt { now = 119000000000; next_id = 200; faults = [] })

served : Serves crypto burnt later
served = wait 119000000000 200 [] (step (finish_login 40 13) (done later))

later-now : later.now ≡ 119000000000
unfolding serve complete_totp_login reach redis_get
later-now = refl

matches_later : verify_totp crypto 10 13 later.now ≡ some 3
unfolding verify_totp first_match
matches_later = rw later-now refl

verify_totp_once_burns_example :
    ((verify_totp_once crypto 3 10 13 later).0 ≡ err invalid_totp_code)
    ⊎ ((verify_totp_once crypto 3 10 13 later).0 ≡ database_error)
verify_totp_once_burns_example =
    verify_totp_once_burns crypto 3 10 13 10 13 3 world burnt later matches_3 accepted served
      matches_later

abbrev access : AccessToken
access = record { user_id = 3; jti = 8; expires_at = 90000000100 }

abbrev logged_out : AuthWorld
logged_out = record world {
  redis =
      record { key = blacklist 8; value = 1; expires_at = 90000000100 }
      ∷ record { key = totp_challenge 40; value = 3; expires_at = 95000000000 }
      ∷ [];
}

logs_out : logout crypto none (some access) world ≡ (ok tt, logged_out)
unfolding logout reach redis_set redis_del
logs_out = refl

logout_ends_access_example :
    let u = record logged_out { now = 90000000050; faults = false ∷ [] } in
    (((verify_access_token crypto access u).0 ≡ err invalid_token)
      ⊎ ((verify_access_token crypto access u).0 ≡ database_error))
    ⊎ IsLost crypto world logged_out
logout_ends_access_example =
    logout_ends_access crypto none access world logged_out 90000000050 (false ∷ []) refl logs_out

-- The SET fails, and the token is accepted.
logout_lost :
    logout crypto none (some access) (record world { faults = true ∷ [] }) ≡ (ok tt, world)
unfolding logout reach
logout_lost = refl

still_accepted : (verify_access_token crypto access world).0 ≡ ok 3
unfolding verify_access_token reach redis_get
still_accepted = refl

abbrev pair : TokenPair
pair = record {
  access_token = record { user_id = 3; jti = 100; expires_at = 90000000100 };
  refresh_token = 101;
}

abbrev finished : AuthWorld
finished = (complete_totp_login crypto 40 13 world).1

finishes : (complete_totp_login crypto 40 13 world).0 ≡ ok pair
unfolding complete_totp_login reach redis_get get_totp verify_totp_once verify_totp first_match burn
    redis_set redis_del issue_new_session create_refresh_family insert_token
finishes = refl

complete_totp_login-IsProven_example : IsProven crypto 40 13 world
complete_totp_login-IsProven_example =
    complete_totp_login-IsProven crypto 40 13 world (ap (λ r. (r, finished)) finishes)
