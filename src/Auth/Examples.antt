-- ===== src/Auth/Examples.antt =====
-- Concrete runs of the sessions of backend/internal/auth/repository.go: a login, its refresh and a
-- replay of the old token.
use nimbus_storage_platform.Base.{ℕ, ◌≡◌, refl, Option, none, some, List, [], ◌∷◌, arith, find?}
use nimbus_storage_platform.Database.Actions.{ok, err}
use nimbus_storage_platform.Auth.{
  RefreshToken, Sessions, invalid_refresh, with_hash, rotate_refresh_token, rotate_row,
  insert_token, create_refresh_family, Operation, login, refresh, operate, history,
}
use nimbus_storage_platform.Auth.Rotation.{IsSingle, AllFresh, history-IsSingle}
use nimbus_storage_platform.Auth.Reuse.{rotate_refresh_token-reuse}

abbrev no_sessions : Sessions
no_sessions = record { refresh_tokens = []; reset_tokens = []; credentials = [] }

abbrev token : ℕ → ℕ → Option ℕ → RefreshToken
token id hash used = record {
  id = id;
  user_id = 3;
  family_id = 5;
  token_hash = hash;
  used_at = used;
  expires_at = 900;
}

abbrev logged_in : Sessions
logged_in = record no_sessions { refresh_tokens = token 1 40 none ∷ [] }

abbrev rotated : Sessions
rotated = record no_sessions { refresh_tokens = token 2 41 none ∷ token 1 40 (some 100) ∷ [] }

-- User 3 logs in (family 5), refreshes at 100 and replays the old token at 200.
abbrev operations : List Operation
operations = refresh 3 200 40 42 900 ∷ refresh 2 100 40 41 900 ∷ login 1 5 3 40 900 ∷ []

operations-AllFresh : AllFresh operations no_sessions
unfolding history
operations-AllFresh = (tt, (tt, (refl, tt)))

history-IsSingle_example : IsSingle (history operations no_sessions)
history-IsSingle_example =
    history-IsSingle operations no_sessions operations-AllFresh (λ f. omega arith)

replay_ends_the_session : history operations no_sessions ≡ no_sessions
unfolding history operate create_refresh_family rotate_refresh_token rotate_row insert_token
replay_ends_the_session = refl

rotated_40 : rotate_refresh_token 2 100 40 41 900 logged_in ≡ (ok 3, rotated)
unfolding rotate_refresh_token rotate_row insert_token
rotated_40 = refl

rotate_refresh_token-reuse_example :
    let (result, t) = rotate_refresh_token 3 200 40 42 900 rotated in
    (result ≡ err invalid_refresh) × (find? (with_hash 41) t.refresh_tokens ≡ none)
rotate_refresh_token-reuse_example =
    rotate_refresh_token-reuse 2 100 40 41 900 3 200 42 900 logged_in rotated rotated_40
