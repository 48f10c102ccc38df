-- ===== src/Access/Credentials.antt =====
-- compute_space/src/compute_space/core/auth/auth.py: sessions, API tokens and app tokens, stored by
-- the hash of the token. The hash is a parameter, time is a number of seconds.
pub mod Sessions
use cloud_in_a_bottle.Shared.{
  Bool, List, List_eq, Option, String, String_eq, Text, [], filter, find?, if◌then◌else◌, is_some,
  leb, ltb, none, not, some, ℕ, ℕ_eq, ◌*◌, ◌++◌, ◌+◌, ◌==◌, ◌||◌, ◌∷◌,
}
use cloud_in_a_bottle.Schema.{App}

pub record User : Type 0 where
  pub user_id : ℕ
  pub username : Text

pub record SessionRow : Type 0 where
  pub token_hash : Text
  pub user_id : ℕ
  pub expires_at : ℕ

-- An empty `expires_at` is none.
pub record ApiTokenRow : Type 0 where
  pub token_hash : Text
  pub expires_at : Option ℕ

pub record AppTokenRow : Type 0 where
  pub app_id : String
  pub token_hash : Text

pub record AuthTables : Type 0 where
  pub users : List User
  pub sessions : List SessionRow
  pub api_tokens : List ApiTokenRow
  pub app_tokens : List AppTokenRow
  pub apps : List App

pub data Accessor : Type 0 where
  authenticated_user : ℕ → Text → Accessor
  authenticated_api_key : Accessor
  authenticated_app : String → Accessor

abbrev pub session_ttl_seconds : ℕ
session_ttl_seconds = 28 * 24 * 60 * 60

unfoldable pub with_sessions : List SessionRow → AuthTables → AuthTables
with_sessions sessions t = record {
  users = t.users;
  sessions = sessions;
  api_tokens = t.api_tokens;
  app_tokens = t.app_tokens;
  apps = t.apps;
}

module _ (hash : Text → Text) where
  -- Times are whole seconds, which is what datetime() leaves of them where the sweep compares. The expired
  -- rows go, then the new one is inserted; `token` is drawn at random.
  unfoldable pub create_session : ℕ → ℕ → Text → AuthTables → AuthTables
  unfolding with_sessions
  create_session now user_id token t =
      with_sessions
        (filter (λ (s : SessionRow). not (ltb s.expires_at now)) t.sessions
          ++ record {
            token_hash = hash token;
            user_id = user_id;
            expires_at = now + session_ttl_seconds;
          }
            ∷ [])
        t

  unfoldable pub revoke_session : Text → AuthTables → AuthTables
  unfolding with_sessions
  revoke_session token t =
      with_sessions (filter (λ (s : SessionRow). not (s.token_hash == hash token)) t.sessions) t

  -- sessions JOIN users, by the token's hash.
  unfoldable pub session_row : List User → Text → List SessionRow → Option (SessionRow × User)
  session_row users token_hash [] = none
  session_row users token_hash (s ∷ sessions) =
      let rest = session_row users token_hash sessions in
      if s.token_hash == token_hash
      then elim (find? (λ (u : User). u.user_id == s.user_id) users) [
        | some u ↦ some (s, u)
        | none ↦ rest
      ]
      else rest

  unfoldable pub validate_session_token : ℕ → Text → AuthTables → Option Accessor
  validate_session_token now token t = elim (session_row t.users (hash token) t.sessions) [
    | none ↦ none
    | some c ↦
        if leb now c.0.expires_at then some (authenticated_user c.1.user_id c.1.username) else none
  ]

  unfoldable pub validate_api_token : ℕ → Text → AuthTables → Option Accessor
  validate_api_token now token t =
      elim (find? (λ (r : ApiTokenRow). r.token_hash == hash token) t.api_tokens) [
        | none ↦ none
        | some r ↦ elim r.expires_at [
          | none ↦ some authenticated_api_key
          | some at ↦ if leb now at then some authenticated_api_key else none
        ]
      ]

  -- app_tokens JOIN apps, by the token's hash.
  unfoldable pub app_token_row : List App → Text → List AppTokenRow → Option App
  app_token_row apps token_hash [] = none
  app_token_row apps token_hash (r ∷ rows) =
      let rest = app_token_row apps token_hash rows in
      if r.token_hash == token_hash
      then elim (find? (λ (a : App). a.app_id == r.app_id) apps) [ some a ↦ some a | none ↦ rest ]
      else rest

  unfoldable pub validate_app_token : Text → AuthTables → Option Accessor
  validate_app_token token t = elim (app_token_row t.apps (hash token) t.app_tokens) [
    | none ↦ none
    | some a ↦ some (authenticated_app a.app_id)
  ]

  unfoldable pub is_openhost_credential : ℕ → Text → AuthTables → Bool
  is_openhost_credential now token t =
      is_some (validate_api_token now token t)
      || (is_some (validate_app_token token t) || is_some (validate_session_token now token t))
