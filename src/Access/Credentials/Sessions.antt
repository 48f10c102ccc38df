-- ===== src/Access/Credentials/Sessions.antt =====
-- The life of a session: create_session, validate_session_token and revoke_session of
-- compute_space/src/compute_space/core/auth/auth.py.
use cloud_in_a_bottle.Shared.{
  ==_iff, ==_refl, All, All-filter, Bool, List, List_eq, String_eq, Text, [], arith, false, filter,
  find?, if◌then◌else◌, leb, ltb, none, not, refl, some, ℕ, ℕ_eq, ◌++◌, ◌+◌, ◌==◌, ◌∷◌, ◌≡◌,
}
use cloud_in_a_bottle.Access.Credentials.{
  User, SessionRow, AuthTables, authenticated_user, session_ttl_seconds, create_session,
  revoke_session, session_row, validate_session_token, with_sessions,
}

module _ (hash : Text → Text) where
  session_row-append :
      (users : List User) (h : Text) (sessions : List SessionRow) (s : SessionRow)
      → All (λ (r : SessionRow). (r.token_hash == h) ≡ false) sessions
      → session_row hash users h (sessions ++ s ∷ []) ≡ session_row hash users h (s ∷ [])
  unfolding session_row
  session_row-append users h [] s new = refl
  session_row-append users h (r ∷ sessions) s (other, new) =
      ground (arith, session_row-append users h sessions s new)

  -- A new session holds for its user until its four weeks have passed, and not longer, where no other
  -- session has the token's hash.
  pub create_session-validate :
      (now later : ℕ) (u : User) (token : Text) (t : AuthTables)
      → find? (λ (x : User). x.user_id == u.user_id) t.users ≡ some u
      → All (λ (s : SessionRow). (s.token_hash == hash token) ≡ false) t.sessions
      → validate_session_token hash later token (create_session hash now u.user_id token t) ≡ (
          if leb later (now + session_ttl_seconds)
          then some (authenticated_user u.user_id u.username)
          else none)
  unfolding validate_session_token create_session with_sessions session_row
  create_session-validate now later u token t known new =
      let alive : SessionRow → Bool = λ s. not (ltb s.expires_at now) in
      let fresh : SessionRow = record {
        token_hash = hash token;
        user_id = u.user_id;
        expires_at = now + session_ttl_seconds;
      } in
      ground (
        arith,
        session_row-append t.users (hash token) (filter alive t.sessions) fresh (
            All-filter alive (λ (s : SessionRow). (s.token_hash == hash token) ≡ false) t.sessions
              new),
        ==_refl (hash token),
        known,
      )

  session_row_revoked :
      (users : List User) (h : Text) (sessions : List SessionRow)
      → session_row hash users h (filter (λ (s : SessionRow). not (s.token_hash == h)) sessions)
        ≡ none
  unfolding session_row
  session_row_revoked users h [] = refl
  session_row_revoked users h (s ∷ sessions) = ground (arith, session_row_revoked users h sessions)

  session_row_kept :
      (users : List User) (h k : Text) (sessions : List SessionRow)
      → (h == k) ≡ false
      → session_row hash users k (filter (λ (s : SessionRow). not (s.token_hash == h)) sessions)
        ≡ session_row hash users k sessions
  unfolding session_row
  session_row_kept users h k [] apart = refl
  session_row_kept users h k (s ∷ sessions) apart = ground (
    arith,
    session_row_kept users h k sessions apart,
    ==_iff s.token_hash h,
    ==_iff s.token_hash k,
    ==_iff h k,
  )

  -- A session that is revoked holds at no time, and the sessions of tokens with another hash hold as
  -- before.
  pub revoke_session-validate :
      (token : Text) (t : AuthTables)
      → ((now : ℕ) → validate_session_token hash now token (revoke_session hash token t) ≡ none)
        × ((now : ℕ) (other : Text)
            → (hash token == hash other) ≡ false
            → validate_session_token hash now other (revoke_session hash token t)
              ≡ validate_session_token hash now other t)
  unfolding validate_session_token revoke_session with_sessions
  revoke_session-validate token t = (
    λ now. ground (arith, session_row_revoked t.users (hash token) t.sessions),
    λ now other apart.
        ground (arith, session_row_kept t.users (hash token) (hash other) t.sessions apart),
  )
