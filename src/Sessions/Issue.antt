-- ===== src/Sessions/Issue.antt =====
-- packages/database/src/repositories/sessions.ts: the statements that write a token's digest.
use tabela_pubg.Prelude.{
  ℕ, ◌+◌, min, String, Bool, ◌||◌, Option, none, some, List, [], ◌∷◌, ◌++◌, any, if◌then◌else◌,
  str_eq, Result, ok, err, ◌>>=◌, is_some, map_some, first,
}
use tabela_pubg.Sessions.{
  idle_ttl_ms, absolute_ttl_ms, provisional_ttl_ms, session_id, is_trusted, may_rotate, may_replace,
  write_token, SessionTrust, SessionRow,
}

-- The insert fails on a taken id or digest.
unfoldable pub insert_session : List SessionRow → SessionRow → Result (List SessionRow)
insert_session rows row =
    if any (λ r. str_eq r.id row.id) rows || any (λ r. str_eq r.token_digest row.token_digest) rows
    then err "duplicate key value violates unique constraint"
    else ok (rows ++ row ∷ [])

module _ (digest : String → String) where
  -- The row that a sign-in inserts; a given expiry is capped by the lifetime of its trust.
  unfoldable pub identity_session_row :
      String → String → String → SessionTrust → ℕ → ℕ → String → SessionRow
  identity_session_row id user_id token trust issued_at expires_at device_id =
      let lifetime = if is_trusted trust then absolute_ttl_ms else provisional_ttl_ms in
      let idle = if is_trusted trust then idle_ttl_ms else provisional_ttl_ms in
      let absolute = min expires_at (issued_at + lifetime) in
      record {
        id = id;
        user_id = user_id;
        device_id = device_id;
        token_digest = digest token;
        trust = trust;
        issued_at = issued_at;
        last_seen_at = issued_at;
        idle_expires_at = min (issued_at + idle) absolute;
        absolute_expires_at = absolute;
        reauthenticated_at = none;
        revoked_at = none;
        revocation_reason = none;
        created_at = issued_at;
        updated_at = issued_at;
      }

  -- Both rotations set the same columns.
  unfoldable pub rotate_row : String → ℕ → SessionRow → SessionRow
  rotate_row token now r = record r {
    token_digest = digest token;
    last_seen_at = now;
    idle_expires_at = min r.absolute_expires_at (now + idle_ttl_ms);
    reauthenticated_at = some now;
    updated_at = now;
  }

  unfoldable pub rotate_identity_session :
      List SessionRow → String → String → String → ℕ → Result (List SessionRow × Option String)
  rotate_identity_session rows user_id id token reauthenticated_at = do
    let held = may_rotate user_id id reauthenticated_at
    written ← write_token held (rotate_row token reauthenticated_at) (digest token) rows
    ok (written.0, map_some session_id (first written.1))

  -- The new token is 32 random bytes.
  unfoldable pub rotate_session :
      List SessionRow
      → String
      → String
      → String
      → ℕ
      → Result (List SessionRow × Option (String × SessionRow))
  rotate_session rows user_id id token now = do
    let held = may_rotate user_id id now
    written ← write_token held (rotate_row token now) (digest token) rows
    ok (written.0, map_some (λ r. (token, r)) (first written.1))

  unfoldable pub replace_row : String → ℕ → SessionRow → SessionRow
  replace_row token now r = record r { token_digest = digest token; updated_at = now }

  unfoldable pub replace_active_session_token :
      List SessionRow → String → String → String → ℕ → Result (List SessionRow × Bool)
  replace_active_session_token rows user_id id token now = do
    let held = may_replace user_id id now
    written ← write_token held (replace_row token now) (digest token) rows
    ok (written.0, is_some (first written.1))
