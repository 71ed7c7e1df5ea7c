-- ===== src/Sessions.antt =====
-- packages/database/src/repositories/sessions.ts over the tables of
-- packages/database/src/schema/identity.ts: the sessions of the users. Times are milliseconds; a
-- time that the source subtracts from is written with a sum on the other side. `digest` is the
-- hash of a token. Columns that none of these statements reads or writes are left out.
pub mod Issue
pub mod Lookup
pub mod Rows
pub mod Tokens
pub mod History
pub mod Lifetimes
pub mod Resolution
pub mod Effects
pub mod Rotations
pub mod Promotions
pub mod AlertContexts
pub mod Tests
use tabela_pubg.Prelude.{
  ℕ, ◌+◌, ◌*◌, min, String, Bool, true, false, not, ◌&&◌, ◌||◌, Option, none, some, List, [], ◌∷◌,
  ◌++◌, any, update, returning, find, length, leb, ltb, if◌then◌else◌, str_eq, Result, ok, err,
  ◌>>=◌, is_none, is_some, map_some, bind_some, first, join_one, select,
}

abbrev pub idle_ttl_ms : ℕ
idle_ttl_ms = 30 * 24 * 60 * 60000

abbrev pub absolute_ttl_ms : ℕ
absolute_ttl_ms = 90 * 24 * 60 * 60000

abbrev pub provisional_ttl_ms : ℕ
provisional_ttl_ms = 15 * 60000

abbrev pub touch_coalesce_ms : ℕ
touch_coalesce_ms = 5 * 60000

pub data SessionTrust : Type 0 where
  provisional trusted : SessionTrust

pub data UserStatus : Type 0 where
  active suspended : UserStatus

pub record SessionRow : Type 0 where
  pub id : String
  pub user_id : String
  pub device_id : String
  pub token_digest : String
  pub trust : SessionTrust
  pub issued_at : ℕ
  pub last_seen_at : ℕ
  pub idle_expires_at : ℕ
  pub absolute_expires_at : ℕ
  pub reauthenticated_at : Option ℕ
  pub revoked_at : Option ℕ
  pub revocation_reason : Option String
  pub created_at : ℕ
  pub updated_at : ℕ

pub record DeviceRow : Type 0 where
  pub id : String
  pub user_id : String
  pub device_digest : String
  pub label : String
  pub browser : String
  pub operating_system : String
  pub first_seen_at : ℕ
  pub last_seen_at : ℕ

pub record UserRow : Type 0 where
  pub id : String
  pub status : UserStatus

pub record Resolved : Type 0 where
  pub session : SessionRow
  pub device : DeviceRow
  pub trust : SessionTrust

abbrev pub session_id : SessionRow → String
session_id r = r.id

abbrev pub token_of : SessionRow → String
token_of r = r.token_digest

-- not revoked, and neither of its two expiries reached
unfoldable pub is_live : ℕ → SessionRow → Bool
is_live now r = is_none r.revoked_at && ltb now r.idle_expires_at && ltb now r.absolute_expires_at

unfoldable pub is_session : String → String → SessionRow → Bool
is_session user_id id r = str_eq r.user_id user_id && str_eq r.id id

abbrev pub is_trusted : SessionTrust → Bool
is_trusted trusted = true
is_trusted provisional = false

abbrev pub is_active_user : UserStatus → Bool
is_active_user active = true
is_active_user suspended = false

-- the live session of a user
unfoldable pub may_rotate : String → String → ℕ → SessionRow → Bool
may_rotate user_id id now r = is_session user_id id r && is_live now r

unfoldable pub may_replace : String → String → ℕ → SessionRow → Bool
may_replace user_id id now r = is_session user_id id r && is_trusted r.trust && is_live now r

unfoldable pub may_revoke : String → String → SessionRow → Bool
may_revoke user_id id r = is_session user_id id r && is_none r.revoked_at

-- `token_digest` is unique: a statement that would give a row the digest of another one fails.
unfoldable pub write_token :
    (SessionRow → Bool)
    → (SessionRow → SessionRow)
    → String
    → List SessionRow
    → Result (List SessionRow × List SessionRow)
write_token where_ set token_digest rows =
    if any where_ rows && any (λ r. not (where_ r) && str_eq r.token_digest token_digest) rows
    then err "duplicate key value violates unique constraint"
    else ok (update where_ set rows, returning where_ set rows)

unfoldable pub lock_active_session_for_otp :
    List SessionRow → String → String → ℕ → Option SessionRow
lock_active_session_for_otp rows user_id id now = find (may_rotate user_id id now) rows

unfoldable pub promote_row : ℕ → SessionRow → SessionRow
promote_row now r = record r {
  trust = trusted;
  last_seen_at = now;
  idle_expires_at = now + idle_ttl_ms;
  absolute_expires_at = r.issued_at + absolute_ttl_ms;
  reauthenticated_at = some now;
  updated_at = now;
}

unfoldable pub may_promote : String → String → ℕ → SessionRow → Bool
may_promote user_id id now r = is_session user_id id r && not (is_trusted r.trust) && is_live now r

unfoldable pub promote_provisional_session_trust :
    List SessionRow → String → String → ℕ → List SessionRow × Bool
promote_provisional_session_trust rows user_id id now =
    let held = may_promote user_id id now in
    (update held (promote_row now) rows, is_some (first (returning held (promote_row now) rows)))

unfoldable pub step_up_row : ℕ → SessionRow → SessionRow
step_up_row confirmed_at r = record r {
  reauthenticated_at = some confirmed_at;
  updated_at = confirmed_at;
}

unfoldable pub mark_session_step_up : List SessionRow → String → String → ℕ → List SessionRow × Bool
mark_session_step_up rows user_id id confirmed_at =
    let held = may_rotate user_id id confirmed_at in
    (
      update held (step_up_row confirmed_at) rows,
      is_some (first (returning held (step_up_row confirmed_at) rows)),
    )

unfoldable pub revoke_row : String → ℕ → SessionRow → SessionRow
revoke_row reason now r = record r {
  revoked_at = some now;
  revocation_reason = some reason;
  updated_at = now;
}

unfoldable pub revoke_session :
    List SessionRow → String → String → String → ℕ → List SessionRow × Bool
revoke_session rows user_id id reason now =
    let held = may_revoke user_id id in
    (
      update held (revoke_row reason now) rows,
      is_some (first (returning held (revoke_row reason now) rows)),
    )

unfoldable pub is_other : String → String → SessionRow → Bool
is_other user_id preserved r =
    str_eq r.user_id user_id && not (str_eq r.id preserved) && is_none r.revoked_at

unfoldable pub revoke_other_sessions :
    List SessionRow → String → String → String → ℕ → List SessionRow × ℕ
revoke_other_sessions rows user_id preserved reason now =
    let held = is_other user_id preserved in
    (update held (revoke_row reason now) rows, length (returning held (revoke_row reason now) rows))
