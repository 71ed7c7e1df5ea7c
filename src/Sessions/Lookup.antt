-- ===== src/Sessions/Lookup.antt =====
-- packages/database/src/repositories/sessions.ts: finding a session by its token, with and without
-- a touch, and by its id.
use tabela_pubg.Prelude.{
  ℕ, ◌+◌, min, String, Bool, false, ◌&&◌, Option, none, some, List, any, update, returning, find,
  leb, ltb, str_eq, is_some, map_some, first, join_one,
}
use tabela_pubg.Sessions.{
  idle_ttl_ms, touch_coalesce_ms, is_live, is_session, is_active_user, may_rotate, SessionRow,
  DeviceRow, UserRow, Resolved,
}

unfoldable pub touch_row : ℕ → SessionRow → SessionRow
touch_row now r = record r {
  last_seen_at = now;
  idle_expires_at = min r.absolute_expires_at (now + idle_ttl_ms);
  updated_at = now;
}

-- `exists (select … from users where …)`
unfoldable pub has_active_user : List UserRow → SessionRow → Bool
has_active_user users r = any (λ u. str_eq u.id r.user_id && is_active_user u.status) users

unfoldable pub device_of : List DeviceRow → SessionRow → Option DeviceRow
device_of devices r = find (λ d. str_eq d.user_id r.user_id && str_eq d.id r.device_id) devices

abbrev pub resolved : SessionRow × DeviceRow → Resolved
resolved (r, d) = record { session = r; device = d; trust = r.trust }

unfoldable pub is_resolvable : List UserRow → String → ℕ → SessionRow → Bool
is_resolvable users token_digest now r =
    str_eq r.token_digest token_digest && has_active_user users r && is_live now r

-- The join with the users keeps the sessions of active users: `users.id` is the primary key.
unfoldable pub resolve_session :
    List SessionRow → List DeviceRow → List UserRow → String → ℕ → Option Resolved
resolve_session rows devices users token_digest now =
    map_some resolved (join_one (device_of devices) (is_resolvable users token_digest now) rows)

-- Seen last at least five minutes ago.
unfoldable pub is_due : List UserRow → String → ℕ → SessionRow → Bool
is_due users token_digest now r =
    str_eq r.token_digest token_digest
    && is_live now r
    && leb (r.last_seen_at + touch_coalesce_ms) now
    && has_active_user users r

abbrev pub after_touch :
    List SessionRow
    → List DeviceRow
    → List UserRow
    → String
    → ℕ
    → Option SessionRow
    → Option Resolved
after_touch rows devices users token_digest now (some r) =
    map_some (λ d. resolved (r, d)) (device_of devices r)
after_touch rows devices users token_digest now none =
    resolve_session rows devices users token_digest now

unfoldable pub resolve_and_touch_session :
    List SessionRow → List DeviceRow → List UserRow → String → ℕ → List SessionRow × Option Resolved
resolve_and_touch_session rows devices users token_digest now =
    let due = is_due users token_digest now in
    let rows' = update due (touch_row now) rows in
    (
      rows',
      after_touch rows' devices users token_digest now (first (returning due (touch_row now) rows)),
    )

unfoldable pub touch_session :
    List SessionRow
    → List DeviceRow
    → List UserRow
    → String
    → ℕ
    → List SessionRow × Option SessionRow
touch_session rows devices users token_digest now =
    let (rows', found) = resolve_and_touch_session rows devices users token_digest now in
    (rows', map_some (λ f. f.session) found)

unfoldable pub after : Option ℕ → ℕ → ℕ → Bool
after none lifetime now = false
after (some t) lifetime now = ltb now (t + lifetime)

unfoldable pub has_recent_reauthentication : List SessionRow → String → String → ℕ → ℕ → Bool
has_recent_reauthentication rows user_id id now lifetime_ms =
    is_some
      (find (λ r. may_rotate user_id id now r && after r.reauthenticated_at lifetime_ms now) rows)

unfoldable pub find_session_for_step_up :
    List SessionRow → List DeviceRow → String → String → Option (SessionRow × DeviceRow)
find_session_for_step_up rows devices user_id id =
    join_one (device_of devices) (is_session user_id id) rows
