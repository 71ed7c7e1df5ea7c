-- ===== src/Sessions/Tests.antt =====
-- Runs of the sessions, and their theorems at concrete tables.
use tabela_pubg.Prelude.{
  ◌≡◌, ◌↔◌, ◌⊎◌, refl, String, true, false, none, some, [], ◌∷◌, find_by, arith, ok, map_some,
}
use tabela_pubg.Sessions.{
  provisional, trusted, active, SessionRow, DeviceRow, UserRow, Resolved, session_id, token_of,
  is_live, is_session, may_rotate, may_promote, may_revoke, write_token, promote_row,
  promote_provisional_session_trust, is_other, revoke_row, revoke_other_sessions,
}
use tabela_pubg.Sessions.Lookup.{
  has_active_user, device_of, is_resolvable, resolve_session, is_due, touch_row,
  resolve_and_touch_session,
}
use tabela_pubg.Sessions.Issue.{identity_session_row, insert_session, rotate_row, rotate_session}
use tabela_pubg.Sessions.AlertContexts.{
  AlertContextRow, AlertContext, ResolveAlertContextResult, session_of, is_over, is_context,
  is_current_context, resolve_alert_context_by_digest, resolve_alert_context_read_only, merged,
  resolve_alert_context_read_only_lem,
}
use tabela_pubg.Sessions.History.{Step, Reach, here, next, IsWellFormed}
use tabela_pubg.Sessions.Lifetimes.{sessions-IsWellFormed, HasEnded, sessions-HasEnded}
use tabela_pubg.Sessions.Resolution.{Answers, resolve_session_iff}
use tabela_pubg.Sessions.Effects.{view, resolve_and_touch_session-view}
use tabela_pubg.Sessions.Rotations.{rotate_session_tokens}

running : Unit {0}
unfolding is_live is_session may_rotate may_promote may_revoke write_token identity_session_row
    insert_session rotate_row rotate_session promote_row promote_provisional_session_trust is_other
    revoke_row revoke_other_sessions has_active_user device_of is_resolvable resolve_session is_due
    touch_row resolve_and_touch_session session_of is_over is_context is_current_context
    resolve_alert_context_by_digest resolve_alert_context_read_only
running = tt

abbrev hash : String → String
hash token = token

abbrev signed_in : SessionRow
signed_in = record {
  id = "s1";
  user_id = "u1";
  device_id = "d1";
  token_digest = "old";
  trust = provisional;
  issued_at = 1000;
  last_seen_at = 1000;
  idle_expires_at = 901000;
  absolute_expires_at = 901000;
  reauthenticated_at = none;
  revoked_at = none;
  revocation_reason = none;
  created_at = 1000;
  updated_at = 1000;
}

-- promoted a second after the sign-in
abbrev promoted : SessionRow
promoted = record {
  id = "s1";
  user_id = "u1";
  device_id = "d1";
  token_digest = "old";
  trust = trusted;
  issued_at = 1000;
  last_seen_at = 2000;
  idle_expires_at = 2592002000;
  absolute_expires_at = 7776001000;
  reauthenticated_at = some 2000;
  revoked_at = none;
  revocation_reason = none;
  created_at = 1000;
  updated_at = 2000;
}

abbrev rotated : SessionRow
rotated = record promoted {
  token_digest = "new";
  last_seen_at = 3000;
  idle_expires_at = 2592003000;
  reauthenticated_at = some 3000;
  updated_at = 3000;
}

abbrev other : SessionRow
other = record promoted { id = "s2"; token_digest = "other" }

abbrev phone : DeviceRow
phone = record {
  id = "d1";
  user_id = "u1";
  device_digest = "p";
  label = "Phone";
  browser = "Firefox";
  operating_system = "Android";
  first_seen_at = 1000;
  last_seen_at = 1000;
}

abbrev user : UserRow
user = record { id = "u1"; status = active }

sign_in_run :
    insert_session [] (identity_session_row hash "s1" "u1" "old" provisional 1000 9999999 "d1")
    ≡ ok (signed_in ∷ [])
unfolding running
sign_in_run = refl

promote_run : promoted ∷ [] ≡ (promote_provisional_session_trust (signed_in ∷ []) "u1" "s1" 2000).0
unfolding running
promote_run = refl

rotate_run :
    rotate_session hash (promoted ∷ []) "u1" "s1" "new" 3000
    ≡ ok (rotated ∷ [], some ("new", rotated))
unfolding running
rotate_run = refl

history : Reach hash 0 [] 2000 (promoted ∷ [])
history =
    next 2000
      (next 1000 here (omega arith)
        (Step.sign_in "s1" "u1" "old" provisional 9999999 "d1" sign_in_run))
      (omega arith) (Step.promote "u1" "s1" promote_run)

sessions-IsWellFormed_example : IsWellFormed 2000 (promoted ∷ [])
sessions-IsWellFormed_example =
    sessions-IsWellFormed hash (record { ids = tt; tokens = tt; sound = tt }) history

signed_in-IsWellFormed : IsWellFormed 901000 (signed_in ∷ [])
signed_in-IsWellFormed = record {
  ids = (tt, tt);
  tokens = (tt, tt);
  sound = ((omega arith, omega arith, omega arith, omega arith, refl), tt);
}

expired : is_live 901000 signed_in ≡ false
unfolding running
expired = refl

late_promotion :
    signed_in ∷ [] ≡ (promote_provisional_session_trust (signed_in ∷ []) "u1" "s1" 901000).0
unfolding running
late_promotion = refl

sessions-HasEnded_example : HasEnded hash 901000 "s1" (signed_in ∷ [])
sessions-HasEnded_example =
    sessions-HasEnded hash "s1" signed_in-IsWellFormed
      (next 901000 here (omega arith) (Step.promote "u1" "s1" late_promotion))
      (signed_in, refl, expired)

abbrev found : Resolved
found = record { session = promoted; device = phone; trust = trusted }

resolve_session_iff_example :
    (resolve_session (promoted ∷ []) (phone ∷ []) (user ∷ []) "old" 2500 ≡ some found) ↔ (
      (r : SessionRow) × (d : DeviceRow) × Answers
        (promoted ∷ [])
        (phone ∷ [])
        (user ∷ [])
        "old"
        2500
        r
        d
      × (found ≡ record { session = r; device = d; trust = r.trust }))
resolve_session_iff_example =
    resolve_session_iff (promoted ∷ []) (phone ∷ []) (user ∷ []) "old" 2500 (tt, tt) found

resolve_and_touch_session-view_example :
    map_some view
      (resolve_and_touch_session (promoted ∷ []) (phone ∷ []) (user ∷ []) "old" 900000).1
    ≡ map_some view (resolve_session (promoted ∷ []) (phone ∷ []) (user ∷ []) "old" 900000)
resolve_and_touch_session-view_example =
    resolve_and_touch_session-view (promoted ∷ []) (phone ∷ []) (user ∷ []) "old" 900000 (tt, tt)

-- The run finds the session and moves its times.
touched_run : resolve_and_touch_session (promoted ∷ []) (phone ∷ []) (user ∷ []) "old" 900000 ≡ (
  record promoted { last_seen_at = 900000; idle_expires_at = 2592900000; updated_at = 900000 } ∷ [],
  some (record {
    session = record promoted {
      last_seen_at = 900000;
      idle_expires_at = 2592900000;
      updated_at = 900000;
    };
    device = phone;
    trust = trusted;
  }),
)
unfolding running
touched_run = refl

promoted-IsWellFormed : IsWellFormed 3000 (promoted ∷ [])
promoted-IsWellFormed = record {
  ids = (tt, tt);
  tokens = (tt, tt);
  sound = ((omega arith, omega arith, omega arith, omega arith, refl), tt);
}

abbrev new_token : String
new_token = "new"

rotate_session_tokens_example :
    (r : SessionRow) × (find_by session_id "s1" (promoted ∷ []) ≡ some r)
    × (r.user_id ≡ "u1")
    × (is_live 3000 r ≡ true)
    × (new_token ≡ "new")
    × (rotated.id ≡ "s1")
    × (rotated.user_id ≡ "u1")
    × (find_by token_of "new" (rotated ∷ []) ≡ some rotated)
    × ((r.token_digest ≡ "new")
        ⊎ (resolve_session (rotated ∷ []) (phone ∷ []) (user ∷ []) r.token_digest 4000 ≡ none))
rotate_session_tokens_example =
    rotate_session_tokens hash "u1" "s1" "new" 3000 (promoted ∷ []) (rotated ∷ []) ("new", rotated)
      promoted-IsWellFormed rotate_run (phone ∷ []) (user ∷ []) 4000

-- The old token finds nothing.
rotated_run : resolve_session (rotated ∷ []) (phone ∷ []) (user ∷ []) "old" 4000 ≡ none
unfolding running
rotated_run = refl

abbrev context : AlertContextRow
context = record {
  id = "x1";
  user_id = "u1";
  session_id = "s1";
  token_digest = "mail";
  expires_at = 90000;
  resolved_at = none;
  created_at = 1000;
}

abbrev hidden : ResolveAlertContextResult
hidden = ResolveAlertContextResult.not_found_expired

-- Past its day, the context of a live session is expired for one reader and missing for the other.
past_day_run :
    (resolve_alert_context_by_digest (context ∷ []) (promoted ∷ []) "u1" "mail" 90000
      ≡ AlertContext.expired)
    × (resolve_alert_context_read_only hash (context ∷ []) (promoted ∷ []) "u1" "mail" 90000
        ≡ hidden)
unfolding running
past_day_run = (refl, refl)

resolve_alert_context_read_only_lem_example :
    resolve_alert_context_read_only hash (context ∷ []) (promoted ∷ []) "u1" "mail" 50000
    ≡ merged (resolve_alert_context_by_digest (context ∷ []) (promoted ∷ []) "u1" "mail" 50000)
resolve_alert_context_read_only_lem_example =
    resolve_alert_context_read_only_lem hash (context ∷ []) (promoted ∷ []) "u1" "mail" 50000
      (tt, tt)
