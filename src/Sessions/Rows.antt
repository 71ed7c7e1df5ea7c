-- ===== src/Sessions/Rows.antt =====
-- What every session row satisfies at a time, and that each write keeps it and ends no ended
-- session's end.
use tabela_pubg.Prelude.{
  ℕ, ◌+◌, ◌≤◌, ◌≡◌, ◌≢◌, ◌⊎◌, inl, inr, refl, String, Bool, true, false, Option, none, some, arith,
  is_none, Bool-cases, List, ltb, ◌&&◌, if◌then◌else◌,
}
use tabela_pubg.Sessions.{
  SessionTrust, provisional, trusted, SessionRow, is_live, is_trusted, promote_row, step_up_row,
  revoke_row, may_rotate, may_replace, may_promote, absolute_ttl_ms, provisional_ttl_ms, UserRow,
}
use tabela_pubg.Sessions.Lookup.{touch_row, is_due}
use tabela_pubg.Sessions.Issue.{identity_session_row, rotate_row, replace_row}

-- No session outlasts the lifetime of its trust.
abbrev pub IsBounded : SessionTrust → ℕ → ℕ → Type 0
IsBounded trusted issued_at absolute = absolute ≤ issued_at + absolute_ttl_ms
IsBounded provisional issued_at absolute = absolute ≤ issued_at + provisional_ttl_ms

abbrev pub IsSound : ℕ → SessionRow → Type 0
IsSound t r =
    (r.issued_at ≤ r.last_seen_at)
    × (r.last_seen_at ≤ t)
    × (r.idle_expires_at ≤ r.absolute_expires_at)
    × IsBounded r.trust r.issued_at r.absolute_expires_at
    × (is_none r.revoked_at ≡ is_none r.revocation_reason)

pub IsSound-later : {t u : ℕ} (r : SessionRow) → t ≤ u → IsSound t r → IsSound u r
IsSound-later r h s = (s.0, omega arith, s.2, s.3, s.4)

-- What a write does to the rows it takes at a time: it keeps them sound, and those it takes are
-- live or are revoked by it.
pub record Write (now : ℕ) (where_ : SessionRow → Bool) (set : SessionRow → SessionRow)
    : Type 0 where
  pub keeps_id : (r : SessionRow) → (set r).id ≡ r.id
  pub sound : (r : SessionRow) → where_ r ≡ true → IsSound now r → IsSound now (set r)
  pub live :
      (r : SessionRow) → where_ r ≡ true → (is_live now r ≡ true) ⊎ ((set r).revoked_at ≢ none)

module _ (digest : String → String) where
  pub identity_session_row-IsSound :
      (id user_id token : String) (trust : SessionTrust) (issued_at expires_at : ℕ)
      (device_id : String)
      → IsSound issued_at
          (identity_session_row digest id user_id token trust issued_at expires_at device_id)
  unfolding identity_session_row
  identity_session_row-IsSound id user_id token trusted issued_at expires_at device_id =
      (omega arith, omega arith, ground arith, ground arith, refl)
  identity_session_row-IsSound id user_id token provisional issued_at expires_at device_id =
      (omega arith, omega arith, ground arith, ground arith, refl)

  pub rotate-Write :
      (user_id id token : String) (now : ℕ)
      → Write now (may_rotate user_id id now) (rotate_row digest token now)
  unfolding may_rotate rotate_row
  rotate-Write user_id id token now = record {
    keeps_id = λ r. refl;
    sound = λ r e s. (omega arith, omega arith, ground arith, s.3, s.4);
    live = λ r e. inl (ground arith);
  }

  pub replace-Write :
      (user_id id token : String) (now : ℕ)
      → Write now (may_replace user_id id now) (replace_row digest token now)
  unfolding may_replace replace_row
  replace-Write user_id id token now = record {
    keeps_id = λ r. refl;
    sound = λ r e s. (s.0, s.1, s.2, s.3, s.4);
    live = λ r e. inl (ground arith);
  }

-- A provisional session lives for minutes, so the expiries that its promotion sets are in order.
pub promote-Write :
    (user_id id : String) (now : ℕ) → Write now (may_promote user_id id now) (promote_row now)
unfolding may_promote promote_row is_live
promote-Write user_id id now = record {
  keeps_id = λ r. refl;
  sound = λ r e s.
      let bound = early r r.trust refl (ground arith) s.3 in
      (omega arith, omega arith, ground (arith, bound), omega arith, s.4);
  live = λ r e. inl (ground arith);
}
  where
    early :
        (r : SessionRow) (trust : SessionTrust)
        → r.trust ≡ trust
        → is_trusted trust ≡ false
        → IsBounded trust r.issued_at r.absolute_expires_at
        → r.absolute_expires_at ≤ r.issued_at + provisional_ttl_ms
    early r provisional e p b = b
    early r trusted e p b = absurd (cc)

pub step_up-Write :
    (user_id id : String) (now : ℕ) → Write now (may_rotate user_id id now) (step_up_row now)
unfolding may_rotate step_up_row
step_up-Write user_id id now = record {
  keeps_id = λ r. refl;
  sound = λ r e s. (s.0, s.1, s.2, s.3, s.4);
  live = λ r e. inl (ground arith);
}

pub revoke-Write :
    (where_ : SessionRow → Bool) (reason : String) (now : ℕ)
    → Write now where_ (revoke_row reason now)
unfolding revoke_row
revoke-Write where_ reason now = record {
  keeps_id = λ r. refl;
  sound = λ r e s. (s.0, s.1, s.2, s.3, refl);
  live = λ r e. inr (λ n. cc);
}

pub touch-Write :
    (users : List UserRow) (token_digest : String) (now : ℕ)
    → Write now (is_due users token_digest now) (touch_row now)
unfolding is_due touch_row
touch-Write users token_digest now = record {
  keeps_id = λ r. refl;
  sound = λ r e s. (omega arith, omega arith, ground arith, s.3, s.4);
  live = λ r e. inl (ground arith);
}

-- A session that has ended stays so.
pub is_live_later : (t u : ℕ) (r : SessionRow) → t ≤ u → is_live t r ≡ false → is_live u r ≡ false
unfolding is_live
is_live_later t u r h e = ground arith

pub is_live-revoked : (t : ℕ) (r : SessionRow) → r.revoked_at ≢ none → is_live t r ≡ false
unfolding is_live
is_live-revoked t r n = unless r.revoked_at n
  where
    unless :
        (o : Option ℕ)
        → o ≢ none
        → is_none o && ltb t r.idle_expires_at && ltb t r.absolute_expires_at ≡ false
    unless none n = absurd (n refl)
    unless (some x) n = refl

-- A write at a time does not bring back a session that has ended by then.
pub Write-ended :
    {now : ℕ} {where_ : SessionRow → Bool} {set : SessionRow → SessionRow} (r : SessionRow)
    → Write now where_ set
    → is_live now r ≡ false
    → is_live now (if where_ r then set r else r) ≡ false
Write-ended {now} {where_} {set} r w e = elim (Bool-cases (where_ r)) [
  | inr k ↦ rw k e
  | inl k ↦ rw k (elim (w.live r k) [ inl l ↦ absurd (cc) | inr n ↦ is_live-revoked now (set r) n ])
]
