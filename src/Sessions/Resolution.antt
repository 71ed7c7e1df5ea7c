-- ===== src/Sessions/Resolution.antt =====
-- Which token resolves to which session, and what a rotation, a revocation and a touch change in it.
use mathlib.Core.List.{Memᴰ}
use tabela_pubg.Prelude.{
  ℕ, ◌<◌, ◌≡◌, ◌↔◌, refl, sym, ◌∙◌, inl, inr, String, true, Option, none, some, List, only,
  map_some, bind_some, join_one_lem, find_by, find_by-Memᴰ, HasDistinctKeys, Memᴰ-find, arith,
  eq_iff, Bool-cases, Option-cases, str_eq, ap, ◌&&◌, any, any-false_at, Memᴰ-any,
}
use tabela_pubg.Sessions.{
  SessionRow, DeviceRow, UserRow, UserStatus, is_active_user, Resolved, token_of, is_live,
}
use tabela_pubg.Sessions.Lookup.{
  has_active_user, device_of, resolved, is_resolvable, resolve_session,
}

token_of_is_resolvable :
    (users : List UserRow) (k : String) (now : ℕ) (r : SessionRow)
    → is_resolvable users k now r ≡ true
    → r.token_digest ≡ k
unfolding is_resolvable
token_of_is_resolvable users k now r e = ground (arith, eq_iff r.token_digest k)

-- Resolution looks only at the session that has the digest.
pub resolve_session_lem :
    (rows : List SessionRow) (devices : List DeviceRow) (users : List UserRow) (k : String)
    (now : ℕ)
    → HasDistinctKeys token_of rows
    → resolve_session rows devices users k now
      ≡ map_some resolved (
          bind_some
            (only (is_resolvable users k now) (find_by token_of k rows))
            (λ r. map_some (λ d. (r, d)) (device_of devices r)))
unfolding resolve_session
resolve_session_lem rows devices users k now d = ap (map_some resolved) (
    join_one_lem token_of (is_resolvable users k now) k (token_of_is_resolvable users k now)
      (device_of devices) rows d)

-- The user of a session is in the table and active.
abbrev pub HasActiveUser : List UserRow → SessionRow → Type 0
HasActiveUser users r =
    (u : UserRow) × Memᴰ u users × (u.id ≡ r.user_id) × (u.status ≡ UserStatus.active)

active_of_is_active_user :
    (status : UserStatus) → is_active_user status ≡ true → status ≡ UserStatus.active
active_of_is_active_user UserStatus.active e = refl
active_of_is_active_user UserStatus.suspended e = absurd (cc)

HasActiveUser-of_has_active_user :
    (users : List UserRow) (r : SessionRow) → has_active_user users r ≡ true → HasActiveUser users r
unfolding has_active_user
HasActiveUser-of_has_active_user users r e =
    let (u, listed, fits) =
      Memᴰ-any (λ u. str_eq u.id r.user_id && is_active_user u.status) users e in
    (
      u,
      listed,
      ground (arith, fits, eq_iff u.id r.user_id),
      active_of_is_active_user u.status (ground (arith, fits)),
    )

has_active_user_of_HasActiveUser :
    (users : List UserRow) (r : SessionRow) → HasActiveUser users r → has_active_user users r ≡ true
unfolding has_active_user
has_active_user_of_HasActiveUser users r (u, listed, owned, active) =
    let p = λ (x : UserRow). str_eq x.id r.user_id && is_active_user x.status in
    let fits : p u ≡ true = rw active (ground (arith, eq_iff u.id r.user_id, owned)) in
    elim (Bool-cases (any p users)) [
      | inl y ↦ y
      | inr n ↦ absurd (ground (arith, any-false_at p users u listed n, fits))
    ]

-- What a session must be to answer for a token.
abbrev pub Answers :
    List SessionRow → List DeviceRow → List UserRow → String → ℕ → SessionRow → DeviceRow → Type 0
Answers rows devices users k now r d =
    Memᴰ r rows
    × (r.token_digest ≡ k)
    × (r.revoked_at ≡ none)
    × (now < r.idle_expires_at)
    × (now < r.absolute_expires_at)
    × HasActiveUser users r
    × (device_of devices r ≡ some d)

fits_of_is_resolvable :
    (users : List UserRow) (k : String) (now : ℕ) (r : SessionRow)
    → is_resolvable users k now r ≡ true
    → (r.revoked_at ≡ none)
      × (now < r.idle_expires_at)
      × (now < r.absolute_expires_at)
      × (has_active_user users r ≡ true)
unfolding is_resolvable is_live
fits_of_is_resolvable users k now r e = elim (Option-cases r.revoked_at) [
  | inl n ↦ (n, ground arith, ground arith, ground arith)
  | inr (t, n) ↦ absurd (ground arith)
]

is_resolvable_of_fits :
    (users : List UserRow) (k : String) (now : ℕ) (r : SessionRow)
    → r.token_digest ≡ k
    → r.revoked_at ≡ none
    → now < r.idle_expires_at
    → now < r.absolute_expires_at
    → has_active_user users r ≡ true
    → is_resolvable users k now r ≡ true
unfolding is_resolvable is_live
is_resolvable_of_fits users k now r e n i a u = ground (arith, n, u, eq_iff r.token_digest k)

module _ (rows : List SessionRow) (devices : List DeviceRow) (users : List UserRow) (k : String)
    (now : ℕ) (distinct : HasDistinctKeys token_of rows) where
  read_session :
      (o : Option SessionRow) (x : Resolved)
      → find_by token_of k rows ≡ o
      → map_some resolved (
          bind_some
            (only (is_resolvable users k now) o)
            (λ r. map_some (λ d. (r, d)) (device_of devices r)))
        ≡ some x
      → (r : SessionRow) × (d : DeviceRow) × Answers rows devices users k now r d
        × (x ≡ record { session = r; device = d; trust = r.trust })
  read_session none x e h = absurd (cc)
  read_session (some r) x e h = elim (Bool-cases (is_resolvable users k now r)) [
    | inr n ↦ absurd (cc (rw n at h))
    | inl y ↦ elim (Option-cases (device_of devices r)) [
      | inl n ↦ absurd (cc (rw (y, n) at h))
      | inr (d, f) ↦
          let fits = fits_of_is_resolvable users k now r y in
          (
            r,
            d,
            (
              Memᴰ-find (λ s. str_eq (token_of s) k) rows r e,
              token_of_is_resolvable users k now r y,
              fits.0,
              fits.1,
              fits.2,
              HasActiveUser-of_has_active_user users r fits.3,
              f,
            ),
            ground (arith, y, f, h),
          )
    ]
  ]

  -- A token resolves exactly to the session that holds its digest and is neither revoked nor past
  -- an expiry, of an active user, with its device. The digests of the table are distinct.
  pub resolve_session_iff :
      (x : Resolved)
      → (resolve_session rows devices users k now ≡ some x) ↔ (
          (r : SessionRow) × (d : DeviceRow) × Answers rows devices users k now r d
          × (x ≡ record { session = r; device = d; trust = r.trust }))
  resolve_session_iff x = (
    λ e. read_session _ x refl (sym (resolve_session_lem rows devices users k now distinct) ∙ e),
    λ (r, d, a, e).
        let found : find_by token_of k rows ≡ some r =
          rw (sym a.1) (find_by-Memᴰ token_of r rows distinct a.0) in
        let fits =
          is_resolvable_of_fits users k now r a.1 a.2 a.3 a.4
            (has_active_user_of_HasActiveUser users r a.5) in
        rw (resolve_session_lem rows devices users k now distinct, found, fits, a.6, e) refl,
  )
