-- ===== src/Sessions/Effects.antt =====
-- What a rotation, a revocation of the others and a touch change in the resolution of tokens.
use tabela_pubg.Prelude.{
  ℕ, ◌≡◌, refl, ◌∙◌, inl, inr, String, true, Option, none, some, List, update, returning, first,
  only, map_some, bind_some, first-returning, find_by, find_by-update, HasDistinctKeys, arith,
  eq_iff, Bool-cases, touch?, HasDistinctKeys-update,
}
use tabela_pubg.Sessions.{SessionRow, DeviceRow, UserRow, Resolved, token_of}
use tabela_pubg.Sessions.Lookup.{
  device_of, resolved, is_resolvable, resolve_session, resolve_and_touch_session, after_touch,
  is_due, touch_row,
}
use tabela_pubg.Sessions.Resolution.{resolve_session_lem}

token_of_is_due :
    (users : List UserRow) (k : String) (now : ℕ) (r : SessionRow)
    → is_due users k now r ≡ true
    → r.token_digest ≡ k
unfolding is_due
token_of_is_due users k now r e = ground (arith, eq_iff r.token_digest k)

-- What a caller reads of a resolved session besides its times.
abbrev pub view : Resolved → String × String × DeviceRow
view x = (x.session.id, x.session.user_id, x.device)

module _ (rows : List SessionRow) (devices : List DeviceRow) (users : List UserRow) (k : String)
    (now : ℕ) (distinct : HasDistinctKeys token_of rows) where
  resolvable_of_due :
      (r : SessionRow) → is_due users k now r ≡ true → is_resolvable users k now r ≡ true
  unfolding is_due is_resolvable
  resolvable_of_due r e = ground arith

  -- the two reads over the session that has the digest
  reading_touched :
      first (returning (is_due users k now) (touch_row now) rows)
      ≡ map_some (touch_row now) (only (is_due users k now) (find_by token_of k rows))
  reading_touched =
      first-returning token_of (is_due users k now) k (token_of_is_due users k now) (touch_row now)
        rows distinct

  reading_after :
      resolve_session (update (is_due users k now) (touch_row now) rows) devices users k now
      ≡ map_some resolved (
          bind_some
            (only
              (is_resolvable users k now)
              (touch? (is_due users k now) (touch_row now) (find_by token_of k rows)))
            (λ r. map_some (λ d. (r, d)) (device_of devices r)))
  unfolding touch_row
  reading_after =
      let due = is_due users k now in
      let kept = HasDistinctKeys-update token_of due (touch_row now) (λ r. refl) rows distinct in
      let found = find_by-update token_of due (touch_row now) (λ r. refl) k rows in
      resolve_session_lem (update due (touch_row now) rows) devices users k now kept ∙ rw found refl

  touched_alike :
      (o : Option SessionRow)
      → find_by token_of k rows ≡ o
      → map_some view (
          after_touch
            (update (is_due users k now) (touch_row now) rows)
            devices
            users
            k
            now
            (first (returning (is_due users k now) (touch_row now) rows)))
        ≡ map_some view (resolve_session rows devices users k now)
  unfolding touch_row device_of
  touched_alike none e =
      rw
        (
          reading_touched,
          e,
          reading_after,
          resolve_session_lem rows devices users k now distinct,
          e,
        )
        refl
  touched_alike (some r) e = elim (Bool-cases (is_due users k now r)) [
    | inl y ↦
        rw
          (
            reading_touched,
            resolve_session_lem rows devices users k now distinct,
            e,
            y,
            resolvable_of_due r y,
          )
          (same (device_of devices r))
    | inr n ↦
        rw
          (
            reading_touched,
            e,
            n,
            reading_after,
            resolve_session_lem rows devices users k now distinct,
            e,
            n,
          )
          refl
  ]
    where
      same :
          (o : Option DeviceRow)
          → map_some view (map_some (λ d. resolved (touch_row now r, d)) o)
            ≡ map_some view (map_some resolved (map_some (λ d. (r, d)) o))
      same none = refl
      same (some d) = refl

  -- Resolving a token while touching its session finds the same session, user and device as only
  -- resolving it, whether the touch is due or coalesced. The digests of the table are distinct.
  pub resolve_and_touch_session-view :
      map_some view (resolve_and_touch_session rows devices users k now).1
      ≡ map_some view (resolve_session rows devices users k now)
  unfolding resolve_and_touch_session
  resolve_and_touch_session-view = touched_alike _ refl
