-- ===== src/Identities/LastIdentity.antt =====
-- A removal leaves every user a way to sign in.
use tabela_pubg.Prelude.{
  bound, ◌≤◌, ◌≡◌, refl, sym, ◌⊎◌, inl, inr, String, Bool, true, false, not, ◌&&◌, Option, none,
  some, List, update, count, select, any, first, returning, length, leb, is_none, arith, ok, err,
  ◌>>=◌, if◌then◌else◌, Bool-cases, str_eq, eq_iff, HasDistinctKeys, count-update-le,
  count-update-drop,
}
use mathlib.Core.Path.{subst}
use tabela_pubg.Identities.{IdentityRow, Registry, identity_id}
use tabela_pubg.Identities.Removal.{
  RemovalInput, RemovalResult, not_found, last_verified, is_identity_of, is_owned, revoke_identity,
  rotated, remove_live, remove_owned_identity, is_fresh_session,
}
use tabela_pubg.Sessions.{SessionRow, is_active_user, lock_active_session_for_otp}
use tabela_pubg.Sessions.Issue.{rotate_identity_session}

module _ (digest : String → String) (t t' : Registry) (input : RemovalInput)
    (answer : RemovalResult) where
  -- The user had another verified identity, and this one is revoked.
  Parted : Type 0
  Parted =
      (2 ≤ count (is_identity_of input.actor_id) t.identities)
      × (t'.identities
          ≡ update (is_owned input.actor_id input.identity_id) (revoke_identity input.now)
              t.identities)

  rotated_parts :
      (r : List SessionRow × Option String)
      → rotated digest t input r ≡ ok (t', answer)
      → t'.identities
        ≡ update
            (is_owned input.actor_id input.identity_id)
            (revoke_identity input.now)
            t.identities
  rotated_parts (rows, none) e = absurd (cc)
  rotated_parts (rows, some id) e = cc

  remove_live_inv : remove_live digest t input ≡ ok (t', answer) → (t' ≡ t) ⊎ Parted
  unfolding remove_live Parted
  remove_live_inv e = decide _ _ _ refl refl refl e
    where
      decide :
          (here few gone : Bool)
          → not (
              any
                (λ i. str_eq i.id input.identity_id)
                (select (is_identity_of input.actor_id) t.identities))
            ≡ here
          → leb (length (select (is_identity_of input.actor_id) t.identities)) 1 ≡ few
          → is_none (
              first (
                returning
                  (is_owned input.actor_id input.identity_id)
                  (revoke_identity input.now)
                  t.identities))
            ≡ gone
          → (if here
              then ok (t, not_found)
              else if few
              then ok (t, last_verified)
              else if gone
              then ok (t, not_found)
              else (rotate_identity_session digest t.sessions input.actor_id
                    input.current_session_id input.replacement_session_token input.now
                  >>= rotated digest t input))
            ≡ ok (t', answer)
          → (t' ≡ t) ⊎ Parted
      decide true few gone a b c h = inl (cc)
      decide false true gone a b c h = inl (cc)
      decide false false true a b c h = inl (cc)
      decide false false false a b c h =
          let (r, k, l) =
            bound
              (rotate_identity_session digest t.sessions input.actor_id input.current_session_id
                input.replacement_session_token input.now)
              _ (t', answer) h in
          inr (ground (arith, b), rotated_parts r l)

  removal_inv : remove_owned_identity digest t input ≡ ok (t', answer) → (t' ≡ t) ⊎ Parted
  unfolding remove_owned_identity
  removal_inv e = decide _ _ refl refl e
    where
      decide :
          (unknown stale : Bool)
          → not (any (λ u. str_eq u.id input.actor_id && is_active_user u.status) t.users) ≡ unknown
          → not (
              is_fresh_session input.now (
                lock_active_session_for_otp t.sessions input.actor_id input.current_session_id
                  input.now))
            ≡ stale
          → (if unknown
              then ok (t, not_found)
              else if stale
              then err "identity removal requires fresh authentication"
              else remove_live digest t input)
            ≡ ok (t', answer)
          → (t' ≡ t) ⊎ Parted
      decide true stale a b h = inl (cc)
      decide false true a b h = absurd (cc)
      decide false false a b h = remove_live_inv h

  owned_id :
      (i : IdentityRow)
      → is_owned input.actor_id input.identity_id i ≡ true
      → i.id ≡ input.identity_id
  unfolding is_owned
  owned_id i e = ground (arith, eq_iff i.id input.identity_id)

  owned_apart :
      (user_id : String) (i : IdentityRow)
      → str_eq user_id input.actor_id ≡ false
      → is_owned input.actor_id input.identity_id i ≡ true
      → is_identity_of user_id i ≡ false
  unfolding is_owned is_identity_of
  owned_apart user_id i n e = ground (
    arith,
    eq_iff i.user_id user_id,
    eq_iff i.user_id input.actor_id,
    eq_iff user_id input.actor_id,
  )

  -- Whatever a removal of an identity answers, every user who had a verified identity still has one.
  -- The ids of the identities are distinct.
  pub remove_owned_identity-leaves_one :
      (user_id : String)
      → HasDistinctKeys identity_id t.identities
      → remove_owned_identity digest t input ≡ ok (t', answer)
      → 1 ≤ count (is_identity_of user_id) t.identities
      → 1 ≤ count (is_identity_of user_id) t'.identities
  unfolding Parted
  remove_owned_identity-leaves_one user_id distinct e h = elim (removal_inv e) [
    | inl same ↦ rw same h
    | inr (many, written) ↦ rw written (elim (Bool-cases (str_eq user_id input.actor_id)) [
      | inl y ↦
          let same : user_id ≡ input.actor_id = (eq_iff user_id input.actor_id).0 y in
          subst
            (λ u.
              1
              ≤ count (is_identity_of u) (
                  update (is_owned input.actor_id input.identity_id) (revoke_identity input.now)
                    t.identities))
            (sym same)
            (omega (
              arith,
              many,
              count-update-drop identity_id (is_owned input.actor_id input.identity_id)
                  (revoke_identity input.now) input.identity_id owned_id
                  (is_identity_of input.actor_id) t.identities distinct,
            ))
      | inr n ↦ omega (
        arith,
        h,
        count-update-le (is_owned input.actor_id input.identity_id) (revoke_identity input.now)
            (is_identity_of user_id) t.identities (λ i m k. owned_apart user_id i n k),
      )
    ])
  ]
