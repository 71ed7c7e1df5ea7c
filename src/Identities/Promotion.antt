-- ===== src/Identities/Promotion.antt =====
-- packages/database/src/repositories/identity.ts: what completing the code of a provisional sign-in
-- does to the sessions.
use mathlib.Core.Path.{subst}
use tabela_pubg.Prelude.{
  ℕ, ◌≡◌, refl, sym, ap, ◌∙◌, inl, inr, String, true, false, not, ◌||◌, Option, none, some, List,
  find, ok, err, Result, Bool-cases, is_some, bound, required, passed, HasDistinctKeys,
}
use tabela_pubg.Sessions.{
  session_id, revoke_other_sessions, promote_provisional_session_trust, mark_session_step_up,
}
use tabela_pubg.Sessions.Issue.{replace_active_session_token}
use tabela_pubg.Sessions.Promotions.{Promoted, promote_one}
use tabela_pubg.Challenges.{
  AuthChallengePurpose, assert_challenge_binding, is_sign_in, consume_auth_challenge_by_digest,
}
use tabela_pubg.Identities.{Registry, email_digest, insert_proof}
use tabela_pubg.Identities.Accounts.{
  AccountResult, created, resolved, conflict, create_email_account, completion_rejected,
  link_verified_email_to_actor,
}
use tabela_pubg.Identities.SignIns.{link_keeps}
use tabela_pubg.Identities.Completion.{
  CompletionInput, Completion, provisional_email_verified, account_input, challenge_input,
  is_completable, bound_session, is_promotion, is_provisional, completion_code_digest, promote,
  finish, finish_bound, finish_with, finish_sign_in, promote_with, signed_in, complete, or_rejected,
  is_rejection, complete_otp_challenge,
}

-- The session that a completion was asked for has been promoted.
abbrev pub Upgraded :
    (String → String) → Registry → Registry → CompletionInput → String → String → String → Type 0
Upgraded digest t t' input user_id id token =
    (input.actor_id ≡ some user_id)
    × (input.session_id ≡ some id)
    × Promoted digest t.sessions t'.sessions user_id id token input.now

module _ (digest : String → String) (sha256 : List ℕ → String) (to_lower_case : List ℕ → List ℕ)
    (challenge_code_digest : List ℕ → AuthChallengePurpose → String → String) (t t' : Registry)
    (input : CompletionInput) (user_id id token : String)
    (distinct : HasDistinctKeys session_id t.sessions) where
  abbrev answer_of : Completion
  answer_of = provisional_email_verified user_id id token

  from_promote :
      (u : Registry) (actor own given : String)
      → u.sessions ≡ t.sessions
      → promote digest sha256 to_lower_case challenge_code_digest u input actor own given
        ≡ ok (t', answer_of)
      → (actor ≡ user_id)
        × (own ≡ id)
        × Promoted digest t.sessions t'.sessions user_id id token input.now
  unfolding promote
  from_promote u actor own given kept e =
      let (linked, k, e1) =
        bound (link_verified_email_to_actor sha256 to_lower_case u (account_input input actor)) _
          (t', answer_of) e in
      let trusted = promote_provisional_session_trust linked.sessions actor own input.now in
      let (was, e2) = required trusted.1 completion_rejected _ (t', answer_of) e1 in
      let (written, m, e3) =
        bound (replace_active_session_token digest trusted.0 actor own given input.now) _
          (t', answer_of) e2 in
      let (wrote, e4) = required written.1 completion_rejected _ (t', answer_of) e3 in
      let sessions : linked.sessions ≡ t.sessions =
        (link_keeps sha256 to_lower_case u linked (account_input input actor) k).1 ∙ kept in
      let on =
        promote_one digest linked.sessions actor own given input.now
          (subst (HasDistinctKeys session_id) (sym sessions) distinct) written was m wrote in
      let same : record linked {
        sessions = (revoke_other_sessions written.0 actor own "identity-link" input.now).0;
      }
          ≡ t' =
        cc in
      let who : actor ≡ user_id = cc in
      let which : own ≡ id = cc in
      let what : given ≡ token = cc in
      (
        who,
        which,
        subst (λ x. Promoted digest t.sessions x.sessions user_id id token input.now) same
            (rw (sym sessions, sym who, sym which, sym what) on),
      )

  from_bound :
      (u : Registry) (purpose : AuthChallengePurpose) (actor own : String)
      → u.sessions ≡ t.sessions
      → finish_bound digest sha256 to_lower_case challenge_code_digest u input purpose actor own
        ≡ ok (t', answer_of)
      → (actor ≡ user_id)
        × (own ≡ id)
        × Promoted digest t.sessions t'.sessions user_id id token input.now
  from_bound u AuthChallengePurpose.sign_in actor own kept e = absurd (cc)
  from_bound u AuthChallengePurpose.link_email actor own kept e =
      let (proofs, k, l) = bound (insert_proof u.link_proofs _) _ (t', answer_of) e in absurd (cc)
  from_bound u AuthChallengePurpose.change_email actor own kept e =
      let (proofs, k, l) = bound (insert_proof u.link_proofs _) _ (t', answer_of) e in absurd (cc)
  from_bound u AuthChallengePurpose.step_up actor own kept e =
      let (_, l) =
        required (mark_session_step_up u.sessions actor own input.now).1 completion_rejected _
          (t', answer_of) e in
      absurd (cc)
  from_bound u AuthChallengePurpose.verify_provisional_email actor own kept e =
      given input.replacement_session_token e
    where
      given :
          (o : Option String)
          → promote_with digest sha256 to_lower_case challenge_code_digest u input actor own o
            ≡ ok (t', answer_of)
          → (actor ≡ user_id)
            × (own ≡ id)
            × Promoted digest t.sessions t'.sessions user_id id token input.now
      given none h = absurd (cc)
      given (some new) h = from_promote u actor own new kept h

  from_sign_in :
      (u : Registry)
      → finish_sign_in digest sha256 to_lower_case challenge_code_digest u input
        ≡ ok (t', answer_of)
      → false ≡ true
  unfolding finish_sign_in
  from_sign_in u e =
      let ((d, said), k, l) =
        bound (create_email_account sha256 to_lower_case u (account_input input input.user_id)) _
          (t', answer_of) e in
      told d said l
    where
      told :
          (d : Registry) (said : AccountResult)
          → ◌≡◌ {A = Result (Registry × Completion)} (ok (signed_in (d, said))) (ok (t', answer_of))
          → false ≡ true
      told d (created w) l = absurd (cc)
      told d (resolved w) l = absurd (cc)
      told d conflict l = absurd (cc)

  from_finish :
      (u : Registry)
      → u.sessions ≡ t.sessions
      → finish digest sha256 to_lower_case challenge_code_digest u input input.actor_id
          input.session_id
        ≡ ok (t', answer_of)
      → Upgraded digest t t' input user_id id token
  from_finish u kept e = elim (Bool-cases (is_sign_in input.purpose)) [
    | inl y ↦ absurd (cc (from_sign_in u (rw y at e)))
    | inr n ↦ with_ids input.actor_id input.session_id refl refl (rw n at e)
  ]
    where
      with_ids :
          (a s : Option String)
          → input.actor_id ≡ a
          → input.session_id ≡ s
          → finish_with digest sha256 to_lower_case challenge_code_digest u input a s
            ≡ ok (t', answer_of)
          → Upgraded digest t t' input user_id id token
      with_ids (some actor) (some own) x y h =
          let (who, which, on) = from_bound u input.purpose actor own kept h in
          (x ∙ ap some who, y ∙ ap some which, on)
      with_ids (some actor) none x y h = absurd (cc)
      with_ids none s x y h = absurd (cc)

  from_complete :
      (code_digest : String)
      → complete digest sha256 to_lower_case challenge_code_digest t input code_digest
        ≡ ok (t', answer_of)
      → Upgraded digest t t' input user_id id token
  unfolding complete
  from_complete code_digest e =
      let found =
        find (is_completable input (email_digest sha256 to_lower_case input.email_text) code_digest)
          t.challenges in
      let session = bound_session t input.actor_id input.session_id input.now in
      let done : Registry × Completion = (t', answer_of) in
      let (_, e1) = required (is_some found) completion_rejected _ done e in
      let (_, e2) =
        required (is_sign_in input.purpose || is_some session) completion_rejected _ done e1 in
      let (_, e3) =
        required (not (is_promotion input.purpose) || is_provisional session) completion_rejected _
          done e2 in
      let (consumed, _, e4) =
        bound
          (consume_auth_challenge_by_digest t.challenges (challenge_input input) code_digest
            input.now)
          _ done e3 in
      let (_, e5) = required consumed.1 completion_rejected _ done e4 in
      from_finish (record t { challenges = consumed.0 }) refl e5

  -- A completion that answers with a verified provisional email was asked for by a user and a session
  -- of that user which was provisional and live. The session is now a trusted one of the same user,
  -- has the digest of the new token and counts as just confirmed, and every other session of the user
  -- is revoked. The ids of the sessions are distinct.
  pub complete_otp_challenge-Promoted :
      complete_otp_challenge digest sha256 to_lower_case challenge_code_digest t input
        ≡ ok (t', provisional_email_verified user_id id token)
      → Upgraded digest t t' input user_id id token
  unfolding complete_otp_challenge
  complete_otp_challenge-Promoted e =
      let (_, e1) =
        passed (assert_challenge_binding input.purpose input.actor_id input.session_id) _
          (t', answer_of) e in
      let (code_digest, _, e2) =
        bound
          (completion_code_digest digest sha256 to_lower_case challenge_code_digest input
            input.code_digest input.code)
          _ (t', answer_of) e1 in
      decide code_digest _ refl e2
    where
      decide :
          (code_digest : String) (r : Result (Registry × Completion))
          → complete digest sha256 to_lower_case challenge_code_digest t input code_digest ≡ r
          → or_rejected digest sha256 to_lower_case challenge_code_digest t r ≡ ok (t', answer_of)
          → Upgraded digest t t' input user_id id token
      decide code_digest (ok done) k h = from_complete code_digest (k ∙ h)
      decide code_digest (err message) k h =
          elim (Bool-cases
            (is_rejection digest sha256 to_lower_case challenge_code_digest message)) [
              | inl y ↦ absurd (cc (rw y at h))
              | inr n ↦ absurd (cc (rw n at h))
            ]
