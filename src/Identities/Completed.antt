-- ===== src/Identities/Completed.antt =====
-- What the completion of a one-time code has checked, and that a code is completed once.
use mathlib.Core.List.{Memᴰ}
use tabela_pubg.Prelude.{
  bound, required, passed, ℕ, ◌≡◌, ◌≢◌, refl, sym, ap, ◌∙◌, ◌⊎◌, inl, inr, String, Bool, true, not,
  ◌||◌, Option, none, some, List, update, find, arith, ok, err, Result, Bool-cases, eq_iff, is_some,
  Memᴰ-find, find-true,
}
use tabela_pubg.Sessions.{
  mark_session_step_up, promote_provisional_session_trust, revoke_other_sessions,
}
use tabela_pubg.Sessions.Issue.{replace_active_session_token}
use tabela_pubg.Challenges.{
  AuthChallengeRow, AuthChallengePurpose, ChallengeInput, is_open, is_usable, is_challenge,
  may_consume, consume, consume_auth_challenge_by_digest, assert_challenge_binding, is_bound,
  same_purpose, is_sign_in,
}
use tabela_pubg.Identities.{Registry, email_digest, insert_proof}
use tabela_pubg.Identities.Accounts.{
  AccountResult, created, resolved, conflict, completion_rejected, create_email_account,
  link_verified_email_to_actor,
}
use tabela_pubg.Identities.Completion.{
  CompletionInput, Completion, rejected, is_completable, bound_session, is_provisional,
  is_promotion, challenge_input, account_input, signed_in, promote, finish_sign_in, finish_bound,
  completion_code_digest, finish, finish_with, promote_with, complete, or_rejected, is_rejection,
  complete_otp_challenge,
}
use tabela_pubg.Identities.SignIns.{account_found, link_keeps}

consumed-eq :
    (rows : List AuthChallengeRow) (input : ChallengeInput) (code_digest : String) (now : ℕ)
    (done : List AuthChallengeRow × Bool)
    → consume_auth_challenge_by_digest rows input code_digest now ≡ ok done
    → done.0 ≡ update (may_consume input code_digest now) (consume now) rows
unfolding consume_auth_challenge_by_digest
consumed-eq rows input code_digest now done e =
    let (_, k) =
      passed (assert_challenge_binding input.purpose input.actor_id input.session_id) _ done e in
    cc

-- What the query of a completion asks of a challenge.
completable_parts :
    (input : CompletionInput) (digest_of_email code_digest : String) (r : AuthChallengeRow)
    → is_completable input digest_of_email code_digest r ≡ true
    → (r.id ≡ input.challenge_id)
      × (r.email_digest ≡ digest_of_email)
      × (same_purpose r.purpose input.purpose ≡ true)
      × (r.code_digest ≡ code_digest)
      × (is_open r ≡ true)
      × (is_usable input.now r ≡ true)
      × (is_bound input.actor_id input.session_id r ≡ true)
unfolding is_completable
completable_parts input digest_of_email code_digest r e = (
  ground (arith, eq_iff r.id input.challenge_id),
  ground (arith, eq_iff r.email_digest digest_of_email),
  ground (arith, e),
  ground (arith, eq_iff r.code_digest code_digest),
  ground (arith, e),
  ground (arith, e),
  ground (arith, e),
)

takes :
    (input : CompletionInput) (digest_of_email code_digest : String) (r : AuthChallengeRow)
    → is_completable input digest_of_email code_digest r ≡ true
    → may_consume (challenge_input input) code_digest input.now r ≡ true
unfolding may_consume is_challenge
takes input digest_of_email code_digest r e =
    let (a, _, b, c, d, f, g) = completable_parts input digest_of_email code_digest r e in
    rw (b, d, f, g)
      (ground (arith, (eq_iff r.id input.challenge_id).1 a, (eq_iff r.code_digest code_digest).1 c))

module _ (digest : String → String) (sha256 : List ℕ → String) (to_lower_case : List ℕ → List ℕ)
    (challenge_code_digest : List ℕ → AuthChallengePurpose → String → String) (t t' : Registry)
    (input : CompletionInput) (answer : Completion) where
  -- The challenge that the code completes, as it was, and the challenges after.
  pub record Accepted : Type 0 where
    pub code_digest : String
    pub code_given :
        completion_code_digest digest sha256 to_lower_case challenge_code_digest input
          input.code_digest input.code
        ≡ ok code_digest
    pub challenge : AuthChallengeRow
    pub listed : Memᴰ challenge t.challenges
    pub named : challenge.id ≡ input.challenge_id
    pub addressed : challenge.email_digest ≡ email_digest sha256 to_lower_case input.email_text
    pub for_purpose : same_purpose challenge.purpose input.purpose ≡ true
    pub right_code : challenge.code_digest ≡ code_digest
    pub bound_to : is_bound input.actor_id input.session_id challenge ≡ true
    pub was_open : is_open challenge ≡ true
    pub was_usable : is_usable input.now challenge ≡ true
    pub used :
        t'.challenges
        ≡ update
            (may_consume (challenge_input input) code_digest input.now)
            (consume input.now)
            t.challenges
    pub taken : may_consume (challenge_input input) code_digest input.now challenge ≡ true
    pub not_rejected : answer ≢ rejected

  abbrev Ends : Registry → Type 0
  Ends u = (t'.challenges ≡ u.challenges) × (answer ≢ rejected)

  signed :
      (u : Registry)
      → finish_sign_in digest sha256 to_lower_case challenge_code_digest u input ≡ ok (t', answer)
      → Ends u
  unfolding finish_sign_in
  signed u e =
      let ((d, said), k, l) =
        bound (create_email_account sha256 to_lower_case u (account_input input input.user_id)) _
          (t', answer) e in
      let (i, _, known, kept) =
        account_found sha256 to_lower_case u d (account_input input input.user_id) said k in
      told d said l kept known
    where
      told :
          {user_id : String} (d : Registry) (said : AccountResult)
          → ◌≡◌ {A = Result (Registry × Completion)} (ok (signed_in (d, said))) (ok (t', answer))
          → d.challenges ≡ u.challenges
          → (said ≡ created user_id) ⊎ (said ≡ resolved user_id)
          → Ends u
      told d (created w) l kept known =
          let same : d ≡ t' = cc in (ap (λ x. x.challenges) (sym same) ∙ kept, λ r. cc)
      told d (resolved w) l kept known =
          let same : d ≡ t' = cc in (ap (λ x. x.challenges) (sym same) ∙ kept, λ r. cc)
      told d conflict l kept (inl known) = absurd (cc)
      told d conflict l kept (inr known) = absurd (cc)

  promoted :
      (u : Registry) (actor_id session_id token : String)
      → promote digest sha256 to_lower_case challenge_code_digest u input actor_id session_id token
        ≡ ok (t', answer)
      → Ends u
  unfolding promote
  promoted u actor_id session_id token e =
      let account = account_input input actor_id in
      let (linked, k, e1) =
        bound (link_verified_email_to_actor sha256 to_lower_case u account) _ (t', answer) e in
      let trusted =
        promote_provisional_session_trust linked.sessions actor_id session_id input.now in
      let (_, e2) = required trusted.1 completion_rejected _ (t', answer) e1 in
      let (written, m, e3) =
        bound (replace_active_session_token digest trusted.0 actor_id session_id token input.now) _
          (t', answer) e2 in
      let (_, e4) = required written.1 completion_rejected _ (t', answer) e3 in
      let same : record linked {
        sessions =
            (revoke_other_sessions written.0 actor_id session_id "identity-link" input.now).0;
      }
          ≡ t' =
        cc in
      (rw (sym same) ((link_keeps sha256 to_lower_case u linked account k).0), λ r. cc)

  for_purposes :
      (u : Registry) (purpose : AuthChallengePurpose) (actor_id session_id : String)
      → finish_bound digest sha256 to_lower_case challenge_code_digest u input purpose actor_id
          session_id
        ≡ ok (t', answer)
      → Ends u
  for_purposes u AuthChallengePurpose.sign_in actor_id session_id e = absurd (cc)
  for_purposes u AuthChallengePurpose.link_email actor_id session_id e =
      let (proofs, k, l) = bound (insert_proof u.link_proofs _) _ (t', answer) e in
      let same : record u { link_proofs = proofs } ≡ t' = cc in (rw (sym same) refl, λ r. cc)
  for_purposes u AuthChallengePurpose.change_email actor_id session_id e =
      let (proofs, k, l) = bound (insert_proof u.link_proofs _) _ (t', answer) e in
      let same : record u { link_proofs = proofs } ≡ t' = cc in (rw (sym same) refl, λ r. cc)
  for_purposes u AuthChallengePurpose.step_up actor_id session_id e =
      let (_, l) =
        required (mark_session_step_up u.sessions actor_id session_id input.now).1
          completion_rejected _ (t', answer) e in
      let same : record u {
        sessions = (mark_session_step_up u.sessions actor_id session_id input.now).0;
      }
          ≡ t' =
        cc in
      (rw (sym same) refl, λ r. cc)
  for_purposes u AuthChallengePurpose.verify_provisional_email actor_id session_id e =
      with_token input.replacement_session_token e
    where
      with_token :
          (token : Option String)
          → promote_with digest sha256 to_lower_case challenge_code_digest u input actor_id
              session_id token
            ≡ ok (t', answer)
          → Ends u
      with_token none h = absurd (cc)
      with_token (some token) h = promoted u actor_id session_id token h

  finished :
      (u : Registry)
      → finish digest sha256 to_lower_case challenge_code_digest u input input.actor_id
          input.session_id
        ≡ ok (t', answer)
      → Ends u
  finished u e = elim (Bool-cases (is_sign_in input.purpose)) [
    | inl y ↦ signed u (rw y at e)
    | inr n ↦ bound_to input.actor_id input.session_id (rw n at e)
  ]
    where
      bound_to :
          (actor_id session_id : Option String)
          → finish_with digest sha256 to_lower_case challenge_code_digest u input actor_id
              session_id
            ≡ ok (t', answer)
          → Ends u
      bound_to (some a) (some s) h = for_purposes u input.purpose a s h
      bound_to (some a) none h = absurd (cc)
      bound_to none session_id h = absurd (cc)

  challenge_inv :
      (code_digest : String)
      → completion_code_digest digest sha256 to_lower_case challenge_code_digest input
          input.code_digest input.code
        ≡ ok code_digest
      → complete digest sha256 to_lower_case challenge_code_digest t input code_digest
        ≡ ok (t', answer)
      → Accepted
  unfolding complete
  challenge_inv code_digest given e =
      let wanted =
        is_completable input (email_digest sha256 to_lower_case input.email_text) code_digest in
      let session = bound_session t input.actor_id input.session_id input.now in
      let (there, e1) =
        required (is_some (find wanted t.challenges)) completion_rejected _ (t', answer) e in
      let (_, e2) =
        required (is_sign_in input.purpose || is_some session) completion_rejected _ (t', answer)
          e1 in
      let (_, e3) =
        required (not (is_promotion input.purpose) || is_provisional session) completion_rejected _
          (t', answer) e2 in
      let (consumed, k, e4) =
        bound
          (consume_auth_challenge_by_digest t.challenges (challenge_input input) code_digest
            input.now)
          _ (t', answer) e3 in
      let (_, e5) = required consumed.1 completion_rejected _ (t', answer) e4 in
      let (kept, apart) = finished (record t { challenges = consumed.0 }) e5 in
      accept _ refl there
        (kept ∙ consumed-eq t.challenges (challenge_input input) code_digest input.now consumed k)
        apart
    where
      accept :
          (found : Option AuthChallengeRow)
          → find
              (is_completable input
                (email_digest sha256 to_lower_case input.email_text)
                code_digest)
              t.challenges
            ≡ found
          → is_some found ≡ true
          → t'.challenges
            ≡ update
                (may_consume (challenge_input input) code_digest input.now)
                (consume input.now)
                t.challenges
          → answer ≢ rejected
          → Accepted
      accept none f h used apart = absurd (cc)
      accept (some r) f h used apart =
          let digest_of_email = email_digest sha256 to_lower_case input.email_text in
          let fits =
            find-true (is_completable input digest_of_email code_digest) t.challenges r f in
          let (a, b, c, d, o, g, h) = completable_parts input digest_of_email code_digest r fits in
          record {
            code_digest = code_digest;
            code_given = given;
            challenge = r;
            listed = Memᴰ-find _ t.challenges r f;
            named = a;
            addressed = b;
            for_purpose = c;
            right_code = d;
            bound_to = h;
            was_open = o;
            was_usable = g;
            used = used;
            taken = takes input digest_of_email code_digest r fits;
            not_rejected = apart;
          }

  -- A completion that returns has either rejected the code and left every table as it was, or has
  -- found a challenge with the id, the email, the purpose, the user, the session and the digest of the
  -- given code that was open, had attempts left and had not expired, and has consumed it; then its
  -- answer is no rejection.
  pub complete_otp_challenge-Accepted :
      complete_otp_challenge digest sha256 to_lower_case challenge_code_digest t input
        ≡ ok (t', answer)
      → ((t' ≡ t) × (answer ≡ rejected)) ⊎ Accepted
  unfolding complete_otp_challenge
  complete_otp_challenge-Accepted e =
      let (_, e1) =
        passed (assert_challenge_binding input.purpose input.actor_id input.session_id) _
          (t', answer) e in
      let (code_digest, given, e2) =
        bound
          (completion_code_digest digest sha256 to_lower_case challenge_code_digest input
            input.code_digest input.code)
          _ (t', answer) e1 in
      decide code_digest given _ refl e2
    where
      decide :
          (code_digest : String)
          → completion_code_digest digest sha256 to_lower_case challenge_code_digest input
              input.code_digest input.code
            ≡ ok code_digest
          → (r : Result (Registry × Completion))
          → complete digest sha256 to_lower_case challenge_code_digest t input code_digest ≡ r
          → or_rejected digest sha256 to_lower_case challenge_code_digest t r ≡ ok (t', answer)
          → ((t' ≡ t) × (answer ≡ rejected)) ⊎ Accepted
      decide code_digest given (ok done) k h = inr (challenge_inv code_digest given (k ∙ h))
      decide code_digest given (err message) k h =
          elim (Bool-cases
            (is_rejection digest sha256 to_lower_case challenge_code_digest message)) [
              | inl y ↦ inl (cc (rw y at h), cc (rw y at h))
              | inr n ↦ absurd (cc (rw n at h))
            ]
