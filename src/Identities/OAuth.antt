-- ===== src/Identities/OAuth.antt =====
-- packages/database/src/repositories/identity.ts: transactions of an OAuth sign-in, and the proofs by
-- which an identity is linked. The clock is read once, so its time is an argument.
use tabela_pubg.Prelude.{
  ℕ, ◌+◌, String, Bool, true, false, ◌&&◌, ◌||◌, Option, none, some, List, [], ◌∷◌, ◌++◌, any, find,
  update, returning, first, leb, ltb, if◌then◌else◌, str_eq, is_none, is_some, Result, ok, err,
  ◌>>=◌, ◌>>◌, require,
}
use tabela_pubg.Sessions.{SessionRow, is_live, is_session, is_active_user}
use tabela_pubg.Identities.{
  OAuthPurpose, sign_in, link_identity, step_up, OAuthTransactionRow, ProofPurpose,
  IdentityLinkProofRow, IdentityProvider, discord, to_link_identity, Registry, same_provider,
  current_method_proof_lifetime_ms, insert_proof,
}

pub record CreateOAuthTransactionInput : Type 0 where
  pub id : String
  pub state : String
  pub browser_binding : String
  pub purpose : OAuthPurpose
  pub expires_at : ℕ
  pub user_id : Option String
  pub session_id : Option String
  pub return_path : Option String

abbrev pub is_sign_in : OAuthPurpose → Bool
is_sign_in sign_in = true
is_sign_in _ = false

abbrev pub same_purpose : OAuthPurpose → OAuthPurpose → Bool
same_purpose sign_in sign_in = true
same_purpose link_identity link_identity = true
same_purpose step_up step_up = true
same_purpose _ _ = false

abbrev pub same_proof_purpose : ProofPurpose → ProofPurpose → Bool
same_proof_purpose to_link_identity to_link_identity = true
same_proof_purpose ProofPurpose.to_link_email ProofPurpose.to_link_email = true
same_proof_purpose ProofPurpose.to_change_email ProofPurpose.to_change_email = true
same_proof_purpose _ _ = false

-- A sign-in is bound to nobody, the other purposes to a user and a session.
unfoldable pub assert_oauth_purpose_binding : CreateOAuthTransactionInput → Result (Unit {0})
assert_oauth_purpose_binding input =
    require
      (if is_sign_in input.purpose
        then is_none input.user_id && is_none input.session_id
        else is_some input.user_id && is_some input.session_id)
      "OAuth purpose binding is invalid"

-- The join with the users keeps a session whose user is active.
unfoldable pub find_active_oauth_session :
    Registry → Option String → Option String → ℕ → Option SessionRow
unfolding is_session is_live
find_active_oauth_session t (some actor_id) (some session_id) now =
    find
      (λ s.
        is_session actor_id session_id s
        && any (λ u. str_eq u.id s.user_id && is_active_user u.status) t.users
        && is_live now s)
      t.sessions
find_active_oauth_session t _ _ now = none

-- Within ten minutes before `now`: `at <= now - lifetime` is moved over.
abbrev pub is_fresh : ℕ → Option ℕ → Bool
is_fresh now none = false
is_fresh now (some at) = ltb now (at + current_method_proof_lifetime_ms) && leb at now

-- The time of the proof that the new transaction keeps.
abbrev pub confirmed_at : OAuthPurpose → ℕ → Option SessionRow → Result (Option ℕ)
confirmed_at sign_in now session = ok none
confirmed_at _ now none = err "active session required"
confirmed_at step_up now (some s) = ok none
confirmed_at link_identity now (some s) =
    if is_fresh now s.reauthenticated_at
    then ok s.reauthenticated_at
    else err "fresh current-method proof required"

module _ (sha256 : String → String) where
  unfoldable pub transaction_row : CreateOAuthTransactionInput → Option ℕ → ℕ → OAuthTransactionRow
  transaction_row input confirmed now = record {
    id = input.id;
    user_id = input.user_id;
    session_id = input.session_id;
    purpose = input.purpose;
    state_digest = sha256 input.state;
    browser_binding_digest = sha256 input.browser_binding;
    current_method_confirmed_at = confirmed;
    return_path = input.return_path;
    expires_at = input.expires_at;
    consumed_at = none;
    created_at = now;
  }

  unfoldable pub insert_transaction :
      List OAuthTransactionRow → OAuthTransactionRow → Result (List OAuthTransactionRow)
  insert_transaction rows row =
      if any (λ r. str_eq r.id row.id || str_eq r.state_digest row.state_digest) rows
      then err "duplicate key value violates unique constraint"
      else ok (rows ++ row ∷ [])

  unfoldable pub create_oauth_transaction :
      Registry → CreateOAuthTransactionInput → ℕ → Result Registry
  unfolding assert_oauth_purpose_binding find_active_oauth_session transaction_row
      insert_transaction
  create_oauth_transaction t input now = do
    assert_oauth_purpose_binding input
    confirmed ←
        confirmed_at input.purpose now
          (find_active_oauth_session t input.user_id input.session_id now)
    rows ← insert_transaction t.oauth_transactions (transaction_row input confirmed now)
    ok (record t { oauth_transactions = rows })

  -- the open transaction of a browser with a state
  unfoldable pub is_transaction : String → String → OAuthPurpose → ℕ → OAuthTransactionRow → Bool
  is_transaction state browser_binding purpose now r =
      str_eq r.state_digest (sha256 state)
      && str_eq r.browser_binding_digest (sha256 browser_binding)
      && same_purpose r.purpose purpose
      && is_none r.consumed_at
      && ltb now r.expires_at

  unfoldable pub consume_transaction : ℕ → OAuthTransactionRow → OAuthTransactionRow
  consume_transaction now r = record r { consumed_at = some now }

  unfoldable pub consume_oauth_transaction :
      List OAuthTransactionRow
      → String
      → String
      → OAuthPurpose
      → ℕ
      → List OAuthTransactionRow × Option OAuthTransactionRow
  unfolding is_transaction consume_transaction
  consume_oauth_transaction rows state browser_binding purpose now =
      let held = is_transaction state browser_binding purpose now in
      (
        update held (consume_transaction now) rows,
        first (returning held (consume_transaction now) rows),
      )

pub record CreateIdentityLinkProofInput : Type 0 where
  pub id : String
  pub actor_id : String
  pub session_id : String
  pub purpose : ProofPurpose
  pub provider : IdentityProvider
  pub provider_subject : String
  pub expires_at : ℕ

unfoldable pub proof_row : CreateIdentityLinkProofInput → ℕ → IdentityLinkProofRow
proof_row input now = record {
  id = input.id;
  user_id = input.actor_id;
  session_id = input.session_id;
  purpose = input.purpose;
  provider = input.provider;
  provider_subject = input.provider_subject;
  expires_at = input.expires_at;
  consumed_at = none;
  created_at = now;
}

unfoldable pub create_identity_link_proof :
    Registry → CreateIdentityLinkProofInput → ℕ → Result Registry
unfolding find_active_oauth_session insert_proof proof_row
create_identity_link_proof t input now = do
  require (is_some (find_active_oauth_session t (some input.actor_id) (some input.session_id) now))
      "active session required"
  rows ← insert_proof t.link_proofs (proof_row input now)
  ok (record t { link_proofs = rows })

pub record ConsumeIdentityLinkProofInput : Type 0 where
  pub proof_id : String
  pub actor_id : String
  pub session_id : String
  pub provider : IdentityProvider
  pub provider_subject : Option String

abbrev pub is_wanted_subject : Option String → String → Bool
is_wanted_subject none subject = true
is_wanted_subject (some wanted) subject = str_eq subject wanted

unfoldable pub is_proof : Registry → ConsumeIdentityLinkProofInput → ℕ → IdentityLinkProofRow → Bool
unfolding find_active_oauth_session
is_proof t input now p =
    str_eq p.id input.proof_id
    && str_eq p.user_id input.actor_id
    && str_eq p.session_id input.session_id
    && same_provider p.provider input.provider
    && is_wanted_subject input.provider_subject p.provider_subject
    && is_none p.consumed_at
    && ltb now p.expires_at
    && is_some (find_active_oauth_session t (some input.actor_id) (some input.session_id) now)

unfoldable pub consume_proof : ℕ → IdentityLinkProofRow → IdentityLinkProofRow
consume_proof now p = record p { consumed_at = some now }

unfoldable pub consume_identity_link_proof :
    Registry → ConsumeIdentityLinkProofInput → ℕ → Registry × Option IdentityLinkProofRow
unfolding is_proof consume_proof
consume_identity_link_proof t input now = (
  record t { link_proofs = update (is_proof t input now) (consume_proof now) t.link_proofs },
  first (returning (is_proof t input now) (consume_proof now) t.link_proofs),
)

-- the proof of a Discord identity that waits to be linked
unfoldable pub is_pending_link : String → String → String → ℕ → IdentityLinkProofRow → Bool
is_pending_link actor_id session_id proof_id now p =
    str_eq p.id proof_id
    && str_eq p.user_id actor_id
    && str_eq p.session_id session_id
    && same_proof_purpose p.purpose to_link_identity
    && same_provider p.provider discord
    && is_none p.consumed_at
    && ltb now p.expires_at

unfoldable pub find_pending_identity_link :
    Registry → String → String → String → ℕ → Option IdentityLinkProofRow
unfolding is_pending_link
find_pending_identity_link t actor_id session_id proof_id now =
    find (is_pending_link actor_id session_id proof_id now) t.link_proofs
