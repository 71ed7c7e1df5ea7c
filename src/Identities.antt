-- ===== src/Identities.antt =====
-- The tables of packages/database/src/schema/identity.ts that say who a user is, as
-- packages/database/src/repositories/identity.ts uses them: identities and verified emails, beside
-- the sessions and the one-time codes. `sha256` and `to_lower_case` are parameters; an email is its
-- code points; names for display are left out.
pub mod Accounts
pub mod OAuth
pub mod Completion
pub mod Removal
pub mod LastIdentity
pub mod SignIns
pub mod Returning
pub mod Completed
pub mod Reuse
pub mod Promotion
pub mod Transactions
pub mod Tests
pub mod CodeTests
use tabela_pubg.Prelude.{
  ℕ, ◌*◌, String, Bool, true, false, ◌&&◌, ◌||◌, Option, none, some, List, [], ◌∷◌, ◌++◌, any, find,
  ◌==◌, if◌then◌else◌, str_eq, is_none, trim, Result, ok, err,
}
use tabela_pubg.Sessions.{SessionRow, UserRow, UserStatus}
use tabela_pubg.Challenges.{AuthChallengeRow}

pub data IdentityProvider : Type 0 where
  discord email : IdentityProvider

pub data IdentityStatus : Type 0 where
  pending verified revoked : IdentityStatus

pub record IdentityRow : Type 0 where
  pub id : String
  pub user_id : String
  pub provider : IdentityProvider
  pub provider_subject : String
  pub status : IdentityStatus
  pub verified_at : Option ℕ
  pub revoked_at : Option ℕ

pub record VerifiedEmailRow : Type 0 where
  pub id : String
  pub user_id : String
  pub identity_id : String
  pub normalized_email : List ℕ
  pub verified_at : ℕ
  pub revoked_at : Option ℕ

pub data OAuthPurpose : Type 0 where
  sign_in link_identity step_up : OAuthPurpose

pub record OAuthTransactionRow : Type 0 where
  pub id : String
  pub user_id : Option String
  pub session_id : Option String
  pub purpose : OAuthPurpose
  pub state_digest : String
  pub browser_binding_digest : String
  pub current_method_confirmed_at : Option ℕ
  pub return_path : Option String
  pub expires_at : ℕ
  pub consumed_at : Option ℕ
  pub created_at : ℕ

pub data ProofPurpose : Type 0 where
  to_link_identity to_link_email to_change_email : ProofPurpose

pub record IdentityLinkProofRow : Type 0 where
  pub id : String
  pub user_id : String
  pub session_id : String
  pub purpose : ProofPurpose
  pub provider : IdentityProvider
  pub provider_subject : String
  pub expires_at : ℕ
  pub consumed_at : Option ℕ
  pub created_at : ℕ

pub record Registry : Type 0 where
  pub users : List UserRow
  pub sessions : List SessionRow
  pub challenges : List AuthChallengeRow
  pub identities : List IdentityRow
  pub verified_emails : List VerifiedEmailRow
  pub oauth_transactions : List OAuthTransactionRow
  pub link_proofs : List IdentityLinkProofRow

abbrev pub current_method_proof_lifetime_ms : ℕ
current_method_proof_lifetime_ms = 10 * 60000

abbrev pub same_provider : IdentityProvider → IdentityProvider → Bool
same_provider discord discord = true
same_provider email email = true
same_provider _ _ = false

abbrev pub is_verified : IdentityStatus → Bool
is_verified verified = true
is_verified _ = false

abbrev pub same_email : List ℕ → List ℕ → Bool
same_email [] [] = true
same_email (c ∷ cs) (d ∷ ds) = c == d && same_email cs ds
same_email _ _ = false

unfoldable pub normalize_email : (List ℕ → List ℕ) → List ℕ → List ℕ
normalize_email to_lower_case text = to_lower_case (trim text)

unfoldable pub email_digest : (List ℕ → String) → (List ℕ → List ℕ) → List ℕ → String
unfolding normalize_email
email_digest sha256 to_lower_case text = sha256 (normalize_email to_lower_case text)

abbrev pub identity_id : IdentityRow → String
identity_id i = i.id

-- An identity of the provider for the subject, in whatever state.
unfoldable pub is_subject : IdentityProvider → String → IdentityRow → Bool
is_subject provider subject i =
    same_provider i.provider provider && str_eq i.provider_subject subject

-- verified, and not revoked
unfoldable pub is_live_identity : IdentityRow → Bool
is_live_identity i = is_verified i.status && is_none i.revoked_at

unfoldable pub is_email_identity : String → IdentityRow → Bool
unfolding is_subject is_live_identity
is_email_identity subject i = is_subject email subject i && is_live_identity i

unfoldable pub insert_user : List UserRow → String → Result (List UserRow)
insert_user rows id =
    if any (λ u. str_eq u.id id) rows
    then err "duplicate key value violates unique constraint"
    else ok (rows ++ record { id = id; status = UserStatus.active } ∷ [])

-- `on conflict do nothing` on the provider and its subject: whether a row was inserted.
unfoldable pub insert_identity : List IdentityRow → IdentityRow → Result (List IdentityRow × Bool)
unfolding is_subject
insert_identity rows row =
    if any (is_subject row.provider row.provider_subject) rows
    then ok (rows, false)
    else if any (λ i. str_eq i.id row.id) rows
    then err "duplicate key value violates unique constraint"
    else ok (rows ++ row ∷ [], true)

-- An email is verified once, an identity has one, and a user has one that is current.
unfoldable pub email_clashes : VerifiedEmailRow → VerifiedEmailRow → Bool
email_clashes row e =
    str_eq e.id row.id
    || same_email e.normalized_email row.normalized_email
    || str_eq e.identity_id row.identity_id
    || (str_eq e.user_id row.user_id && is_none e.revoked_at)

unfoldable pub insert_verified_email :
    List VerifiedEmailRow → VerifiedEmailRow → Result (List VerifiedEmailRow)
unfolding email_clashes
insert_verified_email rows row =
    if any (email_clashes row) rows
    then err "duplicate key value violates unique constraint"
    else ok (rows ++ row ∷ [])

unfoldable pub insert_proof :
    List IdentityLinkProofRow → IdentityLinkProofRow → Result (List IdentityLinkProofRow)
insert_proof rows row =
    if any (λ p. str_eq p.id row.id) rows
    then err "duplicate key value violates unique constraint"
    else ok (rows ++ row ∷ [])
