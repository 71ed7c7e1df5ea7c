-- ===== src/Invitations/Operations.antt =====
-- The four operations on invitations as one type of requests.
use tabela_pubg.Prelude.{bound, ℕ, ◌≡◌, String, List, Result, ok, ◌>>=◌}
use tabela_pubg.Invitations.{
  Directory, CreateInvitationInput, ResendInvitationInput, RevokeInvitationInput,
}
use tabela_pubg.Invitations.Issue.{create_invitation, resend_invitation}
use tabela_pubg.Invitations.Acceptance.{AcceptInvitationInput, revoke_invitation, accept_invitation}

pub data InvitationRequest : Type 0 where
  creation : (input : CreateInvitationInput) → InvitationRequest
  resending : (previous_id : String) (input : ResendInvitationInput) → InvitationRequest
  revocation : (id : String) (input : RevokeInvitationInput) → InvitationRequest
  acceptance : (token user_id : String) (input : AcceptInvitationInput) → InvitationRequest

-- What the digest of a token, the case tables and the JSON text of a payload are.
pub record Environment : Type 0 where
  pub to_json : List (String × String) → String
  pub digest : String → String
  pub to_lower_case : List ℕ → List ℕ

-- The tables that an operation leaves, without its answer.
abbrev pub tables_of : {A : Type 0} → Result (Directory × A) → Result Directory
tables_of r = r >>= λ answered. ok answered.0

abbrev pub run_invitation :
    Environment → Directory → ℕ → String → InvitationRequest → Result Directory
run_invitation env t now organization_id (creation input) =
    create_invitation env.to_json env.digest t now organization_id env.to_lower_case input
run_invitation env t now organization_id (resending previous_id input) =
    tables_of (resend_invitation env.to_json env.digest t now organization_id previous_id input)
run_invitation env t now organization_id (revocation id input) =
    tables_of (revoke_invitation env.to_json t now organization_id id input)
run_invitation env t now organization_id (acceptance token user_id input) =
    tables_of (accept_invitation env.to_json t now organization_id env.digest token user_id input)

pub answered :
    {A : Type 0} (r : Result (Directory × A)) (t' : Directory)
    → tables_of r ≡ ok t'
    → (a : A) × (r ≡ ok (t', a))
answered r t' e = let (p, k, l) = bound r _ t' e in (p.1, cc)
