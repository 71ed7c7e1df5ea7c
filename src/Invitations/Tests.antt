-- ===== src/Invitations/Tests.antt =====
-- Runs of the operations on invitations, and their theorems there.
use tabela_pubg.Prelude.{
  ℕ, ◌≡◌, ◌⊎◌, refl, String, Option, none, some, [], ◌∷◌, map, arith, ok, ap, str_append, codes,
  trim,
}
use tabela_pubg.Outbox.{append_outbox_event, to_outbox_record}
use tabela_pubg.Organizations.{
  owner, active, MembershipRow, referee, Tables, is_member, is_sensitive_field, has_at_sign,
  sanitize_snapshot, append_audit_event, fold_case,
}
use tabela_pubg.Members.{
  MutationMetadata, as_member, lock_organization, role_key, is_active_owner, audit_event,
  outbox_event, append_events,
}
use tabela_pubg.Members.{removed}
use tabela_pubg.Members.Operations.{run, removal}
use tabela_pubg.Members.Exits.{revoke_membership, revoke_target, apply_removal}
use tabela_pubg.Members.{conclude}
use tabela_pubg.Members.Roles.{
  is_open_scope, validate_role_payload, is_assigned, clashes, insert_assignments,
}
use tabela_pubg.Invitations.{
  InvitationRow, Directory, collides, CreateInvitationInput, activate, find_invitation_by_token,
}
use tabela_pubg.Invitations.Issue.{create_invitation, resend_invitation}
use tabela_pubg.Invitations.Acceptance.{AcceptInvitationInput, accept_invitation}
use tabela_pubg.Invitations.Operations.{
  Environment, InvitationRequest, creation, resending, acceptance, run_invitation, tables_of,
}
use tabela_pubg.Invitations.Lifecycle.{stage, accepted, stages}
use tabela_pubg.Invitations.Refinement.{Moved, run_invitation_refines}
use tabela_pubg.Invitations.Invariant.{IsSound, run_invitation-IsSound}
use tabela_pubg.Invitations.Joining.{HasJoined, accept_invitation-HasJoined}
use tabela_pubg.Invitations.History.{
  History, Change, History-IsSound, here, next, History-keeps_ended,
}
use tabela_pubg.Invitations.Owners.{HasOwner, History-HasOwner}
use tabela_pubg.Invitations.Once.{accept_invitation_once}
use tabela_pubg.Invitations.Tokens.{IsIssued, find_invitation_by_token-create_invitation}

running : Unit {0}
unfolding append_outbox_event to_outbox_record is_member is_sensitive_field has_at_sign
    sanitize_snapshot append_audit_event lock_organization role_key is_open_scope
    validate_role_payload is_assigned clashes insert_assignments is_active_owner audit_event
    outbox_event append_events trim create_invitation resend_invitation accept_invitation collides
    activate stage find_invitation_by_token
running = tt

abbrev digest_of : String → String
digest_of token = str_append "d" token

abbrev environment : Environment
environment = record { to_json = λ fields. "{}"; digest = digest_of; to_lower_case = map fold_case }

abbrev founder : MembershipRow
founder = record {
  id = "m1";
  organization_id = "o1";
  user_id = "u1";
  role = owner;
  status = active;
  joined_at = 0;
  revoked_at = none;
  revocation_reason = none;
  updated_at = 0;
}

abbrev start : Directory
start = record {
  tables = record {
    organizations = "o1" ∷ [];
    memberships = founder ∷ [];
    scopes = record { id = "c1"; organization_id = "o1"; label = "Cup"; archived_at = none } ∷ [];
    assignments = [];
    audit_events = [];
    outbox_events = [];
  };
  invitations = [];
  verified_emails =
      record {
        id = "v1";
        identity_id = "n1";
        verified_at = 0;
        user_id = "u9";
        normalized_email = codes "ana@x.io";
        revoked_at = none;
      }
      ∷ [];
}

abbrev metadata : String → ℕ → MutationMetadata
metadata id at = record {
  audit_event_id = str_append "a" id;
  outbox_event_id = str_append "e" id;
  correlation_id = "x1";
  reason = "season start";
  occurred_at = at;
}

abbrev invite : CreateInvitationInput
invite = record {
  metadata = metadata "1" 1000;
  id = "i1";
  invited_by_membership_id = "m1";
  email = " Ana@X.io";
  token = "secret";
  organization_role = as_member;
  role_payload = record { authorization_scope_id = "c1"; role = referee } ∷ [];
  issued_at = 1000;
}

abbrev join : AcceptInvitationInput
join = record { metadata = metadata "2" 2000; membership_id = "m9"; assignment_ids = "r1" ∷ [] }

created : (t : Directory) × (run_invitation environment start 1000 "o1" (creation invite) ≡ ok t)
unfolding running
created = (_, refl)

joined :
    (t : Directory) × (accept_invitation environment.to_json created.0 2000 "o1" digest_of "secret"
        "u9" join
      ≡ ok (t, some "m9"))
unfolding running created
joined = (_, refl)

abbrev resend_request : InvitationRequest
resend_request = resending "i1" (record {
  metadata = metadata "3" 3000;
  id = "i2";
  actor_membership_id = "m1";
  token = "other";
  issued_at = 3000;
})

resent : (t : Directory) × (run_invitation environment created.0 3000 "o1" resend_request ≡ ok t)
unfolding running created
resent = (_, refl)

-- The first token is worthless after a resend.
old_token_run :
    accept_invitation environment.to_json resent.0 4000 "o1" digest_of "secret" "u9" join
    ≡ ok (resent.0, none)
unfolding running created resent
old_token_run = refl

start-IsSound : IsSound start.invitations
start-IsSound = record {
  ids = tt;
  tokens = tt;
  one_open = λ o email. omega arith;
  well_formed = tt;
}

created-IsSound : IsSound created.0.invitations
created-IsSound =
    run_invitation-IsSound environment start created.0 1000 "o1" start-IsSound (creation invite)
      created.1

run_invitation_refines_example : (created.0 ≡ start) ⊎ Moved start created.0
run_invitation_refines_example =
    run_invitation_refines environment start created.0 1000 "o1" start-IsSound.ids (creation invite)
      created.1

run_invitation-IsSound_example : IsSound resent.0.invitations
run_invitation-IsSound_example =
    run_invitation-IsSound environment created.0 resent.0 3000 "o1" created-IsSound resend_request
      resent.1

accept_invitation-HasJoined_example :
    ((joined.0 ≡ created.0) × (◌≡◌ {A = Option String} (some "m9") none))
    ⊎ ((◌≡◌ {A = Option String} (some "m9") (some "m9"))
        × HasJoined created.0 joined.0 "o1" "dsecret" "u9" join)
accept_invitation-HasJoined_example =
    accept_invitation-HasJoined environment.to_json created.0 joined.0 2000 "o1" digest_of "secret"
      "u9" join (some "m9") created-IsSound.ids joined.1

joining : History environment created.0 joined.0
joining = next here (
    Change.invitation created.0 joined.0 2000 "o1" (acceptance "secret" "u9" join)
      (ap tables_of joined.1))

used : stages joined.0.invitations "i1" ≡ some (accepted (some "m9"))
unfolding running created joined
used = refl

joined-IsSound : IsSound joined.0.invitations
joined-IsSound = History-IsSound joining created-IsSound

-- The member leaves, and the invitation stays accepted.
left :
    (t : Tables) × (run environment.to_json joined.0.tables 5000 "o1"
        (removal "m9" "m1" (metadata "4" 5000))
      ≡ ok (t, removed))
unfolding running created joined revoke_membership revoke_target apply_removal conclude
left = (_, refl)

leaving : History environment joined.0 (record joined.0 { tables = left.0 })
leaving = next here (
    Change.membership joined.0 _ 5000 "o1" (removal "m9" "m1" (metadata "4" 5000)) left.0 removed
      left.1 refl)

History-keeps_ended_example : stages joined.0.invitations "i1" ≡ some (accepted (some "m9"))
History-keeps_ended_example =
    History-keeps_ended "i1" (accepted (some "m9")) leaving joined-IsSound (λ e. cc) used

start-HasOwner : HasOwner "o1" start
unfolding running
start-HasOwner = ((tt, tt), omega arith)

History-HasOwner_example : HasOwner "o1" created.0
History-HasOwner_example =
    History-HasOwner "o1"
      (next here (Change.invitation start created.0 1000 "o1" (creation invite) created.1))
      start-HasOwner

again :
    accept_invitation environment.to_json
      (record joined.0 { tables = left.0 })
      6000
      "o1"
      digest_of
      "secret"
      "u9"
      join
    ≡ ok (record joined.0 { tables = left.0 }, none)
unfolding running created joined left
again = refl

accept_invitation_once_example :
    (record joined.0 { tables = left.0 } ≡ record joined.0 { tables = left.0 })
    × (◌≡◌ {A = Option String} none none)
accept_invitation_once_example =
    accept_invitation_once environment created.0 joined.0 (record joined.0 { tables = left.0 })
      (record joined.0 { tables = left.0 }) created-IsSound 2000 6000 "o1" "o1" "secret" "u9" "u9"
      join join "m9" none joined.1 leaving again

find_invitation_by_token-create_invitation_example :
    (r : InvitationRow) × (find_invitation_by_token digest_of created.0.invitations "secret"
      ≡ some r)
    × IsIssued digest_of "o1" (map fold_case) invite r
find_invitation_by_token-create_invitation_example =
    find_invitation_by_token-create_invitation environment.to_json digest_of start created.0 1000
      "o1" (map fold_case) invite created.1
