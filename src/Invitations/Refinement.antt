-- ===== src/Invitations/Refinement.antt =====
-- The operations on invitations implement the moves of their lifecycle.
use tabela_pubg.Prelude.{
  ℕ, ◌≡◌, refl, sym, ap, ◌∙◌, ◌⊎◌, inl, inr, String, Bool, true, Option, none, some, update, find,
  first, returning, arith, ok, Bool-cases, eq_iff, eq_refl, find_by, HasDistinctKeys, find-true,
  map_some, first-returning, only,
}
use tabela_pubg.Invitations.{
  InvitationRow, Directory, invitation_id, is_pending, is_invitation, is_resendable,
  ResendInvitationInput, revoke_invitation_row, insert_invitation, is_replacement, activate,
}
use tabela_pubg.Invitations.Issue.{new_invitation, replacement}
use tabela_pubg.Invitations.Acceptance.{is_acceptable, consume}
use tabela_pubg.Invitations.Operations.{
  Environment, InvitationRequest, creation, resending, revocation, acceptance, run_invitation,
  answered,
}
use tabela_pubg.Invitations.Outcomes.{create_inv, resend_inv, Replaced}
use tabela_pubg.Invitations.Endings.{revoke_inv, accept_inv}
use tabela_pubg.Invitations.Lifecycle.{
  Stage, pending, accepted, revoked, stage, stages, at, Move, opened, replaced, withdrawn, taken,
  after, Enabled,
}
use tabela_pubg.Invitations.Writes.{
  stage-pending, stages-update, insert_invitation_lem, stages-append, find_by-find,
}
use tabela_pubg.Invitations.Replacement.{stages-resent}
use mathlib.Core.Path.{subst}

is_invitation-parts :
    (organization_id id : String) (r : InvitationRow)
    → is_invitation organization_id id r ≡ true
    → (r.id ≡ id) × (is_pending r ≡ true)
unfolding is_invitation
is_invitation-parts organization_id id r e = (ground (arith, eq_iff r.id id), ground (arith, e))

-- One move of the lifecycle leads from the tables to the tables after.
abbrev pub Moved : Directory → Directory → Type 0
Moved t t' =
    (move : Move) × Enabled move (stages t.invitations)
    × ((k : String) → stages t'.invitations k ≡ after move (stages t.invitations) k)

module _ (t t' : Directory) (organization_id : String)
    (distinct : HasDistinctKeys invitation_id t.invitations) where
  stages-find :
      (p : InvitationRow → Bool) (r : InvitationRow)
      → find p t.invitations ≡ some r
      → is_pending r ≡ true
      → stages t.invitations r.id ≡ some pending
  stages-find p r e open_ =
      ap (map_some stage) (find_by-find p t.invitations r distinct e)
      ∙ ap some (stage-pending r open_)

  created_moves :
      (r : InvitationRow)
      → insert_invitation t.invitations r ≡ ok t'.invitations
      → is_pending r ≡ true
      → Moved t t'
  created_moves r e fits =
      let (appended, _, fresh) = insert_invitation_lem t.invitations t'.invitations r e in
      (
        opened r.id,
        ap (map_some stage) fresh,
        λ k.
            ap (λ rows. stages rows k) appended
            ∙ stages-append t.invitations r fresh k
            ∙ ap (λ s. at r.id s (stages t.invitations) k) (stage-pending r fits),
      )

  ended_moves :
      (id : String) (r : InvitationRow) (f : InvitationRow → InvitationRow) (s : Stage)
      → find_by invitation_id id t.invitations ≡ some r
      → is_invitation organization_id id r ≡ true
      → ((q : InvitationRow) → (f q).id ≡ q.id)
      → stage (f r) ≡ s
      → t'.invitations ≡ update (is_invitation organization_id id) f t.invitations
      → (stages t.invitations id ≡ some pending)
        × ((k : String) → stages t'.invitations k ≡ at id s (stages t.invitations) k)
  ended_moves id r f s found fits keeps ends written = (
    ap (map_some stage) found
        ∙ ap some (stage-pending r (is_invitation-parts organization_id id r fits).1),
    λ k.
        ap (λ rows. stages rows k) written
        ∙ stages-update (is_invitation organization_id id) f id s t.invitations r keeps
            (λ q h. (is_invitation-parts organization_id id q h).0) found fits ends k,
  )

  -- The row that an update of one invitation returns stands in the table.
  pub found_by_update :
      (id : String) (f : InvitationRow → InvitationRow) (row : InvitationRow)
      → first (returning (is_invitation organization_id id) f t.invitations) ≡ some row
      → (r : InvitationRow) × (find_by invitation_id id t.invitations ≡ some r)
        × (is_invitation organization_id id r ≡ true)
  found_by_update id f row e = found _ refl (
      sym (
        first-returning invitation_id (is_invitation organization_id id) id
          (λ q h. (is_invitation-parts organization_id id q h).0) f t.invitations distinct)
      ∙ e)
    where
      found :
          (o : Option InvitationRow)
          → find_by invitation_id id t.invitations ≡ o
          → map_some f (only (is_invitation organization_id id) o) ≡ some row
          → (r : InvitationRow) × (find_by invitation_id id t.invitations ≡ some r)
            × (is_invitation organization_id id r ≡ true)
      found none k h = absurd (cc)
      found (some r) k h = elim (Bool-cases (is_invitation organization_id id r)) [
        | inl y ↦ (r, k, y)
        | inr n ↦ absurd (cc (rw n at h))
      ]

module _ (env : Environment) (t t' : Directory) (now : ℕ) (organization_id : String)
    (distinct : HasDistinctKeys invitation_id t.invitations) where
  replaced_moves :
      (previous_id : String) (input : ResendInvitationInput) (previous activated : InvitationRow)
      → find (is_resendable organization_id previous_id input.occurred_at) t.invitations
        ≡ some previous
      → Replaced env.to_json env.digest t t' now organization_id previous_id input previous
          activated
      → Moved t t'
  unfolding replacement is_resendable is_replacement is_pending activate stage
  replaced_moves previous_id input previous activated found
        (inserted, superseded_rows, rows, k, l, m, changed) =
      let r : InvitationRow = replacement env.digest organization_id input previous in
      let fits =
        find-true (is_resendable organization_id previous_id input.occurred_at) t.invitations
          previous found in
      let open_ : is_invitation organization_id previous_id previous ≡ true =
        ground (arith, fits) in
      let (same, waits) = is_invitation-parts organization_id previous_id previous open_ in
      let (appended, _, fresh) = insert_invitation_lem t.invitations inserted r k in
      let there : find_by invitation_id previous_id t.invitations ≡ some previous =
        subst (λ id. find_by invitation_id id t.invitations ≡ some previous) same
          (find_by-find _ t.invitations previous distinct found) in
      (
        replaced previous_id input.id,
        (
          ap (map_some stage) there ∙ ap some (stage-pending previous waits),
          ap (map_some stage) fresh,
        ),
        λ id.
            ap (λ q. stages q id) changed.written
            ∙ stages-resent t.invitations organization_id previous_id input.occurred_at r previous
                fresh there open_ (ground (arith, eq_refl organization_id, eq_refl input.id)) refl
                refl inserted superseded_rows rows (some activated) k l m id,
      )

  -- Whatever is asked about the invitations, the operation either leaves all tables as they are or
  -- makes one move of the lifecycle that is enabled: it opens an invitation under a new id, ends a
  -- pending one by a withdrawal or an acceptance, or ends a pending one and opens its replacement at
  -- once; every other invitation keeps its stage. The ids of the invitations are distinct.
  pub run_invitation_refines :
      (request : InvitationRequest)
      → run_invitation env t now organization_id request ≡ ok t'
      → (t' ≡ t) ⊎ Moved t t'
  unfolding new_invitation is_invitation is_acceptable is_pending revoke_invitation_row consume
      stage
  run_invitation_refines (creation input) e =
      let (inviter, rows, _, _, fresh, _, _, changed) =
        create_inv env.to_json env.digest t t' now organization_id env.to_lower_case input e in
      inr (
        created_moves t t' organization_id distinct
          (new_invitation env.digest organization_id env.to_lower_case input)
          (fresh ∙ ap ok (sym changed.written)) refl)
  run_invitation_refines (resending previous_id input) e =
      let (answer, h) = answered _ t' e in
      elim (resend_inv env.to_json env.digest t t' now organization_id previous_id input answer h) [
        | inl (same, _) ↦ inl same
        | inr (activated, _, (previous, actor, found, _, _, _, _, done)) ↦
            inr (replaced_moves previous_id input previous activated found done)
      ]
  run_invitation_refines (revocation id input) e =
      let (answer, h) = answered _ t' e in
      elim (revoke_inv env.to_json t t' now organization_id id input answer h) [
        | inl (same, _) ↦ inl same
        | inr (row, _, (found, _, _, changed)) ↦
            let (r, there, fits) =
              found_by_update t t' organization_id distinct id
                (revoke_invitation_row input.metadata) row found in
            let ends : stage (revoke_invitation_row input.metadata r) ≡ revoked =
              ground (arith, fits) in
            let (before, moves) =
              ended_moves t t' organization_id distinct id r (revoke_invitation_row input.metadata)
                revoked there fits (λ q. refl) ends changed.written in
            inr (withdrawn id, before, moves)
      ]
  run_invitation_refines (acceptance token user_id input) e =
      let (answer, h) = answered _ t' e in
      elim (accept_inv env.to_json t t' now organization_id env.digest token user_id input answer
        h) [
          | inl (same, _) ↦ inl same
          | inr (_, (invitation, email, found, _, _, _, (_, _, changed))) ↦
              let fits = find-true _ t.invitations invitation found in
              let open_ : is_invitation organization_id invitation.id invitation ≡ true =
                ground (arith, fits, eq_refl invitation.id) in
              let ends : stage (consume input.membership_id input.occurred_at invitation)
                  ≡ accepted (some input.membership_id) =
                ground arith in
              let (before, moves) =
                ended_moves t t' organization_id distinct invitation.id invitation
                  (consume input.membership_id input.occurred_at)
                  (accepted (some input.membership_id))
                  (find_by-find _ t.invitations invitation distinct found) open_ (λ q. refl) ends
                  changed.written in
              inr (taken invitation.id input.membership_id, before, moves)
        ]
