-- ===== src/Invitations/Invariant.antt =====
-- The state of the table of invitations: unique keys, one open invitation for an email, and the
-- check constraints of its rows.
use tabela_pubg.Prelude.{
  ℕ, ◌+◌, ◌≤◌, ◌≡◌, refl, sym, ◌∙◌, inl, inr, String, Bool, true, false, Option, none, some, List,
  [], ◌∷◌, update, arith, ok, All, All-update_of, All-append_of, HasDistinctKeys,
  HasDistinctKeys-update, HasDistinctKeys-append, any-false, is_some, str_eq,
}
use mathlib.Core.Path.{subst}
use tabela_pubg.Invitations.{
  InvitationRow, Directory, invitation_id, token_of, invitation_ttl_ms, is_pending, is_invitation,
  collides, insert_invitation, ResendInvitationInput, supersede, is_replacement, activate,
  revoke_invitation_row,
}
use tabela_pubg.Invitations.Issue.{new_invitation, replacement}
use tabela_pubg.Invitations.Acceptance.{consume}
use tabela_pubg.Invitations.Operations.{
  Environment, InvitationRequest, creation, resending, revocation, acceptance, run_invitation,
  answered,
}
use tabela_pubg.Invitations.Outcomes.{create_inv, resend_inv, Replaced}
use tabela_pubg.Invitations.Endings.{revoke_inv, accept_inv}
use tabela_pubg.Invitations.Writes.{insert_invitation_lem}
use tabela_pubg.Invitations.Replacement.{supersede_previous_lem, activate_replacement_lem}
use tabela_pubg.Invitations.Slots.{
  HasOneOpen, HasOneOpen-insert, HasOneOpen-update, HasOneOpen-activate,
}

abbrev pub one_if : {A : Type 0} → Option A → ℕ
one_if none = 0
one_if (some a) = 1

-- An invitation lasts seven days, its columns on one event are set together, and it ends once.
pub record IsWellFormed (r : InvitationRow) : Type 0 where
  pub lasts : r.expires_at ≡ r.issued_at + invitation_ttl_ms
  pub acceptance : is_some r.accepted_at ≡ is_some r.accepted_by_membership_id
  pub revocation : is_some r.revoked_at ≡ is_some r.revocation_reason
  pub supersession : is_some r.superseded_at ≡ is_some r.superseded_by_invitation_id
  pub ends_once : one_if r.accepted_at + one_if r.revoked_at + one_if r.superseded_at ≤ 1

pub record IsSound (rows : List InvitationRow) : Type 0 where
  pub ids : HasDistinctKeys invitation_id rows
  pub tokens : HasDistinctKeys token_of rows
  pub one_open : HasOneOpen rows
  pub well_formed : All IsWellFormed rows

inserted :
    (rows rows' : List InvitationRow) (r : InvitationRow)
    → insert_invitation rows r ≡ ok rows'
    → IsWellFormed r
    → IsSound rows
    → IsSound rows'
unfolding collides
inserted rows rows' r e w s =
    let (appended, free, _) = insert_invitation_lem rows rows' r e in
    record {
      ids = subst (HasDistinctKeys invitation_id) (sym appended) (
          HasDistinctKeys-append invitation_id rows r s.ids
            (any-false (λ q. str_eq q.id r.id) (collides r) rows (λ q h. ground (arith, h)) free));
      tokens = subst (HasDistinctKeys token_of) (sym appended) (
          HasDistinctKeys-append token_of rows r s.tokens (
            any-false (λ q. str_eq q.token_digest r.token_digest) (collides r) rows
              (λ q h. ground (arith, h)) free));
      one_open = HasOneOpen-insert rows rows' r e s.one_open;
      well_formed =
          subst (All IsWellFormed) (sym appended)
            (All-append_of IsWellFormed rows (r ∷ []) s.well_formed (w, tt));
    }

updated :
    (rows : List InvitationRow) (p : InvitationRow → Bool) (f : InvitationRow → InvitationRow)
    → ((r : InvitationRow) → (f r).id ≡ r.id)
    → ((r : InvitationRow) → (f r).token_digest ≡ r.token_digest)
    → HasOneOpen (update p f rows)
    → ((r : InvitationRow) → p r ≡ true → IsWellFormed r → IsWellFormed (f r))
    → IsSound rows
    → IsSound (update p f rows)
updated rows p f same_id same_token one keeps s = record {
  ids = HasDistinctKeys-update invitation_id p f same_id rows s.ids;
  tokens = HasDistinctKeys-update token_of p f same_token rows s.tokens;
  one_open = one;
  well_formed = All-update_of IsWellFormed p f rows keeps s.well_formed;
}

-- To end invitations that are open.
closed :
    (rows : List InvitationRow) (p : InvitationRow → Bool) (f : InvitationRow → InvitationRow)
    → ((r : InvitationRow) → (f r).id ≡ r.id)
    → ((r : InvitationRow) → (f r).token_digest ≡ r.token_digest)
    → ((r : InvitationRow) → is_pending (f r) ≡ false)
    → ((r : InvitationRow) → p r ≡ true → IsWellFormed r → IsWellFormed (f r))
    → IsSound rows
    → IsSound (update p f rows)
closed rows p f same_id same_token ends keeps s =
    updated rows p f same_id same_token (HasOneOpen-update p f rows ends s.one_open) keeps s

module _ (env : Environment) (t t' : Directory) (now : ℕ) (organization_id : String)
    (sound : IsSound t.invitations) where
  replaced-IsSound :
      (previous_id : String) (input : ResendInvitationInput) (previous activated : InvitationRow)
      → Replaced env.to_json env.digest t t' now organization_id previous_id input previous
          activated
      → IsSound t'.invitations
  unfolding replacement is_invitation is_pending supersede activate is_replacement
  replaced-IsSound previous_id input previous activated (once, twice, rows, k, l, m, changed) =
      let fresh =
        inserted t.invitations once (replacement env.digest organization_id input previous) k
          (ground arith) sound in
      let write = supersede_previous_lem once twice organization_id previous_id _ _ l in
      let ended : IsSound twice = subst IsSound (sym write) (
        closed once (is_invitation organization_id previous_id)
          (supersede input.id input.occurred_at) (λ r. refl) (λ r. refl) (λ r. ground arith)
          (λ r p w. ground (arith, p)) fresh) in
      let write' = activate_replacement_lem twice rows organization_id input.id _ _ m in
      let one =
        HasOneOpen-activate twice rows organization_id input.id _ _ m ended.ids ended.one_open in
      subst IsSound (sym (changed.written ∙ write')) (
        updated twice (is_replacement organization_id input.id) (activate input.occurred_at)
          (λ r. refl) (λ r. refl) (subst HasOneOpen write' one) (λ r p w. ground (arith, p)) ended)

  -- Whatever is asked about the invitations, their table stays sound: the ids and the tokens are
  -- distinct, at most one invitation of an organization is open for an email, every invitation lasts
  -- seven days, has at most one of its three ends, and has the columns of an end set together.
  pub run_invitation-IsSound :
      (request : InvitationRequest)
      → run_invitation env t now organization_id request ≡ ok t'
      → IsSound t'.invitations
  unfolding new_invitation is_invitation is_pending revoke_invitation_row consume
  run_invitation-IsSound (creation input) e =
      let (inviter, rows, _, _, fresh, _, _, changed) =
        create_inv env.to_json env.digest t t' now organization_id env.to_lower_case input e in
      subst IsSound (sym changed.written) (
        inserted t.invitations rows
          (new_invitation env.digest organization_id env.to_lower_case input) fresh (ground arith)
          sound)
  run_invitation-IsSound (resending previous_id input) e =
      let (answer, h) = answered _ t' e in
      elim (resend_inv env.to_json env.digest t t' now organization_id previous_id input answer h) [
        | inl (same, _) ↦ subst (λ d. IsSound d.invitations) (sym same) sound
        | inr (activated, _, (previous, actor, _, _, _, _, _, done)) ↦
            replaced-IsSound previous_id input previous activated done
      ]
  run_invitation-IsSound (revocation id input) e =
      let (answer, h) = answered _ t' e in
      elim (revoke_inv env.to_json t t' now organization_id id input answer h) [
        | inl (same, _) ↦ subst (λ d. IsSound d.invitations) (sym same) sound
        | inr (row, _, (_, _, _, changed)) ↦ subst IsSound (sym changed.written) (
            closed t.invitations (is_invitation organization_id id)
              (revoke_invitation_row input.metadata) (λ r. refl) (λ r. refl) (λ r. ground arith)
              (λ r p w. ground (arith, p)) sound)
      ]
  run_invitation-IsSound (acceptance token user_id input) e =
      let (answer, h) = answered _ t' e in
      elim (accept_inv env.to_json t t' now organization_id env.digest token user_id input answer
        h) [
          | inl (same, _) ↦ subst (λ d. IsSound d.invitations) (sym same) sound
          | inr (_, (invitation, email, _, _, _, _, (_, _, changed))) ↦
              subst IsSound (sym changed.written) (
                closed t.invitations (is_invitation organization_id invitation.id)
                  (consume input.membership_id input.occurred_at) (λ r. refl) (λ r. refl)
                  (λ r. ground arith) (λ r p w. ground (arith, p)) sound)
        ]
