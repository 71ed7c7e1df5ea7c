-- ===== src/Invitations/Owners.antt =====
-- The members of an organization through requests on members and invitations alike.
use tabela_pubg.Prelude.{
  ℕ, ◌≤◌, ◌≡◌, refl, sym, ◌⊎◌, inl, inr, String, Bool, false, ◌||◌, List, [], ◌∷◌, ◌++◌, any, count,
  arith, ok, str_eq, HasDistinctKeys, HasDistinctKeys-update, HasDistinctKeys-append, any-false,
}
use mathlib.Core.Path.{subst}
use tabela_pubg.Organizations.{MembershipRow, Tables, member_id}
use tabela_pubg.Members.{MemberStatus, is_active_owner, set_role, revoke_member}
use tabela_pubg.Members.Operations.{Request, new_roles, removal, transfer, run}
use tabela_pubg.Members.Outcomes.{update_inv}
use tabela_pubg.Members.Departures.{removal_inv, transfer_inv}
use tabela_pubg.Members.Ownership.{run-HasOwner}
use tabela_pubg.Members.Exits.{transferred_memberships}
use tabela_pubg.Invitations.{Directory}
use tabela_pubg.Invitations.Acceptance.{is_membership_of}
use tabela_pubg.Invitations.Operations.{
  Environment, InvitationRequest, creation, resending, revocation, acceptance, run_invitation,
  answered,
}
use tabela_pubg.Invitations.Outcomes.{create_inv, resend_inv}
use tabela_pubg.Invitations.Endings.{revoke_inv, accept_inv}
use tabela_pubg.Invitations.Joining.{insert_membership_lem}
use tabela_pubg.Invitations.History.{Change, invitation, membership, emails, History, here, next}

run-distinct :
    (to_json : List (String × String) → String) (t t' : Tables) (now : ℕ) (organization_id : String)
    (st : MemberStatus) (request : Request)
    → run to_json t now organization_id request ≡ ok (t', st)
    → HasDistinctKeys member_id t.memberships
    → HasDistinctKeys member_id t'.memberships
unfolding set_role revoke_member transferred_memberships
run-distinct to_json t t' now organization_id st (new_roles id input) e d =
    elim (update_inv to_json t t' now organization_id st id input e) [
      | inl (same, _) ↦ rw same d
      | inr (_, _, _, _, _, _, _, _, written, _) ↦
          subst (HasDistinctKeys member_id) (sym written)
            (HasDistinctKeys-update member_id _ _ (λ m. refl) t.memberships d)
    ]
run-distinct to_json t t' now organization_id st (removal id actor_id input) e d =
    elim (removal_inv to_json t t' now organization_id st id actor_id input e) [
      | inl (same, _) ↦ rw same d
      | inr (_, _, _, _, _, _, _, written, _) ↦
          subst (HasDistinctKeys member_id) (sym written)
            (HasDistinctKeys-update member_id _ _ (λ m. refl) t.memberships d)
    ]
run-distinct to_json t t' now organization_id st (transfer current new input) e d =
    elim (transfer_inv to_json t t' now organization_id st current new input e) [
      | inl (same, _) ↦ rw same d
      | inr (_, _, _, _, _, _, _, written, _) ↦ subst (HasDistinctKeys member_id) (sym written) (
          HasDistinctKeys-update member_id _ _ (λ m. refl) _
            (HasDistinctKeys-update member_id _ _ (λ m. refl) t.memberships d))
    ]

-- An operation on invitations leaves the members alone, or adds one whose id is new.
abbrev pub Grown : List MembershipRow → List MembershipRow → Type 0
Grown rows rows' =
    (rows' ≡ rows)
    ⊎ ((m : MembershipRow) × (rows' ≡ rows ++ m ∷ [])
        × (any (λ r. str_eq r.id m.id || is_membership_of m.organization_id m.user_id r) rows
            ≡ false))

run_invitation-Grown :
    (env : Environment) (t t' : Directory) (now : ℕ) (organization_id : String)
    (request : InvitationRequest)
    → run_invitation env t now organization_id request ≡ ok t'
    → Grown t.memberships t'.memberships
run_invitation-Grown env t t' now organization_id (creation input) e =
    let (_, _, _, _, _, same, _, _) =
      create_inv env.to_json env.digest t t' now organization_id env.to_lower_case input e in
    inl same
run_invitation-Grown env t t' now organization_id (resending previous_id input) e =
    let (answer, h) = answered _ t' e in
    elim (resend_inv env.to_json env.digest t t' now organization_id previous_id input answer h) [
      | inl (same, _) ↦ inl (rw same refl)
      | inr (_, _, (_, _, _, _, _, same, _, _)) ↦ inl same
    ]
run_invitation-Grown env t t' now organization_id (revocation id input) e =
    let (answer, h) = answered _ t' e in
    elim (revoke_inv env.to_json t t' now organization_id id input answer h) [
      | inl (same, _) ↦ inl (rw same refl)
      | inr (_, _, (_, same, _, _)) ↦ inl same
    ]
run_invitation-Grown env t t' now organization_id (acceptance token user_id input) e =
    let (answer, h) = answered _ t' e in
    elim (accept_inv env.to_json t t' now organization_id env.digest token user_id input answer h) [
      | inl (same, _) ↦ inl (rw same refl)
      | inr (_, (_, _, _, _, _, _, (members, _, _))) ↦
          let (grown, fresh) = insert_membership_lem t.memberships t'.memberships _ members in
          inr (_, grown, fresh)
    ]

Grown-distinct :
    (rows rows' : List MembershipRow)
    → Grown rows rows'
    → HasDistinctKeys member_id rows
    → HasDistinctKeys member_id rows'
Grown-distinct rows rows' (inl same) d = subst (HasDistinctKeys member_id) (sym same) d
Grown-distinct rows rows' (inr (m, grown, fresh)) d =
    subst (HasDistinctKeys member_id) (sym grown) (
      HasDistinctKeys-append member_id rows m d
        (any-false (λ r. str_eq r.id m.id) _ rows (λ r h. ground (arith, h)) fresh))

count-append-ge :
    (p : MembershipRow → Bool) (rows : List MembershipRow) (m : MembershipRow)
    → count p rows ≤ count p (rows ++ m ∷ [])
count-append-ge p [] m = omega arith
count-append-ge p (r ∷ rows) m = ground (arith, count-append-ge p rows m)

Grown-HasOwner :
    (o : String) (rows rows' : List MembershipRow)
    → Grown rows rows'
    → 1 ≤ count (is_active_owner o) rows
    → 1 ≤ count (is_active_owner o) rows'
Grown-HasOwner o rows rows' (inl same) h = rw same h
Grown-HasOwner o rows rows' (inr (m, grown, fresh)) h =
    rw grown (omega (arith, count-append-ge (is_active_owner o) rows m))

-- What both kinds of requests keep.
abbrev pub HasOwner : String → Directory → Type 0
HasOwner o t =
    HasDistinctKeys member_id t.memberships × (1 ≤ count (is_active_owner o) t.memberships)

Change-HasOwner :
    {env : Environment} {t t' : Directory} (o : String)
    → Change env t t'
    → HasOwner o t
    → HasOwner o t'
Change-HasOwner {env} o (invitation t t' now organization_id request e) (d, h) =
    let grown = run_invitation-Grown env t t' now organization_id request e in
    (
      Grown-distinct t.memberships t'.memberships grown d,
      Grown-HasOwner o t.memberships t'.memberships grown h,
    )
Change-HasOwner {env} o (membership t t' now organization_id request tables status e same) (d, h) =
    rw same (
      run-distinct env.to_json t.tables tables now organization_id status request e d,
      run-HasOwner env.to_json t.tables tables now organization_id status d request o e h,
    )
Change-HasOwner o (emails t t' rows same) h = rw same h

-- Through every history of requests on members and on invitations, an organization that had an
-- active owner has one, and the ids of the members stay distinct.
pub History-HasOwner :
    {env : Environment} {t t' : Directory} (o : String)
    → History env t t'
    → HasOwner o t
    → HasOwner o t'
History-HasOwner o here h = h
History-HasOwner o (next past c) h = Change-HasOwner o c (History-HasOwner o past h)
