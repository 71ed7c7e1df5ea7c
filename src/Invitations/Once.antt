-- ===== src/Invitations/Once.antt =====
-- A token admits one member at most.
use mathlib.Core.List.{Memᴰ}
use tabela_pubg.Prelude.{
  ℕ, ◌≡◌, ◌≢◌, refl, sym, ap, ◌∙◌, inl, inr, String, Bool, Option, none, some, List, [], ◌∷◌,
  update, arith, ok, find_by, find_by-update, find_by-append, touch, touch?, eq_of_key, Memᴰ-find,
  map_some,
}
use mathlib.Core.Path.{subst}
use tabela_pubg.Invitations.{
  InvitationRow, Directory, invitation_id, token_of, supersede, activate, revoke_invitation_row,
  insert_invitation, ResendInvitationInput,
}
use tabela_pubg.Invitations.Acceptance.{AcceptInvitationInput, consume, accept_invitation}
use tabela_pubg.Invitations.Operations.{
  Environment, InvitationRequest, creation, resending, revocation, acceptance, run_invitation,
  answered, tables_of,
}
use tabela_pubg.Invitations.Outcomes.{create_inv, resend_inv, Replaced}
use tabela_pubg.Invitations.Endings.{revoke_inv, accept_inv}
use tabela_pubg.Invitations.Lifecycle.{pending, accepted, stage, stages}
use tabela_pubg.Invitations.Writes.{insert_invitation_lem, stage-pending}
use tabela_pubg.Invitations.Replacement.{supersede_previous_lem, activate_replacement_lem}
use tabela_pubg.Invitations.Invariant.{IsSound, run_invitation-IsSound}
use tabela_pubg.Invitations.Joining.{HasJoined, accept_invitation-HasJoined}
use tabela_pubg.Invitations.History.{
  Change, invitation, membership, emails, History, here, next, History-IsSound, History-keeps_ended,
}

-- Every invitation is kept, with its token.
abbrev pub Kept : List InvitationRow → List InvitationRow → Type 0
Kept rows rows' =
    (k : String) (r : InvitationRow)
    → find_by invitation_id k rows ≡ some r
    → (r' : InvitationRow) × (find_by invitation_id k rows' ≡ some r')
      × (r'.token_digest ≡ r.token_digest)

Kept-same : (rows : List InvitationRow) → Kept rows rows
Kept-same rows k r e = (r, e, refl)

Kept-trans : (a b c : List InvitationRow) → Kept a b → Kept b c → Kept a c
Kept-trans a b c f g k r e =
    let (r', e', same) = f k r e in let (r'', e'', same') = g k r' e' in (r'', e'', same' ∙ same)

Kept-update :
    (rows : List InvitationRow) (p : InvitationRow → Bool) (f : InvitationRow → InvitationRow)
    → ((r : InvitationRow) → (f r).id ≡ r.id)
    → ((r : InvitationRow) → (f r).token_digest ≡ r.token_digest)
    → Kept rows (update p f rows)
Kept-update rows p f same_id same_token k r e = (
  touch p f r,
  find_by-update invitation_id p f same_id k rows ∙ ap (touch? p f) e,
  ground (arith, same_token r),
)

Kept-insert :
    (rows rows' : List InvitationRow) (s : InvitationRow)
    → insert_invitation rows s ≡ ok rows'
    → Kept rows rows'
Kept-insert rows rows' s e k r h =
    let (appended, _, _) = insert_invitation_lem rows rows' s e in
    (
      r,
      ap (find_by invitation_id k) appended
          ∙ find_by-append invitation_id k rows (s ∷ [])
              (λ (n : find_by invitation_id k rows ≡ none). cc)
          ∙ h,
      refl,
    )

module _ (env : Environment) (t t' : Directory) (now : ℕ) (organization_id : String) where
  replaced-Kept :
      (previous_id : String) (input : ResendInvitationInput) (previous activated : InvitationRow)
      → Replaced env.to_json env.digest t t' now organization_id previous_id input previous
          activated
      → Kept t.invitations t'.invitations
  unfolding supersede activate
  replaced-Kept previous_id input previous activated (once, twice, rows, k, l, m, changed) =
      let ended =
        subst (Kept once)
          (sym (supersede_previous_lem once twice organization_id previous_id _ _ l))
          (Kept-update once _ _ (λ r. refl) (λ r. refl)) in
      let opened =
        subst (Kept twice)
          (sym
            (changed.written ∙ activate_replacement_lem twice rows organization_id input.id _ _ m))
          (Kept-update twice _ _ (λ r. refl) (λ r. refl)) in
      Kept-trans t.invitations once t'.invitations (Kept-insert t.invitations once _ k)
        (Kept-trans once twice t'.invitations ended opened)

  run_invitation-Kept :
      (request : InvitationRequest)
      → run_invitation env t now organization_id request ≡ ok t'
      → Kept t.invitations t'.invitations
  unfolding revoke_invitation_row consume
  run_invitation-Kept (creation input) e =
      let (inviter, rows, _, _, fresh, _, _, changed) =
        create_inv env.to_json env.digest t t' now organization_id env.to_lower_case input e in
      subst (Kept t.invitations) (sym changed.written) (Kept-insert t.invitations rows _ fresh)
  run_invitation-Kept (resending previous_id input) e =
      let (answer, h) = answered _ t' e in
      elim (resend_inv env.to_json env.digest t t' now organization_id previous_id input answer h) [
        | inl (same, _) ↦
            subst (λ d. Kept t.invitations d.invitations) (sym same) (Kept-same t.invitations)
        | inr (activated, _, (previous, actor, _, _, _, _, _, done)) ↦
            replaced-Kept previous_id input previous activated done
      ]
  run_invitation-Kept (revocation id input) e =
      let (answer, h) = answered _ t' e in
      elim (revoke_inv env.to_json t t' now organization_id id input answer h) [
        | inl (same, _) ↦
            subst (λ d. Kept t.invitations d.invitations) (sym same) (Kept-same t.invitations)
        | inr (row, _, (_, _, _, changed)) ↦
            subst (Kept t.invitations) (sym changed.written)
              (Kept-update t.invitations _ _ (λ r. refl) (λ r. refl))
      ]
  run_invitation-Kept (acceptance token user_id input) e =
      let (answer, h) = answered _ t' e in
      elim (accept_inv env.to_json t t' now organization_id env.digest token user_id input answer
        h) [
          | inl (same, _) ↦
              subst (λ d. Kept t.invitations d.invitations) (sym same) (Kept-same t.invitations)
          | inr (_, (_, _, _, _, _, _, (_, _, changed))) ↦
              subst (Kept t.invitations) (sym changed.written)
                (Kept-update t.invitations _ _ (λ r. refl) (λ r. refl))
        ]

Change-Kept :
    {env : Environment} {t t' : Directory} → Change env t t' → Kept t.invitations t'.invitations
Change-Kept {env} (invitation t t' now organization_id request e) =
    run_invitation-Kept env t t' now organization_id request e
Change-Kept (membership t t' now organization_id request tables status e same) =
    subst (λ d. Kept t.invitations d.invitations) (sym same) (Kept-same t.invitations)
Change-Kept (emails t t' rows same) =
    subst (λ d. Kept t.invitations d.invitations) (sym same) (Kept-same t.invitations)

History-Kept :
    {env : Environment} {t t' : Directory} → History env t t' → Kept t.invitations t'.invitations
History-Kept {t} here = Kept-same t.invitations
History-Kept {t} {t'} (next {u} past c) =
    Kept-trans t.invitations u.invitations t'.invitations (History-Kept past) (Change-Kept c)

module _ (env : Environment) (t t1 t2 t3 : Directory) (sound : IsSound t.invitations) where
  accepted_token :
      (organization_id token user_id : String) (input : AcceptInvitationInput)
      → HasJoined t t1 organization_id (env.digest token) user_id input
      → IsSound t1.invitations
      → History env t1 t2
      → (r : InvitationRow) × Memᴰ r t2.invitations
        × (r.token_digest ≡ env.digest token)
        × (stage r ≢ pending)
  unfolding consume stage
  accepted_token organization_id token user_id input joined sound1 past =
      let j = joined.invitation in
      let used : stages t1.invitations j.id ≡ some (accepted (some joined.membership.id)) =
        ap (map_some stage) joined.used in
      let final = History-keeps_ended j.id _ past sound1 (λ e. cc) used in
      let (r, found, same) = History-Kept past j.id _ joined.used in
      (
        r,
        Memᴰ-find _ t2.invitations r found,
        same ∙ joined.of_token,
        λ e. cc (ap (map_some stage) found),
      )

  -- After a token has been accepted and whatever then happens to the tables, every acceptance of the
  -- same token, by whichever user and in whichever organization, answers that the invitation is unavailable and changes nothing.
  -- The table of invitations is sound at the start.
  pub accept_invitation_once :
      (now later : ℕ) (organization_id next_organization token first_user next_user : String)
      (input input' : AcceptInvitationInput) (membership_id : String) (answer : Option String)
      → accept_invitation env.to_json t now organization_id env.digest token first_user input
        ≡ ok (t1, some membership_id)
      → History env t1 t2
      → accept_invitation env.to_json t2 later next_organization env.digest token next_user input'
        ≡ ok (t3, answer)
      → (t3 ≡ t2) × (answer ≡ none)
  accept_invitation_once now later organization_id next_organization token first_user next_user
        input input' membership_id answer e past e' =
      elim (accept_invitation-HasJoined env.to_json t t1 now organization_id env.digest token
        first_user input (some membership_id) sound.ids e) [
          | inl (_, no_) ↦ absurd (cc)
          | inr (_, joined) ↦ again joined
        ]
    where
      sound1 : IsSound t1.invitations
      sound1 =
          run_invitation-IsSound env t t1 now organization_id sound
            (acceptance token first_user input) (ap tables_of e)

      sound2 : IsSound t2.invitations
      sound2 = History-IsSound past sound1

      again :
          HasJoined t t1 organization_id (env.digest token) first_user input
          → (t3 ≡ t2) × (answer ≡ none)
      again joined =
          elim (accept_invitation-HasJoined env.to_json t2 t3 later next_organization env.digest
            token next_user input' answer sound2.ids e') [
              | inl refused ↦ refused
              | inr (_, twice) ↦
                  let (r, there, mine, ended) =
                    accepted_token organization_id token first_user input joined sound1 past in
                  let same : r ≡ twice.invitation =
                    eq_of_key token_of r twice.invitation t2.invitations sound2.tokens there
                      (Memᴰ-find _ t2.invitations twice.invitation twice.listed)
                      (mine ∙ sym twice.of_token) in
                  absurd (ended (ap stage same ∙ stage-pending twice.invitation twice.was_open))
            ]
