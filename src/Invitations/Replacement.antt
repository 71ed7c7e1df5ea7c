-- ===== src/Invitations/Replacement.antt =====
-- The three writes of a resend are one move of the lifecycle.
use tabela_pubg.Prelude.{
  ℕ, ◌≡◌, refl, ap, ◌∙◌, String, true, false, Option, none, some, List, [], ◌∷◌, ◌++◌, update,
  arith, ok, str_eq, eq_iff, eq_refl, find_by, find_by-update, if◌then◌else◌,
}
use tabela_pubg.Invitations.{
  InvitationRow, invitation_id, insert_invitation, is_pending, is_invitation, supersede,
  supersede_previous, is_replacement, activate, activate_replacement,
}
use tabela_pubg.Invitations.Lifecycle.{pending, superseded, stage, stages, at, replaced, after}
use tabela_pubg.Invitations.Writes.{
  stages-update, stages-append, find_by-append_one, insert_invitation_lem,
}

pub supersede_previous_lem :
    (rows rows' : List InvitationRow) (organization_id previous_id by_id : String) (now : ℕ)
    → supersede_previous rows organization_id previous_id by_id now ≡ ok rows'
    → rows' ≡ update (is_invitation organization_id previous_id) (supersede by_id now) rows
unfolding supersede_previous
supersede_previous_lem rows rows' organization_id previous_id by_id now e = ground arith

pub activate_replacement_lem :
    (rows rows' : List InvitationRow) (organization_id id : String) (now : ℕ)
    (woken : Option InvitationRow)
    → activate_replacement rows organization_id id now ≡ ok (rows', woken)
    → rows' ≡ update (is_replacement organization_id id) (activate now) rows
unfolding activate_replacement
activate_replacement_lem rows rows' organization_id id now woken e = ground arith

-- A replacement `r` of an open invitation, under an id that is new.
module _ (rows : List InvitationRow) (organization_id previous_id : String) (now : ℕ)
    (r previous : InvitationRow) (fresh : find_by invitation_id r.id rows ≡ none)
    (found : find_by invitation_id previous_id rows ≡ some previous)
    (fits : is_invitation organization_id previous_id previous ≡ true)
    (waits : is_replacement organization_id r.id r ≡ true) (closed : is_pending r ≡ false)
    (opens : stage (activate now r) ≡ pending) where
  inserted : List InvitationRow
  inserted = rows ++ r ∷ []

  waiting : List InvitationRow
  waiting = update (is_invitation organization_id previous_id) (supersede r.id now) inserted

  id_of_previous :
      (q : InvitationRow) → is_invitation organization_id previous_id q ≡ true → q.id ≡ previous_id
  unfolding is_invitation
  id_of_previous q h = ground (arith, h, eq_iff q.id previous_id)

  id_of_replacement :
      (q : InvitationRow) → is_replacement organization_id r.id q ≡ true → q.id ≡ r.id
  unfolding is_replacement
  id_of_replacement q h = ground (arith, h, eq_iff q.id r.id)

  previous-inserted : find_by invitation_id previous_id inserted ≡ some previous
  unfolding inserted
  previous-inserted =
      find_by-append_one previous_id rows r fresh ∙ ground (arith, eq_iff r.id previous_id)

  supersedes : stage (supersede r.id now previous) ≡ superseded (some r.id)
  unfolding is_invitation is_pending supersede stage
  supersedes = ground arith

  find_by-waiting : find_by invitation_id r.id waiting ≡ some r
  unfolding waiting inserted is_invitation supersede
  find_by-waiting =
      find_by-update invitation_id (is_invitation organization_id previous_id) (supersede r.id now)
        (λ q. refl) r.id (rows ++ r ∷ [])
      ∙ ground (arith, find_by-append_one r.id rows r fresh, eq_refl r.id)

  stages-waiting :
      (k : String)
      → stages waiting k
        ≡ at previous_id (superseded (some r.id)) (at r.id (stage r) (stages rows)) k
  unfolding waiting inserted supersede
  stages-waiting k =
      stages-update (is_invitation organization_id previous_id) (supersede r.id now) previous_id
        (superseded (some r.id)) inserted previous (λ q. refl) id_of_previous previous-inserted fits
        supersedes k
      ∙ ap (λ o. if str_eq previous_id k then some (superseded (some r.id)) else o)
          (stages-append rows r fresh k)

  stages-replaced :
      (k : String)
      → stages (update (is_replacement organization_id r.id) (activate now) waiting) k
        ≡ after (replaced previous_id r.id) (stages rows) k
  unfolding activate
  stages-replaced k =
      stages-update (is_replacement organization_id r.id) (activate now) r.id pending waiting r
        (λ q. refl) id_of_replacement find_by-waiting waits opens k
      ∙ ground (arith, stages-waiting k)

  pub stages-resent :
      (once twice rows' : List InvitationRow) (woken : Option InvitationRow)
      → insert_invitation rows r ≡ ok once
      → supersede_previous once organization_id previous_id r.id now ≡ ok twice
      → activate_replacement twice organization_id r.id now ≡ ok (rows', woken)
      → (k : String) → stages rows' k ≡ after (replaced previous_id r.id) (stages rows) k
  unfolding waiting inserted
  stages-resent once twice rows' woken k l m id =
      ap (λ q. stages q id)
        (activate_replacement_lem twice rows' organization_id r.id now woken m
          ∙ ap (update (is_replacement organization_id r.id) (activate now)) (
              supersede_previous_lem once twice organization_id previous_id r.id now l
              ∙ ap (update (is_invitation organization_id previous_id) (supersede r.id now))
                  (insert_invitation_lem rows once r k).0))
      ∙ stages-replaced id
