-- ===== src/Members/Requests.antt =====
-- Who may change the members of an organization, what a change records, and what it leaves alone.
use mathlib.Core.List.{Memᴰ}
use tabela_pubg.Prelude.{
  ℕ, ◌≡◌, refl, ◌∙◌, ◌⊎◌, inl, inr, String, Bool, true, false, not, List, update, select, arith, ok,
  str_eq, select-update, Memᴰ-find, find-true,
}
use tabela_pubg.Organizations.{
  OrganizationRole, owner, admin, member, MembershipRow, Tables, is_member, is_owner, may_manage,
}
use tabela_pubg.Members.{MemberStatus, set_role, revoke_member}
use tabela_pubg.Members.Exits.{transferred_memberships}
use tabela_pubg.Members.Operations.{
  Request, new_roles, removal, transfer, run, asks, metadata_of, Recorded,
}
use tabela_pubg.Members.Outcomes.{update_inv, Refused}
use tabela_pubg.Members.Departures.{removal_inv, transfer_inv}
use tabela_pubg.Members.Ownership.{party_is_member}

-- The request was made by an active owner or admin of the organization, and is in both logs.
abbrev pub Accepted : Tables → Tables → String → Request → Type 0
Accepted t t' organization_id request =
    (actor : MembershipRow) × Memᴰ actor t.memberships
    × (is_member organization_id (asks request) actor ≡ true)
    × (may_manage actor.role ≡ true)
    × Recorded t t' organization_id (asks request) (metadata_of request)

manager_of_owner : (role : OrganizationRole) → is_owner role ≡ true → may_manage role ≡ true
manager_of_owner owner e = refl
manager_of_owner admin e = refl
manager_of_owner member e = absurd (cc)

module _ (to_json : List (String × String) → String) (t t' : Tables) (now : ℕ)
    (organization_id : String) (st : MemberStatus) where
  -- A request on members that returns has either been refused, with no change of any table, or was
  -- made by an active owner or admin of the same organization, who is the actor of the one audit
  -- event that it appends, beside one pending outbox event.
  pub run-Accepted :
      (request : Request)
      → run to_json t now organization_id request ≡ ok (t', st)
      → Refused t t' st ⊎ Accepted t t' organization_id request
  run-Accepted (new_roles id input) e =
      elim (update_inv to_json t t' now organization_id st id input e) [
        | inl refused ↦ inl refused
        | inr (target, actor, _, _, found, manages, _, _, _, recorded) ↦ inr (
          actor,
          Memᴰ-find _ t.memberships actor found,
          find-true _ t.memberships actor found,
          manages,
          recorded,
        )
      ]
  run-Accepted (removal id actor_id input) e =
      elim (removal_inv to_json t t' now organization_id st id actor_id input e) [
        | inl refused ↦ inl refused
        | inr (target, actor, _, _, found, manages, _, _, recorded) ↦ inr (
          actor,
          Memᴰ-find _ t.memberships actor found,
          find-true _ t.memberships actor found,
          manages,
          recorded,
        )
      ]
  run-Accepted (transfer current new input) e =
      elim (transfer_inv to_json t t' now organization_id st current new input e) [
        | inl refused ↦ inl refused
        | inr (old, fresh, _, _, found, _, owns, _, recorded) ↦
            let (there, party) =
              party_is_member to_json t now organization_id current new current old found in
            inr (old, there, party, manager_of_owner old.role owns, recorded)
      ]

  elsewhere : MembershipRow → Bool
  elsewhere m = not (str_eq m.organization_id organization_id)

  member_here :
      (id : String) (m : MembershipRow)
      → is_member organization_id id m ≡ true
      → elsewhere m ≡ false
  unfolding is_member elsewhere
  member_here id m e = ground arith

  one_update :
      (id : String) (f : MembershipRow → MembershipRow) (rows : List MembershipRow)
      → ((m : MembershipRow) → (f m).organization_id ≡ m.organization_id)
      → select elsewhere (update (is_member organization_id id) f rows) ≡ select elsewhere rows
  unfolding elsewhere
  one_update id f rows keeps =
      select-update (is_member organization_id id) f elsewhere rows (member_here id)
        (λ m e. rw (keeps m) (member_here id m e))

  -- The memberships of every other organization stay as they are, in their order.
  pub run_elsewhere :
      (request : Request)
      → run to_json t now organization_id request ≡ ok (t', st)
      → select (λ m. not (str_eq m.organization_id organization_id)) t'.memberships
        ≡ select (λ m. not (str_eq m.organization_id organization_id)) t.memberships
  unfolding elsewhere set_role revoke_member transferred_memberships
  run_elsewhere (new_roles id input) e =
      elim (update_inv to_json t t' now organization_id st id input e) [
        | inl (same, _) ↦ rw same refl
        | inr (_, _, _, _, _, _, _, _, written, _) ↦
            rw written (one_update id _ t.memberships (λ m. refl))
      ]
  run_elsewhere (removal id actor_id input) e =
      elim (removal_inv to_json t t' now organization_id st id actor_id input e) [
        | inl (same, _) ↦ rw same refl
        | inr (_, _, _, _, _, _, _, written, _) ↦
            rw written (one_update id _ t.memberships (λ m. refl))
      ]
  run_elsewhere (transfer current new input) e =
      elim (transfer_inv to_json t t' now organization_id st current new input e) [
        | inl (same, _) ↦ rw same refl
        | inr (_, _, _, _, _, _, _, written, _) ↦
            rw written
              (one_update current _ _ (λ m. refl) ∙ one_update new _ t.memberships (λ m. refl))
      ]
