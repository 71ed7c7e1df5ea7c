-- ===== src/Members/Ownership.antt =====
-- No request on members leaves an organization without an owner.
use mathlib.Core.List.{Memᴰ}
use tabela_pubg.Prelude.{
  ℕ, ◌+◌, ◌≤◌, ◌≡◌, refl, sym, ◌∙◌, inl, inr, String, Bool, true, false, ◌&&◌, some, List, update,
  find, count, arith, ok, Bool-cases, str_eq, leb, eq_iff, HasDistinctKeys, HasDistinctKeys-update,
  count-update-le, count-update-drop, count-pos, eq_of_key, Memᴰ-find, find-true, Memᴰ-select,
  find_by, find_by-update, find_by-Memᴰ, touch, touch?, ap,
}
use mathlib.Core.Path.{subst}
use tabela_pubg.Organizations.{owner, member, MembershipRow, Tables, member_id, is_member, is_owner}
use tabela_pubg.Members.{MemberStatus, is_active_owner, set_role}
use tabela_pubg.Members.Exits.{is_party, transferred_memberships}
use tabela_pubg.Members.Operations.{Request, new_roles, removal, transfer, run}
use tabela_pubg.Members.Outcomes.{update_inv}
use tabela_pubg.Members.Departures.{removal_inv, transfer_inv, parties}

id_of_is_member :
    (organization_id id : String) (m : MembershipRow)
    → is_member organization_id id m ≡ true
    → m.id ≡ id
unfolding is_member
id_of_is_member organization_id id m e = ground (arith, eq_iff m.id id)

-- Of another organization, a member is no owner.
foreign :
    (o organization_id id : String) (m : MembershipRow)
    → str_eq o organization_id ≡ false
    → is_member organization_id id m ≡ true
    → is_active_owner o m ≡ false
unfolding is_member is_active_owner
foreign o organization_id id m n e = ground (
  arith,
  eq_iff m.organization_id organization_id,
  eq_iff m.organization_id o,
  eq_iff o organization_id,
)

module _ (organization_id id : String) (f : MembershipRow → MembershipRow)
    (rows : List MembershipRow) (distinct : HasDistinctKeys member_id rows) where
  foreign-le :
      (o : String)
      → str_eq o organization_id ≡ false
      → count (is_active_owner o) rows
        ≤ count (is_active_owner o) (update (is_member organization_id id) f rows)
  foreign-le o n =
      count-update-le (is_member organization_id id) f (is_active_owner o) rows
        (λ r m e. foreign o organization_id id r n e)

  -- A change of one member leaves an owner, if the member is none or there is another one.
  one_owner_left :
      (o : String) (target : MembershipRow)
      → find (is_member organization_id id) rows ≡ some target
      → is_owner target.role && leb (count (is_active_owner organization_id) rows) 1 ≡ false
      → 1 ≤ count (is_active_owner o) rows
      → 1 ≤ count (is_active_owner o) (update (is_member organization_id id) f rows)
  unfolding is_active_owner
  one_owner_left o target found spared h = elim (Bool-cases (str_eq o organization_id)) [
    | inr n ↦ omega (arith, foreign-le o n)
    | inl y ↦ elim (Bool-cases (is_owner target.role)) [
      | inl own ↦
          let drop =
            count-update-drop member_id (is_member organization_id id) f id
              (id_of_is_member organization_id id) (is_active_owner organization_id) rows
              distinct in
          let many : 1 + 1 ≤ count (is_active_owner organization_id) rows =
            ground (arith, own, spared) in
          subst (λ x. 1 ≤ count (is_active_owner x) (update (is_member organization_id id) f rows))
            (sym ((eq_iff o organization_id).0 y)) (omega (arith, drop, many))
      | inr other ↦ omega (
        arith,
        count-update-le (is_member organization_id id) f (is_active_owner o) rows
            (λ r m e. no_owner r m e other),
      )
    ]
  ]
    where
      no_owner :
          (r : MembershipRow)
          → Memᴰ r rows
          → is_member organization_id id r ≡ true
          → is_owner target.role ≡ false
          → is_active_owner o r ≡ false
      no_owner r m e other =
          let held = find-true (is_member organization_id id) rows target found in
          let same : r ≡ target =
            eq_of_key member_id r target rows distinct m
              (Memᴰ-find (is_member organization_id id) rows target found)
              (id_of_is_member organization_id id r e
                ∙ sym (id_of_is_member organization_id id target held)) in
          rw same (ground (arith, other))

touch_skips :
    (p : MembershipRow → Bool) (f : MembershipRow → MembershipRow) (r : MembershipRow)
    → p r ≡ false
    → touch p f r ≡ r
touch_skips p f r e = rw e refl

touch_takes :
    (p : MembershipRow → Bool) (f : MembershipRow → MembershipRow) (r : MembershipRow)
    → p r ≡ true
    → touch p f r ≡ f r
touch_takes p f r e = rw e refl

-- The party that a transfer names is an active member.
pub party_is_member :
    (to_json : List (String × String) → String) (t : Tables) (now : ℕ)
    (organization_id current new id : String) (m : MembershipRow)
    → find
        (λ r. str_eq r.id id)
        (parties to_json t t now organization_id MemberStatus.transferred current new)
      ≡ some m
    → Memᴰ m t.memberships × (is_member organization_id id m ≡ true)
unfolding is_party is_member
party_is_member to_json t now organization_id current new id m e =
    let among =
      Memᴰ-select (is_party to_json t now organization_id current new) t.memberships m
        (Memᴰ-find (λ r. str_eq r.id id) _ m e) in
    (among.1, ground (arith, among.0, find-true (λ r. str_eq r.id id) _ m e))

module _ (to_json : List (String × String) → String) (t t' : Tables) (now : ℕ)
    (organization_id : String) (st : MemberStatus)
    (distinct : HasDistinctKeys member_id t.memberships) where
  transfer_keeps :
      (current new o : String) (at : ℕ) (m : MembershipRow)
      → str_eq current new ≡ false
      → Memᴰ m t.memberships
      → is_member organization_id new m ≡ true
      → 1 ≤ count (is_active_owner o) t.memberships
      → 1
        ≤ count
            (is_active_owner o)
            (transferred_memberships to_json t now organization_id current new at)
  unfolding transferred_memberships set_role is_active_owner is_member
  transfer_keeps current new o at m apart there party h =
      elim (Bool-cases (str_eq o organization_id)) [
        | inr n ↦ omega (
          arith,
          foreign-le organization_id new (set_role owner at) t.memberships distinct o n,
          foreign-le organization_id current (set_role member at) once distinct' o n,
          h,
        )
        | inl y ↦
            count-pos (is_active_owner o) _ (set_role owner at m)
              (Memᴰ-find (λ r. str_eq (member_id r) m.id) _ _ there')
              (ground (
                arith,
                party,
                y,
                eq_iff o organization_id,
                eq_iff m.organization_id organization_id,
                eq_iff m.organization_id o,
              ))
      ]
    where
      once : List MembershipRow
      once = update (is_member organization_id new) (set_role owner at) t.memberships

      distinct' : HasDistinctKeys member_id once
      distinct' =
          HasDistinctKeys-update member_id (is_member organization_id new) (set_role owner at)
            (λ r. refl) t.memberships distinct

      kept : is_member organization_id current (set_role owner at m) ≡ false
      kept = ground (arith, party, apart, eq_iff m.id new, eq_iff m.id current, eq_iff current new)

      there' :
          find_by member_id m.id
            (update (is_member organization_id current) (set_role member at) once)
          ≡ some (set_role owner at m)
      there' =
          find_by-update member_id (is_member organization_id current) (set_role member at)
            (λ r. refl) m.id once
          ∙ ap (touch? (is_member organization_id current) (set_role member at)) found
          ∙ ap some (
              touch_skips (is_member organization_id current) (set_role member at)
                (set_role owner at m) kept)
        where
          found : find_by member_id m.id once ≡ some (set_role owner at m)
          found =
              find_by-update member_id (is_member organization_id new) (set_role owner at)
                (λ r. refl) m.id t.memberships
              ∙ ap (touch? (is_member organization_id new) (set_role owner at))
                  (find_by-Memᴰ member_id m t.memberships distinct there)
              ∙ ap some (touch_takes (is_member organization_id new) (set_role owner at) m party)

  -- Whatever is asked about the members of an organization and whatever the answer, every
  -- organization that had an active owner still has one. The ids of the members are distinct.
  pub run-HasOwner :
      (request : Request) (o : String)
      → run to_json t now organization_id request ≡ ok (t', st)
      → 1 ≤ count (is_active_owner o) t.memberships
      → 1 ≤ count (is_active_owner o) t'.memberships
  run-HasOwner (new_roles id input) o e h =
      elim (update_inv to_json t t' now organization_id st id input e) [
        | inl (same, _) ↦ rw same h
        | inr (target, actor, _, found, _, _, _, spared, written, _) ↦
            rw written
              (one_owner_left organization_id id _ t.memberships distinct o target found spared h)
      ]
  run-HasOwner (removal id actor_id input) o e h =
      elim (removal_inv to_json t t' now organization_id st id actor_id input e) [
        | inl (same, _) ↦ rw same h
        | inr (target, actor, _, found, _, _, spared, written, _) ↦
            rw written
              (one_owner_left organization_id id _ t.memberships distinct o target found spared h)
      ]
  run-HasOwner (transfer current new input) o e h =
      elim (transfer_inv to_json t t' now organization_id st current new input e) [
        | inl (same, _) ↦ rw same h
        | inr (old, fresh, _, apart, _, found, _, written, _) ↦
            let (there, party) =
              party_is_member to_json t now organization_id current new new fresh found in
            rw written (transfer_keeps current new o input.occurred_at fresh apart there party h)
      ]
