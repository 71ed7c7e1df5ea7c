-- ===== src/Invitations/Slots.antt =====
-- The unique index on open invitations: at most one for an organization and an email.
use tabela_pubg.Prelude.{
  ℕ, ◌+◌, ◌≤◌, ◌≡◌, refl, sym, inl, inr, String, Bool, true, false, ◌&&◌, List, [], ◌∷◌, update,
  count, any, arith, ok, Bool-cases, Memᴰ-any, any-false_at, str_eq, eq_iff, any-eq_false_iff,
  any-false, count-append, count-append-le, HasDistinctKeys, count-update-ge, update_absent, ◌≢◌,
  Option, All,
}
use mathlib.Core.Path.{subst}
use tabela_pubg.Identities.{same_email}
use tabela_pubg.Invitations.{
  InvitationRow, invitation_id, is_pending, same_slot, collides, insert_invitation, is_replacement,
  activate, activate_replacement,
}
use tabela_pubg.Invitations.Writes.{insert_invitation_lem}

-- Open, for the organization and the email.
unfoldable pub is_open_for : String → List ℕ → InvitationRow → Bool
unfolding is_pending
is_open_for organization_id email r =
    is_pending r && str_eq r.organization_id organization_id && same_email r.normalized_email email

pub eq_of_same_email : (a b : List ℕ) → same_email a b ≡ true → a ≡ b
eq_of_same_email [] [] e = refl
eq_of_same_email [] (d ∷ ds) e = absurd (cc)
eq_of_same_email (c ∷ cs) [] e = absurd (cc)
eq_of_same_email (c ∷ cs) (d ∷ ds) e = ground (arith, eq_of_same_email cs ds)

same_email_refl : (a : List ℕ) → same_email a a ≡ true
same_email_refl [] = refl
same_email_refl (c ∷ cs) = ground (arith, same_email_refl cs)

same_slot_of :
    (organization_id : String) (email : List ℕ) (r s : InvitationRow)
    → str_eq r.organization_id organization_id && same_email r.normalized_email email ≡ true
    → is_open_for organization_id email s ≡ true
    → is_pending s && same_slot r s ≡ true
unfolding is_open_for same_slot is_pending
same_slot_of organization_id email r s e h = ground (
  arith,
  eq_iff r.organization_id organization_id,
  eq_iff s.organization_id organization_id,
  eq_iff r.organization_id s.organization_id,
  eq_of_same_email r.normalized_email email,
  eq_of_same_email s.normalized_email email,
  same_email_refl email,
  e,
  h,
)

-- When no open invitation shares the slot of `r`, none is open in it.
slot_is_free :
    (organization_id : String) (email : List ℕ) (r : InvitationRow) (rows : List InvitationRow)
    → str_eq r.organization_id organization_id && same_email r.normalized_email email ≡ true
    → any (λ s. is_pending s && same_slot r s) rows ≡ false
    → count (is_open_for organization_id email) rows ≡ 0
slot_is_free organization_id email r rows e free =
    (any-eq_false_iff (is_open_for organization_id email) rows).0 (
      any-false (is_open_for organization_id email) (λ s. is_pending s && same_slot r s) rows
        (λ s h. same_slot_of organization_id email r s e h) free)

abbrev pub HasOneOpen : List InvitationRow → Type 0
HasOneOpen rows =
    (organization_id : String) (email : List ℕ) → count (is_open_for organization_id email) rows ≤ 1

pub HasOneOpen-insert :
    (rows rows' : List InvitationRow) (r : InvitationRow)
    → insert_invitation rows r ≡ ok rows'
    → HasOneOpen rows
    → HasOneOpen rows'
unfolding is_open_for collides
HasOneOpen-insert rows rows' r e h organization_id email =
    let (appended, free, _) = insert_invitation_lem rows rows' r e in
    rw appended (elim (Bool-cases (is_open_for organization_id email r)) [
      | inr n ↦
          rw (count-append (is_open_for organization_id email) rows r n) (h organization_id email)
      | inl y ↦
          let free' =
            any-false (λ s. is_pending s && same_slot r s) (collides r) rows
              (λ s k. ground (arith, k, y)) free in
          omega (
            arith,
            count-append-le (is_open_for organization_id email) rows r,
            slot_is_free organization_id email r rows (ground (arith, y)) free',
          )
    ])

-- To end invitations opens none.
pub HasOneOpen-update :
    (p : InvitationRow → Bool) (f : InvitationRow → InvitationRow) (rows : List InvitationRow)
    → ((r : InvitationRow) → is_pending (f r) ≡ false)
    → HasOneOpen rows
    → HasOneOpen (update p f rows)
unfolding is_open_for
HasOneOpen-update p f rows ends h organization_id email = omega (
  arith,
  count-update-ge (is_open_for organization_id email) p f rows
      (λ r k. absurd (ground (arith, k, ends r))),
  h organization_id email,
)

-- An update of one key adds at most one row.
count-update_one :
    (p q : InvitationRow → Bool) (f : InvitationRow → InvitationRow) (id : String)
    (rows : List InvitationRow)
    → ((r : InvitationRow) → q r ≡ true → r.id ≡ id)
    → HasDistinctKeys invitation_id rows
    → count p (update q f rows) ≤ count p rows + 1
count-update_one p q f id [] one distinct = omega arith
count-update_one p q f id (r ∷ rows) one distinct = elim (Bool-cases (q r)) [
  | inl y ↦
      let others = subst (λ x. All (λ s. s.id ≢ x) rows) (one r y) distinct.0 in
      rw (y, update_absent invitation_id q f id one rows others) (ground arith)
  | inr n ↦ ground (arith, count-update_one p q f id rows one distinct.1)
]

-- An update whose rows fit only if they did adds none.
count-update_kept :
    (p q : InvitationRow → Bool) (f : InvitationRow → InvitationRow) (rows : List InvitationRow)
    → any (λ r. q r && p (f r)) rows ≡ false
    → count p (update q f rows) ≤ count p rows
count-update_kept p q f [] e = omega arith
count-update_kept p q f (r ∷ rows) e = elim (Bool-cases (q r)) [
  | inl y ↦ rw y (ground (arith, e, y, count-update_kept p q f rows))
  | inr n ↦ rw n (ground (arith, e, count-update_kept p q f rows))
]

pub HasOneOpen-activate :
    (rows rows' : List InvitationRow) (organization_id id : String) (now : ℕ)
    (woken : Option InvitationRow)
    → activate_replacement rows organization_id id now ≡ ok (rows', woken)
    → HasDistinctKeys invitation_id rows
    → HasOneOpen rows
    → HasOneOpen rows'
unfolding activate_replacement is_replacement is_open_for activate
HasOneOpen-activate rows rows' organization_id id now woken e distinct h o email =
    elim (Bool-cases (
      any
        (λ r. is_replacement organization_id id r && any (λ s. is_pending s && same_slot r s) rows)
        rows)) [
          | inl y ↦ absurd (cc (rw y at e))
          | inr n ↦
              let written : update (is_replacement organization_id id) (activate now) rows ≡ rows' =
                cc (rw n at e) in
              rw (sym written)
                (elim (Bool-cases (
                  any
                    (λ r.
                      is_replacement organization_id id r && is_open_for o email (activate now r))
                    rows)) [
                      | inr k ↦ omega (
                        arith,
                        count-update_kept (is_open_for o email) (is_replacement organization_id id)
                            (activate now) rows k,
                        h o email,
                      )
                      | inl k ↦
                          let (r, m, opens) = Memᴰ-any _ rows k in
                          omega (
                            arith,
                            count-update_one (is_open_for o email)
                                (is_replacement organization_id id) (activate now) id rows
                                (λ q w. ground (arith, w, eq_iff q.id id)) distinct,
                            slot_is_free o email r rows (slot r opens)
                                (ground (arith, any-false_at _ rows r m n, opens)),
                          )
                    ])
        ]
  where
    slot :
        (r : InvitationRow)
        → is_replacement organization_id id r && is_open_for o email (activate now r) ≡ true
        → str_eq r.organization_id o && same_email r.normalized_email email ≡ true
    slot r k = ground (arith, k)
