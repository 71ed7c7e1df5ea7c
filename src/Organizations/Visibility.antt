-- ===== src/Organizations/Visibility.antt =====
-- Who sees which audit events.
use mathlib.Core.List.{Memᴰ}
use mathlib.Core.Path.{subst}
use tabela_pubg.Prelude.{
  ◌≡◌, refl, ◌⊎◌, inl, inr, ◌↔◌, String, Bool, true, false, Option, none, some, List, [], ◌∷◌,
  select, find, arith, eq_iff, Bool-cases, leb, if◌then◌else◌, Memᴰ-select, find-true,
}
use tabela_pubg.Organizations.{
  MembershipRow, AuditEventRow, Tables, is_member, may_manage, insert_newest, newest_first,
  is_visible, visible_to, list_visible,
}

Memᴰ_of_select :
    (p : AuditEventRow → Bool) (es : List AuditEventRow) (e : AuditEventRow)
    → Memᴰ e es
    → p e ≡ true
    → Memᴰ e (select p es)
Memᴰ_of_select p [] e m k = elim m [ ]
Memᴰ_of_select p (f ∷ fs) e m k = split (Memᴰ_of_select p fs e) (p f) refl m
  where
    split :
        (Memᴰ e fs → p e ≡ true → Memᴰ e (select p fs))
        → (b : Bool) → p f ≡ b
        → Memᴰ e (f ∷ fs)
        → Memᴰ e (if b then f ∷ select p fs else select p fs)
    split ih true l (Memᴰ.head same) = Memᴰ.head same
    split ih true l (Memᴰ.tail n) = Memᴰ.tail (ih n k)
    split ih false l (Memᴰ.head same) = absurd (cc (rw same at k))
    split ih false l (Memᴰ.tail n) = ih n k

in_tail :
    (e x : AuditEventRow) (es fs : List AuditEventRow)
    → (Memᴰ x es → Memᴰ x fs)
    → Memᴰ x (e ∷ es)
    → Memᴰ x (e ∷ fs)
in_tail e x es fs h (Memᴰ.head same) = Memᴰ.head same
in_tail e x es fs h (Memᴰ.tail n) = Memᴰ.tail (h n)

exchange :
    (e f x : AuditEventRow) (es : List AuditEventRow) → Memᴰ x (e ∷ f ∷ es) → Memᴰ x (f ∷ e ∷ es)
exchange e f x es (Memᴰ.head same) = Memᴰ.tail (Memᴰ.head same)
exchange e f x es (Memᴰ.tail (Memᴰ.head same)) = Memᴰ.head same
exchange e f x es (Memᴰ.tail (Memᴰ.tail n)) = Memᴰ.tail (Memᴰ.tail n)

-- The insertion adds the event and keeps the others.
Memᴰ-insert_newest :
    (e : AuditEventRow) (es : List AuditEventRow) (x : AuditEventRow)
    → Memᴰ x (insert_newest e es) ↔ Memᴰ x (e ∷ es)
unfolding insert_newest
Memᴰ-insert_newest e [] x = (λ m. m, λ m. m)
Memᴰ-insert_newest e (f ∷ fs) x =
    let ih = Memᴰ-insert_newest e fs x in
    elim (Bool-cases (leb f.occurred_at e.occurred_at)) [
      | inl y ↦ (λ m. rw y at m, λ m. rw y m)
      | inr n ↦ (
        λ m. exchange f e x fs (in_tail f x (insert_newest e fs) (e ∷ fs) ih.0 (rw n at m)),
        λ m. rw n (in_tail f x (e ∷ fs) (insert_newest e fs) ih.1 (exchange e f x fs m)),
      )
    ]

Memᴰ-newest_first :
    (es : List AuditEventRow) (x : AuditEventRow) → Memᴰ x (newest_first es) ↔ Memᴰ x es
unfolding newest_first
Memᴰ-newest_first [] x = (λ m. m, λ m. m)
Memᴰ-newest_first (e ∷ es) x =
    let ih = Memᴰ-newest_first es x in
    let inserted = Memᴰ-insert_newest e (newest_first es) x in
    (
      λ m. in_tail e x (newest_first es) es ih.0 (inserted.0 m),
      λ m. inserted.1 (in_tail e x es (newest_first es) ih.1 m),
    )

-- The viewer may see the event.
abbrev pub Sees : String → MembershipRow → AuditEventRow → Type 0
Sees organization_id viewer e =
    (e.organization_id ≡ organization_id)
    × ((may_manage viewer.role ≡ true) ⊎ (e.actor_membership_id ≡ viewer.id))

is_visible_iff :
    (organization_id : String) (viewer : MembershipRow) (e : AuditEventRow)
    → (is_visible organization_id viewer.id viewer.role e ≡ true) ↔ Sees organization_id viewer e
is_visible_iff organization_id viewer e = elim (Bool-cases (may_manage viewer.role)) [
  | inl y ↦ (
    λ h. ((eq_iff e.organization_id organization_id).0 (rw y at h), inl y),
    λ (same, _). rw y ((eq_iff e.organization_id organization_id).1 same),
  )
  | inr n ↦ (
    λ h.
        let both = rw n at h in
        (
          ground (arith, both, eq_iff e.organization_id organization_id),
          inr (ground (arith, both, eq_iff e.actor_membership_id viewer.id)),
        ),
    λ (same, s). elim s [
      | inl y ↦ absurd (cc)
      | inr mine ↦ rw n (
          ground (
            arith,
            eq_iff e.organization_id organization_id,
            eq_iff e.actor_membership_id viewer.id,
          ))
    ],
  )
]

-- An event is listed for a viewer exactly if it is in the log of the viewer's organization and the
-- viewer, an active member there, is an owner or an admin or was its actor.
pub list_visible_iff :
    (t : Tables) (organization_id viewer_id : String) (e : AuditEventRow)
    → Memᴰ e (list_visible t organization_id viewer_id) ↔ (
        (viewer : MembershipRow) × (find (is_member organization_id viewer_id) t.memberships
          ≡ some viewer)
        × Memᴰ e t.audit_events
        × Sees organization_id viewer e)
unfolding list_visible is_member
list_visible_iff t organization_id viewer_id e =
    listed (find (is_member organization_id viewer_id) t.memberships) refl
  where
    listed :
        (o : Option MembershipRow)
        → find (is_member organization_id viewer_id) t.memberships ≡ o
        → Memᴰ e (visible_to t organization_id viewer_id o) ↔ (
            (viewer : MembershipRow) × (find (is_member organization_id viewer_id) t.memberships
              ≡ some viewer)
            × Memᴰ e t.audit_events
            × Sees organization_id viewer e)
    listed none f = (λ m. elim m [ ], λ (v, g, _, _). absurd (cc))
    listed (some viewer) f =
        let same : viewer.id ≡ viewer_id = ground (
          arith,
          find-true (is_member organization_id viewer_id) t.memberships viewer f,
          eq_iff viewer.id viewer_id,
        ) in
        let shown = is_visible organization_id viewer_id viewer.role in
        let iff =
          subst
            (λ x.
              (is_visible organization_id x viewer.role e ≡ true) ↔ Sees organization_id viewer e)
            same (is_visible_iff organization_id viewer e) in
        let among = Memᴰ-newest_first (select shown t.audit_events) e in
        (
          λ m.
              let (fits, there) = Memᴰ-select shown t.audit_events e (among.0 m) in
              (viewer, f, there, iff.0 fits),
          λ (v, g, m, sees).
              let one : v ≡ viewer = cc in
              among.1 (
                Memᴰ_of_select shown t.audit_events e m
                  (iff.1 (subst (λ x. Sees organization_id x e) one sees))),
        )
