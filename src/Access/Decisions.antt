-- ===== src/Access/Decisions.antt =====
-- Decisions over the tables: whom they admit, and that a removal ends a member's access.
use mathlib.Core.List.{Memᴰ}
use mathlib.Core.Path.{subst}
use tabela_pubg.Prelude.{
  ◌≡◌, refl, sym, ◌∙◌, inl, inr, String, Bool, true, false, Option, none, some, List, [], ◌∷◌, find,
  eq_iff, arith, Memᴰ-find, find-true, Bool-cases, All, All-Memᴰ, ap, touch, update, ok, ℕ,
}
use tabela_pubg.Authorization.{AuthorizationInput, can}
use tabela_pubg.Authorization.Decisions.{can_iff}
use tabela_pubg.Organizations.{MembershipStatus, active, revoked, MembershipRow, Tables, is_member}
use tabela_pubg.Members.{MutationMetadata, removed, revoke_member}
use tabela_pubg.Members.Exits.{revoke_membership}
use tabela_pubg.Members.Departures.{removal_inv}
use tabela_pubg.Access.{
  status_text, is_membership, snapshot_of, load_authorization_snapshot, or_revoked, may,
}

-- An active membership of the user in the organization.
abbrev pub HasAccess : Tables → String → String → Type 0
HasAccess t organization_id user_id =
    (m : MembershipRow) × Memᴰ m t.memberships
    × (m.organization_id ≡ organization_id)
    × (m.user_id ≡ user_id)
    × (m.status ≡ active)

active_of_text : (s : MembershipStatus) → status_text s ≡ "active" → s ≡ active
active_of_text active e = refl
active_of_text revoked e = let t : false ≡ true = (eq_iff "revoked" "active").1 e in absurd (cc t)

admitted :
    (t : Tables) (input : AuthorizationInput) (o : Option MembershipRow)
    → find (is_membership input.organization_id input.actor_id) t.memberships ≡ o
    → can input (
        or_revoked input.organization_id input.actor_id
          (snapshot_of t input.organization_id input.actor_id o))
      ≡ true
    → HasAccess t input.organization_id input.actor_id
unfolding is_membership
admitted t input none f e =
    let s : false ≡ true = (eq_iff "revoked" "active").1 (((can_iff input _).0 e).0.2) in
    absurd (cc s)
admitted t input (some m) f e =
    let fits = find-true (is_membership input.organization_id input.actor_id) t.memberships m f in
    (
      m,
      Memᴰ-find (is_membership input.organization_id input.actor_id) t.memberships m f,
      ground (arith, fits, eq_iff m.organization_id input.organization_id),
      ground (arith, fits, eq_iff m.user_id input.actor_id),
      active_of_text m.status (((can_iff input _).0 e).0.2),
    )

-- Whoever is admitted to anything has an active membership in the organization asked for.
pub may-HasAccess :
    (t : Tables) (input : AuthorizationInput)
    → may t input ≡ true
    → HasAccess t input.organization_id input.actor_id
unfolding may load_authorization_snapshot
may-HasAccess t input e = admitted t input _ refl e

-- A user has one membership in an organization: the table's unique key.
abbrev pub HasDistinctUsers : List MembershipRow → Type 0
HasDistinctUsers [] = Unit {0}
HasDistinctUsers (m ∷ ms) =
    All (λ n. is_membership m.organization_id m.user_id n ≡ false) ms × HasDistinctUsers ms

apart :
    (m n : MembershipRow) (ms : List MembershipRow)
    → All (λ k. is_membership m.organization_id m.user_id k ≡ false) ms
    → Memᴰ n ms
    → n.organization_id ≡ m.organization_id
    → n.user_id ≡ m.user_id
    → false ≡ true
unfolding is_membership
apart m n ms h there o u =
    let none : is_membership m.organization_id m.user_id n ≡ false =
      All-Memᴰ (λ k. is_membership m.organization_id m.user_id k ≡ false) there h in
    ground (
      arith,
      none,
      (eq_iff n.organization_id m.organization_id).1 o,
      (eq_iff n.user_id m.user_id).1 u,
    )

one_membership :
    (a b : MembershipRow) (ms : List MembershipRow)
    → HasDistinctUsers ms
    → Memᴰ a ms
    → Memᴰ b ms
    → a.organization_id ≡ b.organization_id
    → a.user_id ≡ b.user_id
    → a ≡ b
one_membership a b [] d m n o u = elim m [ ]
one_membership a b (c ∷ ms) d (Memᴰ.head e) (Memᴰ.head f) o u = e ∙ sym f
one_membership a b (c ∷ ms) d (Memᴰ.head e) (Memᴰ.tail n) o u = absurd (
    cc (apart c b ms d.0 n (sym o ∙ ap (λ x. x.organization_id) e) (sym u ∙ ap (λ x. x.user_id) e)))
one_membership a b (c ∷ ms) d (Memᴰ.tail m) (Memᴰ.head f) o u =
    absurd (cc (apart c a ms d.0 m (o ∙ ap (λ x. x.organization_id) f) (u ∙ ap (λ x. x.user_id) f)))
one_membership a b (c ∷ ms) d (Memᴰ.tail m) (Memᴰ.tail n) o u = one_membership a b ms d.1 m n o u

Memᴰ-update :
    (p : MembershipRow → Bool) (f : MembershipRow → MembershipRow) (rs : List MembershipRow)
    (x : MembershipRow)
    → Memᴰ x (update p f rs)
    → (r : MembershipRow) × Memᴰ r rs × (x ≡ touch p f r)
Memᴰ-update p f [] x m = elim m [ ]
Memᴰ-update p f (r ∷ rs) x (Memᴰ.head e) = (r, Memᴰ.head refl, e)
Memᴰ-update p f (r ∷ rs) x (Memᴰ.tail m) =
    let (s, there, e) = Memᴰ-update p f rs x m in (s, Memᴰ.tail there, e)

module _ (to_json : List (String × String) → String) (t t' : Tables) (now : ℕ)
    (organization_id membership_id actor_id : String) (input : MutationMetadata)
    (target : MembershipRow) (distinct : HasDistinctUsers t.memberships)
    (found : find (is_member organization_id membership_id) t.memberships ≡ some target) where
  without_access :
      t'.memberships
        ≡ update (is_member organization_id membership_id) (revoke_member input) t.memberships
      → (user_id : String) → target.user_id ≡ user_id
      → HasAccess t' organization_id user_id
      → false ≡ true
  unfolding revoke_member is_member
  without_access written user_id same (x, there, o, u, a) =
      let held = is_member organization_id membership_id in
      let (r, m, e) =
        Memᴰ-update held (revoke_member input) t.memberships x (rw written at there) in
      elim (Bool-cases (held r)) [
        | inl y ↦
            let ended : touch held (revoke_member input) r ≡ revoke_member input r = rw y refl in
            absurd (cc (sym a ∙ ap (λ q. q.status) (e ∙ ended)))
        | inr n ↦
            let left : touch held (revoke_member input) r ≡ r = rw n refl in
            let kept : x ≡ r = e ∙ left in
            let fits = find-true held t.memberships target found in
            let here : target.organization_id ≡ organization_id =
              (eq_iff target.organization_id organization_id).0 (ground arith) in
            let it : r ≡ target =
              one_membership r target t.memberships distinct m
                (Memᴰ-find held t.memberships target found)
                (sym (ap (λ q. q.organization_id) kept) ∙ o ∙ sym here)
                (sym (ap (λ q. q.user_id) kept) ∙ u ∙ sym same) in
            sym n ∙ ap held it ∙ fits
      ]

  -- Once a member has been removed, the user is admitted to nothing in the organization. A user has
  -- one membership in an organization.
  pub may-removed :
      (request : AuthorizationInput)
      → revoke_membership to_json t now organization_id membership_id actor_id input
        ≡ ok (t', removed)
      → request.organization_id ≡ organization_id
      → request.actor_id ≡ target.user_id
      → may t' request ≡ false
  may-removed request e org who = elim (Bool-cases (may t' request)) [
    | inr n ↦ n
    | inl y ↦
        let access =
          subst (λ o. HasAccess t' o request.actor_id) org (may-HasAccess t' request y) in
        elim (removal_inv to_json t t' now organization_id removed membership_id actor_id input e) [
          | inl (_, inl s) ↦ absurd (cc)
          | inl (_, inr s) ↦ absurd (cc)
          | inr (_, _, _, _, _, _, _, written, _) ↦
              absurd (cc (without_access written request.actor_id (sym who) access))
        ]
  ]
