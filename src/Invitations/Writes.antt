-- ===== src/Invitations/Writes.antt =====
-- What each write of the table of invitations does to the stages.
use tabela_pubg.Prelude.{
  ◌≡◌, refl, ap, ◌∙◌, inl, inr, String, Bool, true, false, Option, none, some, List, [], ◌∷◌, ◌++◌,
  update, find, any, arith, ok, if◌then◌else◌, Bool-cases, str_eq, eq_iff, find_by, find_by-update,
  find_by-Memᴰ, key_of_find_by, HasDistinctKeys, Memᴰ-find, touch?, map_some, any-false,
}
use tabela_pubg.Invitations.{InvitationRow, invitation_id, is_pending, collides, insert_invitation}
use tabela_pubg.Invitations.Lifecycle.{Stage, pending, stage, stages, at}

-- An open invitation is at its first stage.
pub stage-pending : (r : InvitationRow) → is_pending r ≡ true → stage r ≡ pending
unfolding is_pending stage
stage-pending r e = ground arith

pub stages-update :
    (p : InvitationRow → Bool) (f : InvitationRow → InvitationRow) (id : String) (s : Stage)
    (rows : List InvitationRow) (r0 : InvitationRow)
    → ((r : InvitationRow) → (f r).id ≡ r.id)
    → ((r : InvitationRow) → p r ≡ true → r.id ≡ id)
    → find_by invitation_id id rows ≡ some r0
    → p r0 ≡ true
    → stage (f r0) ≡ s
    → (k : String) → stages (update p f rows) k ≡ at id s (stages rows) k
stages-update p f id s rows r0 keeps one_id found fits ends k =
    ap (map_some stage) (find_by-update invitation_id p f keeps k rows) ∙ cases _ refl
  where
    cases :
        (o : Option InvitationRow)
        → find_by invitation_id k rows ≡ o
        → map_some stage (touch? p f (find_by invitation_id k rows)) ≡ at id s (stages rows) k
    cases none e = ground (arith, eq_iff id k)
    cases (some r) e =
        ground (arith, eq_iff id k, one_id r, key_of_find_by invitation_id k rows r e)

find_by-none :
    (k : String) (rows : List InvitationRow)
    → any (λ s. str_eq s.id k) rows ≡ false
    → find_by invitation_id k rows ≡ none
find_by-none k [] e = refl
find_by-none k (r ∷ rows) e = ground (arith, find_by-none k rows)

pub find_by-append_one :
    (k : String) (rows : List InvitationRow) (r : InvitationRow)
    → find_by invitation_id r.id rows ≡ none
    → find_by invitation_id k (rows ++ r ∷ [])
      ≡ (if str_eq r.id k then some r else find_by invitation_id k rows)
find_by-append_one k [] r e = refl
find_by-append_one k (s ∷ rows) r e =
    ground (arith, eq_iff s.id k, eq_iff s.id r.id, eq_iff r.id k, find_by-append_one k rows r)

-- An insert that succeeds adds a row at the end, under an id and a token that are new.
pub insert_invitation_lem :
    (rows rows' : List InvitationRow) (r : InvitationRow)
    → insert_invitation rows r ≡ ok rows'
    → (rows' ≡ rows ++ r ∷ [])
      × (any (collides r) rows ≡ false)
      × (find_by invitation_id r.id rows ≡ none)
unfolding insert_invitation collides
insert_invitation_lem rows rows' r e = elim (Bool-cases (any (collides r) rows)) [
  | inl y ↦ absurd (cc (rw y at e))
  | inr n ↦ (
    cc (rw n at e),
    n,
    find_by-none r.id rows
        (any-false (λ s. str_eq s.id r.id) (collides r) rows (λ s h. ground (arith, h)) n),
  )
]

pub stages-append :
    (rows : List InvitationRow) (r : InvitationRow)
    → find_by invitation_id r.id rows ≡ none
    → (k : String) → stages (rows ++ r ∷ []) k ≡ at r.id (stage r) (stages rows) k
stages-append rows r e k = ap (map_some stage) (find_by-append_one k rows r e) ∙ ground arith

-- With distinct ids, an invitation that a statement finds is what its id finds.
pub find_by-find :
    (p : InvitationRow → Bool) (rows : List InvitationRow) (r : InvitationRow)
    → HasDistinctKeys invitation_id rows
    → find p rows ≡ some r
    → find_by invitation_id r.id rows ≡ some r
find_by-find p rows r distinct e = find_by-Memᴰ invitation_id r rows distinct (Memᴰ-find p rows r e)
