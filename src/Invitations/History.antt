-- ===== src/Invitations/History.antt =====
-- Histories of an organization's tables: requests on invitations and on members, and changes of
-- the users' emails, in any order.
use tabela_pubg.Prelude.{ℕ, ◌≡◌, ◌≢◌, inl, inr, String, Option, some, List, arith, ok, eq_iff}
use tabela_pubg.Organizations.{Tables}
use tabela_pubg.Members.{MemberStatus}
use tabela_pubg.Members.Operations.{Request, run}
use tabela_pubg.Identities.{VerifiedEmailRow}
use tabela_pubg.Invitations.{Directory}
use tabela_pubg.Invitations.Operations.{Environment, InvitationRequest, run_invitation}
use tabela_pubg.Invitations.Lifecycle.{
  Stage, pending, stages, Move, opened, replaced, withdrawn, taken, after, Enabled,
}
use tabela_pubg.Invitations.Refinement.{run_invitation_refines}
use tabela_pubg.Invitations.Invariant.{IsSound, run_invitation-IsSound}

pub data Change (env : Environment) : Directory → Directory → Type 0 where
  invitation :
      (t t' : Directory) (now : ℕ) (organization_id : String) (request : InvitationRequest)
      → run_invitation env t now organization_id request ≡ ok t'
      → Change env t t'
  membership :
      (t t' : Directory) (now : ℕ) (organization_id : String) (request : Request) (tables : Tables)
      (status : MemberStatus)
      → run env.to_json t.tables now organization_id request ≡ ok (tables, status)
      → t' ≡ record t { tables = tables }
      → Change env t t'
  emails :
      (t t' : Directory) (rows : List VerifiedEmailRow)
      → t' ≡ record t { verified_emails = rows }
      → Change env t t'

pub data History (env : Environment) (t : Directory) : Directory → Type 0 where
  here : History env t t
  next : {u v : Directory} → History env t u → Change env u v → History env t v

Change-IsSound :
    {env : Environment} {t t' : Directory}
    → Change env t t'
    → IsSound t.invitations
    → IsSound t'.invitations
Change-IsSound {env} (invitation t t' now organization_id request e) s =
    run_invitation-IsSound env t t' now organization_id s request e
Change-IsSound (membership t t' now organization_id request tables status e same) s = rw same s
Change-IsSound (emails t t' rows same) s = rw same s

pub History-IsSound :
    {env : Environment} {t t' : Directory}
    → History env t t'
    → IsSound t.invitations
    → IsSound t'.invitations
History-IsSound here s = s
History-IsSound (next h c) s = Change-IsSound c (History-IsSound h s)

-- A move that is enabled leaves what has ended.
moves_on :
    (move : Move) (f g : String → Option Stage) (id : String) (s : Stage)
    → Enabled move f
    → ((k : String) → g k ≡ after move f k)
    → s ≢ pending
    → f id ≡ some s
    → g id ≡ some s
moves_on (opened k) f g id s enabled e ended h = ground (arith, e id, eq_iff k id)
moves_on (replaced k by_id) f g id s enabled e ended h =
    ground (arith, e id, eq_iff k id, eq_iff by_id id, ended, enabled)
moves_on (withdrawn k) f g id s enabled e ended h = ground (arith, e id, eq_iff k id, ended)
moves_on (taken k m) f g id s enabled e ended h = ground (arith, e id, eq_iff k id, ended)

Change-keeps_ended :
    {env : Environment} {t t' : Directory} (id : String) (s : Stage)
    → Change env t t'
    → IsSound t.invitations
    → s ≢ pending
    → stages t.invitations id ≡ some s
    → stages t'.invitations id ≡ some s
Change-keeps_ended {env} id s (invitation t t' now organization_id request e) sound ended h =
    elim (run_invitation_refines env t t' now organization_id sound.ids request e) [
      | inl same ↦ rw same h
      | inr (move, enabled, moved) ↦
          moves_on move (stages t.invitations) (stages t'.invitations) id s enabled moved ended h
    ]
Change-keeps_ended id s (membership t t' now organization_id request tables status e same) sound
      ended h =
    rw same h
Change-keeps_ended id s (emails t t' rows same) sound ended h = rw same h

-- Through every history, what has once been accepted, revoked or superseded stays so, by the same
-- membership or invitation. The table is sound at the start.
pub History-keeps_ended :
    {env : Environment} {t t' : Directory} (id : String) (s : Stage)
    → History env t t'
    → IsSound t.invitations
    → s ≢ pending
    → stages t.invitations id ≡ some s
    → stages t'.invitations id ≡ some s
History-keeps_ended id s here sound ended h = h
History-keeps_ended id s (next past c) sound ended h =
    Change-keeps_ended id s c (History-IsSound past sound) ended
      (History-keeps_ended id s past sound ended h)
