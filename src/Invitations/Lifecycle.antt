-- ===== src/Invitations/Lifecycle.antt =====
-- The abstract view of the invitations: the stage of each id, and the moves between stages.
use tabela_pubg.Prelude.{
  ℕ, ◌≡◌, String, Option, none, some, List, if◌then◌else◌, str_eq, find_by, map_some,
}
use tabela_pubg.Invitations.{InvitationRow, invitation_id}

pub data Stage : Type 0 where
  pending : Stage
  accepted : (membership_id : Option String) → Stage
  revoked : Stage
  superseded : (invitation_id : Option String) → Stage

abbrev pub Lifecycle : Type 0
Lifecycle = String → Option Stage

abbrev pub stage_of : Option ℕ → Option ℕ → Option ℕ → Option String → Option String → Stage
stage_of (some at) superseded_at revoked_at member by = accepted member
stage_of none (some at) revoked_at member by = superseded by
stage_of none none (some at) member by = revoked
stage_of none none none member by = pending

unfoldable pub stage : InvitationRow → Stage
stage r =
    stage_of r.accepted_at r.superseded_at r.revoked_at r.accepted_by_membership_id
      r.superseded_by_invitation_id

abbrev pub stages : List InvitationRow → Lifecycle
stages rows id = map_some stage (find_by invitation_id id rows)

pub data Move : Type 0 where
  opened : (id : String) → Move
  replaced : (id by_id : String) → Move
  withdrawn : (id : String) → Move
  taken : (id membership_id : String) → Move

abbrev pub at : String → Stage → Lifecycle → Lifecycle
at id s f k = if str_eq id k then some s else f k

abbrev pub after : Move → Lifecycle → Lifecycle
after (opened id) f = at id pending f
after (replaced id by_id) f = at by_id pending (at id (superseded (some by_id)) f)
after (withdrawn id) f = at id revoked f
after (taken id membership_id) f = at id (accepted (some membership_id)) f

-- A new id is new, and only a pending invitation ends.
abbrev pub Enabled : Move → Lifecycle → Type 0
Enabled (opened id) f = f id ≡ none
Enabled (replaced id by_id) f = (f id ≡ some pending) × (f by_id ≡ none)
Enabled (withdrawn id) f = f id ≡ some pending
Enabled (taken id membership_id) f = f id ≡ some pending
