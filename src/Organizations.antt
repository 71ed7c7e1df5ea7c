-- ===== src/Organizations.antt =====
-- The tables of packages/database/src/schema/{organizations,authorization,audit}.ts, as far as the
-- members of an organization need them, and packages/database/src/repositories/audit.ts, the writer
-- of the audit log. A key that is taken makes an insert fail; the tables' check constraints on texts
-- are left to the callers, and columns that no statement here reads or writes are left out.
pub mod Visibility
pub mod Tests
use tabela_pubg.Prelude.{
  ℕ, ◌+◌, String, Bool, true, false, not, ◌&&◌, ◌||◌, Option, none, some, List, [], ◌∷◌, ◌++◌, any,
  select, find, leb, ltb, ◌==◌, if◌then◌else◌, str_eq, is_none, is_some, Result, ok, err, codes,
  map,
}
use tabela_pubg.Outbox.{OutboxEventRow}

pub data OrganizationRole : Type 0 where
  owner admin member : OrganizationRole

pub data MembershipStatus : Type 0 where
  active revoked : MembershipStatus

pub record MembershipRow : Type 0 where
  pub id : String
  pub organization_id : String
  pub user_id : String
  pub role : OrganizationRole
  pub status : MembershipStatus
  pub joined_at : ℕ
  pub revoked_at : Option ℕ
  pub revocation_reason : Option String
  pub updated_at : ℕ

pub data OperationalRole : Type 0 where
  referee registrations broadcast analyst : OperationalRole

pub record RoleAssignmentRow : Type 0 where
  pub id : String
  pub organization_id : String
  pub membership_id : String
  pub authorization_scope_id : String
  pub role : OperationalRole
  pub status : MembershipStatus
  pub assigned_by_membership_id : String
  pub assignment_reason : String
  pub assigned_at : ℕ
  pub revoked_at : Option ℕ
  pub revocation_reason : Option String

pub record AuthorizationScopeRow : Type 0 where
  pub id : String
  pub organization_id : String
  pub label : String
  pub archived_at : Option ℕ

-- fields with their values, null among them
abbrev pub AuditSnapshot : Type 0
AuditSnapshot = List (String × Option String)

pub record AuditEventRow : Type 0 where
  pub id : String
  pub organization_id : String
  pub authorization_scope_id : Option String
  pub actor_membership_id : String
  pub action : String
  pub target_type : String
  pub target_id : String
  pub reason : String
  pub before : Option AuditSnapshot
  pub after : Option AuditSnapshot
  pub correlation_id : String
  pub causation_id : Option String
  pub occurred_at : ℕ

-- `organizations` holds the ids.
pub record Tables : Type 0 where
  pub organizations : List String
  pub memberships : List MembershipRow
  pub scopes : List AuthorizationScopeRow
  pub assignments : List RoleAssignmentRow
  pub audit_events : List AuditEventRow
  pub outbox_events : List OutboxEventRow

abbrev pub member_id : MembershipRow → String
member_id m = m.id

abbrev pub is_active : MembershipStatus → Bool
is_active active = true
is_active revoked = false

abbrev pub is_owner : OrganizationRole → Bool
is_owner owner = true
is_owner _ = false

-- `role === "owner" || role === "admin"`
abbrev pub may_manage : OrganizationRole → Bool
may_manage owner = true
may_manage admin = true
may_manage member = false

abbrev pub starts : List ℕ → List ℕ → Bool
starts [] text = true
starts (p ∷ ps) [] = false
starts (p ∷ ps) (c ∷ cs) = p == c && starts ps cs

abbrev pub contains : List ℕ → List ℕ → Bool
contains word [] = starts word []
contains word (c ∷ cs) = starts word (c ∷ cs) || contains word cs

-- the `i` flag folds the letters of ASCII
abbrev pub fold_case : ℕ → ℕ
fold_case c = if leb b'A' c && leb c b'Z' then c + 32 else c

abbrev pub sensitive_words : List String
sensitive_words =
    "authorization" ∷ "cookie" ∷ "code" ∷ "email" ∷ "invite" ∷ "otp" ∷ "password" ∷ "payload"
    ∷ "recipient" ∷ "secret" ∷ "session" ∷ "token" ∷ []

unfoldable pub is_sensitive_field : String → Bool
is_sensitive_field key =
    let text = map fold_case (codes key) in any (λ w. contains (codes w) text) sensitive_words

unfoldable pub has_at_sign : String → Bool
has_at_sign value = any (λ c. c == b'@') (codes value)

abbrev pub is_shown : String × Option String → Bool
is_shown (key, none) = not (is_sensitive_field key)
is_shown (key, some value) = not (is_sensitive_field key) && not (has_at_sign value)

unfoldable pub sanitize_snapshot : Option AuditSnapshot → Option AuditSnapshot
sanitize_snapshot none = none
sanitize_snapshot (some snapshot) = some (select is_shown snapshot)

-- `AuditWriter.append`
unfoldable pub append_audit_event : List AuditEventRow → AuditEventRow → Result (List AuditEventRow)
append_audit_event events input =
    if any (λ e. str_eq e.id input.id) events
    then err "duplicate key value violates unique constraint"
    else ok (
        events
        ++ record input {
          before = sanitize_snapshot input.before;
          after = sanitize_snapshot input.after;
        }
          ∷ [])

-- The active member of an organization with an id.
unfoldable pub is_member : String → String → MembershipRow → Bool
is_member organization_id id m =
    str_eq m.organization_id organization_id && str_eq m.id id && is_active m.status

-- `order by occurred_at desc`
unfoldable pub insert_newest : AuditEventRow → List AuditEventRow → List AuditEventRow
insert_newest e [] = e ∷ []
insert_newest e (f ∷ fs) =
    let rest = insert_newest e fs in
    if leb f.occurred_at e.occurred_at then e ∷ f ∷ fs else f ∷ rest

unfoldable pub newest_first : List AuditEventRow → List AuditEventRow
newest_first [] = []
newest_first (e ∷ es) = insert_newest e (newest_first es)

abbrev pub is_visible : String → String → OrganizationRole → AuditEventRow → Bool
is_visible organization_id viewer_id role e =
    if may_manage role
    then str_eq e.organization_id organization_id
    else str_eq e.organization_id organization_id && str_eq e.actor_membership_id viewer_id

abbrev pub visible_to : Tables → String → String → Option MembershipRow → List AuditEventRow
visible_to t organization_id viewer_id none = []
visible_to t organization_id viewer_id (some viewer) =
    newest_first (select (is_visible organization_id viewer_id viewer.role) t.audit_events)

-- `AuditWriter.listVisible`
unfoldable pub list_visible : Tables → String → String → List AuditEventRow
list_visible t organization_id viewer_id =
    visible_to t organization_id viewer_id
      (find (is_member organization_id viewer_id) t.memberships)
