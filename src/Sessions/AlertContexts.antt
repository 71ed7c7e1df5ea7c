-- ===== src/Sessions/AlertContexts.antt =====
-- packages/database/src/repositories/sessions.ts, the part on alert contexts: the token of a mail
-- about a new device stands for the session that the device opened.
use tabela_pubg.Prelude.{
  ℕ, ◌≡◌, refl, sym, inl, inr, String, Bool, true, false, ◌&&◌, ◌||◌, Option, none, some, List, [],
  ◌∷◌, ◌++◌, any, find, leb, ltb, if◌then◌else◌, str_eq, is_none, not, Result, ok, err, join_one,
  join_one_lem, only, bind_some, map_some, find_by, HasDistinctKeys, Bool-cases, arith, eq_iff,
}
use tabela_pubg.Sessions.{SessionRow}

pub record AlertContextRow : Type 0 where
  pub id : String
  pub user_id : String
  pub session_id : String
  pub token_digest : String
  pub expires_at : ℕ
  pub resolved_at : Option ℕ
  pub created_at : ℕ

abbrev pub context_token : AlertContextRow → String
context_token c = c.token_digest

pub record CreateAlertContextInput : Type 0 where
  pub id : String
  pub user_id : String
  pub session_id : String
  pub token : String
  pub expires_at : ℕ
  pub created_at : ℕ

-- The insert fails on a taken id or digest.
unfoldable pub create_alert_context :
    (String → String)
    → List AlertContextRow
    → CreateAlertContextInput
    → Result (List AlertContextRow)
create_alert_context digest rows input =
    if any (λ c. str_eq c.id input.id || str_eq c.token_digest (digest input.token)) rows
    then err "duplicate key value violates unique constraint"
    else ok (
        rows
        ++ record {
          id = input.id;
          user_id = input.user_id;
          session_id = input.session_id;
          token_digest = digest input.token;
          expires_at = input.expires_at;
          resolved_at = none;
          created_at = input.created_at;
        }
          ∷ [])

pub data AlertContext : Type 0 where
  active already_revoked : (session_id : String) → AlertContext
  expired not_found : AlertContext

pub data ResolveAlertContextResult : Type 0 where
  active already_revoked : (session_id : String) → ResolveAlertContextResult
  not_found_expired : ResolveAlertContextResult

unfoldable pub session_of : List SessionRow → AlertContextRow → Option SessionRow
session_of sessions c = find (λ s. str_eq s.user_id c.user_id && str_eq s.id c.session_id) sessions

unfoldable pub is_over : ℕ → SessionRow → Bool
is_over now s = leb s.idle_expires_at now || leb s.absolute_expires_at now

unfoldable pub is_context : String → String → AlertContextRow → Bool
is_context actor_id context_digest c =
    str_eq c.user_id actor_id && str_eq c.token_digest context_digest

abbrev pub context_state : ℕ → Option (AlertContextRow × SessionRow) → AlertContext
context_state now none = not_found
context_state now (some (c, s)) =
    if leb c.expires_at now
    then expired
    else if not (is_none s.revoked_at)
    then AlertContext.already_revoked c.session_id
    else if is_over now s
    then expired
    else AlertContext.active c.session_id

unfoldable pub resolve_alert_context_by_digest :
    List AlertContextRow → List SessionRow → String → String → ℕ → AlertContext
resolve_alert_context_by_digest contexts sessions actor_id context_digest now =
    context_state now (join_one (session_of sessions) (is_context actor_id context_digest) contexts)

unfoldable pub is_current_context : String → String → ℕ → AlertContextRow → Bool
is_current_context user_id context_digest now c =
    is_context user_id context_digest c && ltb now c.expires_at

abbrev pub current_state : ℕ → Option (AlertContextRow × SessionRow) → ResolveAlertContextResult
current_state now none = not_found_expired
current_state now (some (c, s)) =
    if not (is_none s.revoked_at)
    then ResolveAlertContextResult.already_revoked c.session_id
    else if is_over now s
    then not_found_expired
    else ResolveAlertContextResult.active c.session_id

unfoldable pub resolve_alert_context_read_only :
    (String → String)
    → List AlertContextRow
    → List SessionRow
    → String
    → String
    → ℕ
    → ResolveAlertContextResult
resolve_alert_context_read_only digest contexts sessions user_id token now =
    current_state now
      (join_one (session_of sessions) (is_current_context user_id (digest token) now) contexts)

-- The answer that does not tell an expired context from a missing one.
abbrev pub merged : AlertContext → ResolveAlertContextResult
merged (AlertContext.active id) = ResolveAlertContextResult.active id
merged (AlertContext.already_revoked id) = ResolveAlertContextResult.already_revoked id
merged expired = not_found_expired
merged not_found = not_found_expired

token_of_is_context :
    (actor_id k : String) (c : AlertContextRow)
    → is_context actor_id k c ≡ true
    → c.token_digest ≡ k
unfolding is_context
token_of_is_context actor_id k c e = ground (arith, eq_iff c.token_digest k)

token_of_is_current_context :
    (user_id k : String) (now : ℕ) (c : AlertContextRow)
    → is_current_context user_id k now c ≡ true
    → c.token_digest ≡ k
unfolding is_current_context
token_of_is_current_context user_id k now c e = token_of_is_context user_id k c (ground arith)

module _ (digest : String → String) (contexts : List AlertContextRow) (sessions : List SessionRow)
    (user_id token : String) (now : ℕ) where
  abbrev reading :
      (AlertContextRow → Bool) → Option AlertContextRow → Option (AlertContextRow × SessionRow)
  reading p o = bind_some (only p o) (λ c. map_some (λ s. (c, s)) (session_of sessions c))

  states :
      (c : AlertContextRow) (s : SessionRow) (revoked over : Bool)
      → is_none s.revoked_at ≡ revoked
      → is_over now s ≡ over
      → ltb now c.expires_at ≡ true
      → current_state now (some (c, s)) ≡ merged (context_state now (some (c, s)))
  states c s true true e f g = ground (arith, e, f, g)
  states c s true false e f g = ground (arith, e, f, g)
  states c s false over e f g = ground (arith, e, g)

  late :
      (c : AlertContextRow) (s : SessionRow)
      → ltb now c.expires_at ≡ false
      → merged (context_state now (some (c, s))) ≡ not_found_expired
  late c s e = ground (arith, e)

  same_state :
      (c : AlertContextRow) (o : Option SessionRow)
      → session_of sessions c ≡ o
      → current_state now (reading (is_current_context user_id (digest token) now) (some c))
        ≡ merged (context_state now (reading (is_context user_id (digest token)) (some c)))
  unfolding is_current_context
  same_state c o e = elim (Bool-cases (is_context user_id (digest token) c)) [
    | inr n ↦ rw n refl
    | inl y ↦ elim (Bool-cases (ltb now c.expires_at)) [
      | inl k ↦ rw (y, k, e) (here o k)
      | inr k ↦ rw (y, k, e) (gone o k)
    ]
  ]
    where
      here :
          (q : Option SessionRow)
          → ltb now c.expires_at ≡ true
          → current_state now (map_some (λ s. (c, s)) q)
            ≡ merged (context_state now (map_some (λ s. (c, s)) q))
      here none k = refl
      here (some s) k = states c s _ _ refl refl k

      gone :
          (q : Option SessionRow)
          → ltb now c.expires_at ≡ false
          → not_found_expired ≡ merged (context_state now (map_some (λ s. (c, s)) q))
      gone none k = refl
      gone (some s) k = sym (late c s k)

  -- Reading a context by its token answers as reading it by its digest does, but for not telling an
  -- expired one from a missing one. The digests of the contexts are distinct.
  pub resolve_alert_context_read_only_lem :
      HasDistinctKeys context_token contexts
      → resolve_alert_context_read_only digest contexts sessions user_id token now
        ≡ merged (resolve_alert_context_by_digest contexts sessions user_id (digest token) now)
  unfolding resolve_alert_context_read_only resolve_alert_context_by_digest
  resolve_alert_context_read_only_lem d =
      let k = digest token in
      let read_current =
        join_one_lem context_token (is_current_context user_id k now) k
          (token_of_is_current_context user_id k now) (session_of sessions) contexts d in
      let read_any =
        join_one_lem context_token (is_context user_id k) k (token_of_is_context user_id k)
          (session_of sessions) contexts d in
      rw (read_current, read_any) (found (find_by context_token k contexts))
    where
      found :
          (o : Option AlertContextRow)
          → current_state now (reading (is_current_context user_id (digest token) now) o)
            ≡ merged (context_state now (reading (is_context user_id (digest token)) o))
      found none = refl
      found (some c) = same_state c (session_of sessions c) refl
