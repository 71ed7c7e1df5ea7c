-- ===== src/Identities/SignIns.antt =====
-- An account is found again by what it was made with.
use tabela_pubg.Prelude.{
  required, bound, ℕ, ◌≡◌, refl, sym, ap, ◌∙◌, ◌⊎◌, inl, inr, String, Bool, true, false, ◌&&◌, ◌||◌,
  Option, none, some, List, [], ◌∷◌, ◌++◌, any, find, arith, ok, err, if◌then◌else◌, Bool-cases,
  str_eq, eq_refl, any-false, any-append_one, find-append_one, is_some,
}
use mathlib.Core.Path.{subst}
use tabela_pubg.Sessions.{UserRow, UserStatus, is_active_user}
use tabela_pubg.Identities.{
  email, IdentityRow, VerifiedEmailRow, Registry, same_email, normalize_email, email_digest,
  is_subject, is_email_identity, insert_user, insert_identity, insert_verified_email,
}
use tabela_pubg.Identities.Accounts.{
  AccountInput, AccountResult, created, resolved, identity_row, email_row, is_current_email,
  is_account, find_email_account, insert_account, account_or_new, create_email_account,
  account_conflict, add_email, add_identity, is_foreign_identity, is_foreign_email,
  link_verified_email_to_actor, completion_rejected,
}

pub same_email_refl : (a : List ℕ) → same_email a a ≡ true
same_email_refl [] = refl
same_email_refl (c ∷ cs) = ground (arith, same_email_refl cs)

-- What an insert has done when it succeeds.
insert_user_lem :
    (rows rows' : List UserRow) (id : String)
    → insert_user rows id ≡ ok rows'
    → any (λ u. str_eq u.id id && is_active_user u.status) rows' ≡ true
unfolding insert_user
insert_user_lem rows rows' id e = elim (Bool-cases (any (λ u. str_eq u.id id) rows)) [
  | inl y ↦ absurd (cc (rw y at e))
  | inr n ↦
      let same : rows ++ record { id = id; status = UserStatus.active } ∷ [] ≡ rows' =
        cc (rw n at e) in
      rw (sym same) (any-append_one _ rows _ (ground (arith, eq_refl id)))
]

pub insert_identity_lem :
    (rows : List IdentityRow) (row : IdentityRow) (out : List IdentityRow × Bool)
    → insert_identity rows row ≡ ok out
    → out.1 ≡ true
    → (out.0 ≡ rows ++ row ∷ []) × (any (is_subject row.provider row.provider_subject) rows ≡ false)
unfolding insert_identity
insert_identity_lem rows row out e h =
    elim (Bool-cases (any (is_subject row.provider row.provider_subject) rows)) [
      | inl y ↦ absurd (cc (rw y at e))
      | inr n ↦ elim (Bool-cases (any (λ i. str_eq i.id row.id) rows)) [
        | inl y ↦ absurd (cc (rw (n, y) at e))
        | inr m ↦ (cc (rw (n, m) at e), n)
      ]
    ]

pub insert_verified_email_lem :
    (rows rows' : List VerifiedEmailRow) (row : VerifiedEmailRow)
    → insert_verified_email rows row ≡ ok rows'
    → rows' ≡ rows ++ row ∷ []
unfolding insert_verified_email
insert_verified_email_lem rows rows' row e = ground arith

module _ (sha256 : List ℕ → String) (to_lower_case : List ℕ → List ℕ) where
  unfoldable pub subject_of : List ℕ → String
  subject_of text = email_digest sha256 to_lower_case (normalize_email to_lower_case text)

  inserted :
      (t t' : Registry) (input : AccountInput) (answer : AccountResult)
      → insert_account sha256 to_lower_case t input ≡ ok (t', answer)
      → (find_email_account sha256 to_lower_case t' input.email_text
          ≡ some (
              identity_row input.identity_id input.user_id email
                (subject_of input.email_text)
                input.now))
        × (answer ≡ created input.user_id)
        × (t'.challenges ≡ t.challenges)
  unfolding insert_account find_email_account subject_of is_account is_email_identity
  inserted t t' input answer e =
      let normalized = normalize_email to_lower_case input.email_text in
      let row =
        identity_row input.identity_id input.user_id email (subject_of input.email_text)
          input.now in
      let mail =
        email_row input.verified_email_id input.user_id input.identity_id normalized input.now in
      let (users, k, e1) = bound (insert_user t.users input.user_id) _ (t', answer) e in
      let (identities, l, e2) = bound (insert_identity t.identities row) _ (t', answer) e1 in
      let (fresh, e3) = required identities.1 account_conflict _ (t', answer) e2 in
      let (emails, m, e4) =
        bound (insert_verified_email t.verified_emails mail) _ (t', answer) e3 in
      let same : record t { users = users; identities = identities.0; verified_emails = emails }
          ≡ t' =
        cc in
      let (written, free) = insert_identity_lem t.identities row identities l fresh in
      (
        rw (sym same) (
            ap (find (fits users emails normalized)) written
            ∙ find-append_one (fits users emails normalized) t.identities row
                (any-false (fits users emails normalized)
                  (is_subject email (subject_of input.email_text)) t.identities
                  (λ i h. ground (arith, h)) free)
                (ground (arith, eq_refl (subject_of input.email_text), owned users emails k m))),
        cc,
        rw (sym same) refl,
      )
    where
      fits : List UserRow → List VerifiedEmailRow → List ℕ → IdentityRow → Bool
      fits users emails normalized i =
          is_email_identity (subject_of input.email_text) i && is_account users emails normalized i

      owned :
          (users : List UserRow) (emails : List VerifiedEmailRow)
          → insert_user t.users input.user_id ≡ ok users
          → insert_verified_email t.verified_emails (
              email_row input.verified_email_id input.user_id input.identity_id
                (normalize_email to_lower_case input.email_text)
                input.now)
            ≡ ok emails
          → is_account users emails (normalize_email to_lower_case input.email_text) (
              identity_row input.identity_id input.user_id email
                (subject_of input.email_text)
                input.now)
            ≡ true
      owned users emails k m = ground (
        arith,
        insert_user_lem t.users users input.user_id k,
        (ap
              (any (λ e.
                str_eq e.user_id input.user_id
                && str_eq e.identity_id input.identity_id
                && is_current_email (normalize_email to_lower_case input.email_text) e))
              (insert_verified_email_lem t.verified_emails emails _ m)
            ∙ any-append_one _ t.verified_emails _ (
                ground (
                  arith,
                  eq_refl input.user_id,
                  eq_refl input.identity_id,
                  same_email_refl (normalize_email to_lower_case input.email_text),
                ))),
      )

  pub account_found :
      (t t' : Registry) (input : AccountInput) (answer : AccountResult)
      → create_email_account sha256 to_lower_case t input ≡ ok (t', answer)
      → (i : IdentityRow) × (find_email_account sha256 to_lower_case t' input.email_text ≡ some i)
        × ((answer ≡ created i.user_id) ⊎ (answer ≡ resolved i.user_id))
        × (t'.challenges ≡ t.challenges)
  unfolding create_email_account identity_row
  account_found t t' input answer e = found _ refl e
    where
      found :
          (account : Option IdentityRow)
          → find_email_account sha256 to_lower_case t input.email_text ≡ account
          → account_or_new sha256 to_lower_case t input account ≡ ok (t', answer)
          → (i : IdentityRow) × (find_email_account sha256 to_lower_case t' input.email_text
              ≡ some i)
            × ((answer ≡ created i.user_id) ⊎ (answer ≡ resolved i.user_id))
            × (t'.challenges ≡ t.challenges)
      found (some i) k h =
          let same : t ≡ t' = cc in
          (
            i,
            subst (λ d. find_email_account sha256 to_lower_case d input.email_text ≡ some i) same k,
            inr (cc),
            rw (sym same) refl,
          )
      found none k h =
          elim (Bool-cases (
            is_some (
              find (is_current_email (normalize_email to_lower_case input.email_text))
                t.verified_emails))) [
                  | inl y ↦ absurd (cc (rw y at h))
                  | inr n ↦
                      let (again, said, kept) = inserted t t' input answer (rw n at h) in
                      (_, again, inl said, kept)
                ]

  add_email_keeps :
      (t t' : Registry) (input : AccountInput) (identities : List IdentityRow) (id : String)
      (known : Option VerifiedEmailRow)
      → add_email sha256 to_lower_case t input identities id known ≡ ok t'
      → (t'.challenges ≡ t.challenges) × (t'.sessions ≡ t.sessions)
  add_email_keeps t t' input identities id none e =
      let (emails, k, l) = bound (insert_verified_email t.verified_emails _) _ t' e in
      let same : record t { identities = identities; verified_emails = emails } ≡ t' = cc in
      rw (sym same) (refl, refl)
  add_email_keeps t t' input identities id (some known) e =
      elim (Bool-cases (str_eq known.identity_id id)) [
        | inr n ↦ absurd (cc (rw n at e))
        | inl y ↦
            let same : record t { identities = identities } ≡ t' = cc (rw y at e) in
            rw (sym same) (refl, refl)
      ]

  -- To link an email leaves the one-time codes and the sessions alone.
  pub link_keeps :
      (t t' : Registry) (input : AccountInput)
      → link_verified_email_to_actor sha256 to_lower_case t input ≡ ok t'
      → (t'.challenges ≡ t.challenges) × (t'.sessions ≡ t.sessions)
  unfolding link_verified_email_to_actor
  link_keeps t t' input e = decide _ _ _ refl e
    where
      decide :
          (foreign : Bool) (known : Option VerifiedEmailRow) (existing : Option IdentityRow)
          → (is_foreign_identity sha256 to_lower_case input.user_id existing
              || is_foreign_email sha256 to_lower_case input.user_id known)
            ≡ foreign
          → (if foreign
              then err completion_rejected
              else add_identity sha256 to_lower_case t input known existing)
            ≡ ok t'
          → (t'.challenges ≡ t.challenges) × (t'.sessions ≡ t.sessions)
      decide true known existing f h = absurd (cc)
      decide false known (some i) f h = add_email_keeps t t' input t.identities i.id known h
      decide false known none f h =
          let (identities, k, l) = bound (insert_identity t.identities _) _ t' h in
          let (_, m) = required identities.1 completion_rejected _ t' l in
          add_email_keeps t t' input identities.0 input.identity_id known m
