-- ===== src/Identities/Returning.antt =====
-- packages/database/src/repositories/identity.ts, findEmailAccount and createEmailAccount: whoever
-- comes back by an email finds the same account, also when others have signed up in between.
use mathlib.Core.Path.{subst}
use tabela_pubg.Prelude.{
  required, bound, ℕ, ◌≤◌, ◌≡◌, refl, ◌⊎◌, inl, inr, String, Bool, true, false, ◌&&◌, Option, none,
  some, List, [], ◌∷◌, ◌++◌, any, find, count, arith, ok, Bool-cases, str_eq, eq_iff, is_some,
  any-append, any-false, any-eq_false_iff, count-append-le, find-append_unique, count-append,
  find-true, Memᴰ-find,
}
use tabela_pubg.Sessions.{UserRow, UserStatus, is_active_user}
use tabela_pubg.Identities.{
  IdentityProvider, discord, email, same_provider, IdentityRow, VerifiedEmailRow, Registry,
  normalize_email, is_subject, is_email_identity, insert_user, insert_identity,
  insert_verified_email,
}
use tabela_pubg.Identities.Accounts.{
  AccountInput, AccountResult, created, resolved, is_current_email, is_account, find_email_account,
  insert_account, account_or_new, create_email_account, account_conflict,
}
use tabela_pubg.Identities.SignIns.{
  subject_of, insert_identity_lem, insert_verified_email_lem, account_found,
}

-- Two identities of one email would share the key of the table.
one_subject :
    (subject : String) (i j : IdentityRow)
    → is_subject email subject i ≡ true
    → is_subject email subject j ≡ true
    → is_subject j.provider j.provider_subject i ≡ true
unfolding is_subject
one_subject subject i j a b = by_provider i.provider j.provider a b
  where
    by_provider :
        (p q : IdentityProvider)
        → (same_provider p email && str_eq i.provider_subject subject) ≡ true
        → (same_provider q email && str_eq j.provider_subject subject) ≡ true
        → (same_provider p q && str_eq i.provider_subject j.provider_subject) ≡ true
    by_provider email email x y = ground (
      arith,
      eq_iff i.provider_subject subject,
      eq_iff j.provider_subject subject,
      eq_iff i.provider_subject j.provider_subject,
    )
    by_provider discord q x y = absurd (cc)
    by_provider email discord x y = absurd (cc)

is_account-append :
    (users more : List UserRow) (emails also : List VerifiedEmailRow) (normalized : List ℕ)
    (i : IdentityRow)
    → is_account users emails normalized i ≡ true
    → is_account (users ++ more) (emails ++ also) normalized i ≡ true
unfolding is_account
is_account-append users more emails also normalized i e =
    let active = any-append (λ u. str_eq u.id i.user_id && is_active_user u.status) users more in
    let owned =
      any-append
        (λ e.
          str_eq e.user_id i.user_id && str_eq e.identity_id i.id && is_current_email normalized e)
        emails also in
    ground (arith, active, owned, e)

is_subject_of_fits :
    (subject : String) (b : Bool) (i : IdentityRow)
    → (is_email_identity subject i && b) ≡ true
    → is_subject email subject i ≡ true
unfolding is_email_identity
is_subject_of_fits subject b i e = ground (arith, e)

module _ (sha256 : List ℕ → String) (to_lower_case : List ℕ → List ℕ) where
  -- Sign-ins by whatever emails, one after another.
  pub data SignIns (t : Registry) : Registry → Type 0 where
    start : SignIns t t
    next :
        (now later : Registry) (input : AccountInput) (answer : AccountResult)
        → SignIns t now
        → create_email_account sha256 to_lower_case now input ≡ ok (later, answer)
        → SignIns t later

  -- The rows that a sign-in adds: a user, an identity under a new subject, and its email.
  abbrev Added : Registry → Registry → Type 0
  Added t t' =
      (users : List UserRow) × (i : IdentityRow) × (emails : List VerifiedEmailRow) × (t'.users
        ≡ t.users ++ users)
      × (t'.identities ≡ t.identities ++ i ∷ [])
      × (t'.verified_emails ≡ t.verified_emails ++ emails)
      × (any (is_subject i.provider i.provider_subject) t.identities ≡ false)

  insert_user-append :
      (rows rows' : List UserRow) (id : String)
      → insert_user rows id ≡ ok rows'
      → (more : List UserRow) × (rows' ≡ rows ++ more)
  unfolding insert_user
  insert_user-append rows rows' id e = elim (Bool-cases (any (λ u. str_eq u.id id) rows)) [
    | inl y ↦ absurd (cc (rw y at e))
    | inr n ↦ (record { id = id; status = UserStatus.active } ∷ [], cc (rw n at e))
  ]

  insert_account-Added :
      (t t' : Registry) (input : AccountInput) (answer : AccountResult)
      → insert_account sha256 to_lower_case t input ≡ ok (t', answer)
      → Added t t'
  unfolding insert_account
  insert_account-Added t t' input answer e =
      let (users, k, e1) = bound (insert_user t.users input.user_id) _ (t', answer) e in
      let (identities, l, e2) = bound (insert_identity t.identities _) _ (t', answer) e1 in
      let (fresh, e3) = required identities.1 account_conflict _ (t', answer) e2 in
      let (emails, m, e4) = bound (insert_verified_email t.verified_emails _) _ (t', answer) e3 in
      let same : record t { users = users; identities = identities.0; verified_emails = emails }
          ≡ t' =
        cc in
      let (more, users_after) = insert_user-append t.users users input.user_id k in
      let (written, free) = insert_identity_lem t.identities _ identities l fresh in
      let emails_after = insert_verified_email_lem t.verified_emails emails _ m in
      subst (Added t) same (more, _, _, users_after, written, emails_after, free)

  create_inv :
      (t t' : Registry) (input : AccountInput) (answer : AccountResult)
      → create_email_account sha256 to_lower_case t input ≡ ok (t', answer)
      → (t ≡ t') ⊎ Added t t'
  unfolding create_email_account
  create_inv t t' input answer e =
      found (find_email_account sha256 to_lower_case t input.email_text) e
    where
      found :
          (account : Option IdentityRow)
          → account_or_new sha256 to_lower_case t input account ≡ ok (t', answer)
          → (t ≡ t') ⊎ Added t t'
      found (some i) h = inl (cc)
      found none h =
          elim (Bool-cases (
            is_some (
              find (is_current_email (normalize_email to_lower_case input.email_text))
                t.verified_emails))) [
                  | inl y ↦ absurd (cc (rw y at h))
                  | inr n ↦ inr (insert_account-Added t t' input answer (rw n at h))
                ]

  unique_after :
      (subject : String) (t t' : Registry)
      → count (is_subject email subject) t.identities ≤ 1
      → Added t t'
      → count (is_subject email subject) t'.identities ≤ 1
  unique_after subject t t' unique (users, row, emails, e, f, g, free) =
      rw f (elim (Bool-cases (is_subject email subject row)) [
        | inr n ↦ rw (count-append (is_subject email subject) t.identities row n) unique
        | inl y ↦
            let none_before =
              any-false (is_subject email subject) (is_subject row.provider row.provider_subject)
                t.identities (λ j h. one_subject subject j row h y) free in
            omega (
              arith,
              (any-eq_false_iff (is_subject email subject) t.identities).0 none_before,
              count-append-le (is_subject email subject) t.identities row,
            )
      ])

  -- The email leads to an account of the user, and to one identity at most.
  Known : List ℕ → String → Registry → Type 0
  Known text user_id t =
      (i : IdentityRow) × (find_email_account sha256 to_lower_case t text ≡ some i)
      × (i.user_id ≡ user_id)
      × (count (is_subject email (subject_of sha256 to_lower_case text)) t.identities ≤ 1)

  Known-Added :
      (text : List ℕ) (user_id : String) (t t' : Registry)
      → Known text user_id t
      → Added t t'
      → Known text user_id t'
  unfolding Known find_email_account subject_of
  Known-Added text user_id t t' (i, found, owned, unique) (users, row, emails, e, f, g, free) =
      let normalized = normalize_email to_lower_case text in
      let subject = subject_of sha256 to_lower_case text in
      let fits : List UserRow → List VerifiedEmailRow → IdentityRow → Bool =
        λ us es j. is_email_identity subject j && is_account us es normalized j in
      let fit = find-true (fits t.users t.verified_emails) t.identities i found in
      let listed = Memᴰ-find (fits t.users t.verified_emails) t.identities i found in
      let mine = is_subject_of_fits subject _ i fit in
      let still : fits (t.users ++ users) (t.verified_emails ++ emails) i ≡ true =
        still_fits i fit in
      let again =
        find-append_unique (fits t.users t.verified_emails)
          (fits (t.users ++ users) (t.verified_emails ++ emails)) (is_subject email subject)
          t.identities (row ∷ []) i (λ j h. is_subject_of_fits subject _ j h)
          (λ j h. is_subject_of_fits subject _ j h) unique found still in
      (
        i,
        rw (e, f, g) again,
        owned,
        unique_after subject t t' unique (users, row, emails, e, f, g, free),
      )
    where
      still_fits :
          (j : IdentityRow)
          → (is_email_identity (subject_of sha256 to_lower_case text) j
              && is_account t.users t.verified_emails (normalize_email to_lower_case text) j)
            ≡ true
          → (is_email_identity (subject_of sha256 to_lower_case text) j
              && is_account
                  (t.users ++ users)
                  (t.verified_emails ++ emails)
                  (normalize_email to_lower_case text)
                  j)
            ≡ true
      still_fits j h = ground (
        arith,
        h,
        is_account-append t.users users t.verified_emails emails
            (normalize_email to_lower_case text) j,
      )

  SignIns-Known :
      {t t' : Registry} (text : List ℕ) (user_id : String)
      → SignIns t t'
      → Known text user_id t
      → Known text user_id t'
  SignIns-Known text user_id start k = k
  SignIns-Known text user_id (next now later input answer past e) k =
      let before = SignIns-Known text user_id past k in
      elim (create_inv now later input answer e) [
        | inl same ↦ subst (Known text user_id) same before
        | inr added ↦ Known-Added text user_id now later before added
      ]

  -- Whoever has signed in by an email, with a new account or a known one, is signed in as the same
  -- user when the email is used again, after any further sign-ins by whatever emails, and that sign-in
  -- writes nothing, whichever ids are proposed for a new account. At first there is at most one
  -- identity of the email, as their unique key says.
  pub create_email_account_later :
      (t t' t'' : Registry) (input later : AccountInput) (answer : AccountResult)
      → create_email_account sha256 to_lower_case t input ≡ ok (t', answer)
      → count (is_subject email (subject_of sha256 to_lower_case input.email_text)) t.identities ≤ 1
      → SignIns t' t''
      → later.email_text ≡ input.email_text
      → (user_id : String) × ((answer ≡ created user_id) ⊎ (answer ≡ resolved user_id))
        × (create_email_account sha256 to_lower_case t'' later ≡ ok (t'', resolved user_id))
  unfolding create_email_account Known
  create_email_account_later t t' t'' input later answer e unique past same =
      let subject = subject_of sha256 to_lower_case input.email_text in
      let (i, found, said, _) = account_found sha256 to_lower_case t t' input answer e in
      let unique' : count (is_subject email subject) t'.identities ≤ 1 =
        elim (create_inv t t' input answer e) [
          | inl kept ↦ subst (λ d. count (is_subject email subject) d.identities ≤ 1) kept unique
          | inr added ↦ unique_after subject t t' unique added
        ] in
      let (j, known, owned, _) =
        SignIns-Known input.email_text i.user_id past (i, found, refl, unique') in
      (i.user_id, said, rw (same, known, owned) refl)
