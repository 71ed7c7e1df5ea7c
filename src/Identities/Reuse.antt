-- ===== src/Identities/Reuse.antt =====
-- A one-time code is completed once.
use tabela_pubg.Prelude.{
  ℕ, ◌≡◌, ◌≢◌, refl, sym, ap, ◌∙◌, inl, inr, String, true, false, some, List, arith, ok,
  HasDistinctKeys, HasDistinctKeys-update, find_by, find_by-update, find_by-Memᴰ, touch?,
}
use mathlib.Core.Path.{subst}
use tabela_pubg.Challenges.{AuthChallengePurpose, challenge_key, is_open, may_consume, consume}
use tabela_pubg.Identities.{Registry}
use tabela_pubg.Identities.Completion.{
  CompletionInput, Completion, rejected, challenge_input, complete_otp_challenge,
}
use tabela_pubg.Identities.Completed.{Accepted, complete_otp_challenge-Accepted}

module _ (digest : String → String) (sha256 : List ℕ → String) (to_lower_case : List ℕ → List ℕ)
    (challenge_code_digest : List ℕ → AuthChallengePurpose → String → String) (t : Registry)
    (distinct : HasDistinctKeys challenge_key t.challenges) where
  used_up :
      (t' t'' : Registry) (input later : CompletionInput) (answer again : Completion)
      → Accepted digest sha256 to_lower_case challenge_code_digest t t' input answer
      → Accepted digest sha256 to_lower_case challenge_code_digest t' t'' later again
      → later.challenge_id ≡ input.challenge_id
      → false ≡ true
  unfolding consume is_open
  used_up t' t'' input later answer again first_ second same =
      let taken = may_consume (challenge_input input) first_.code_digest input.now in
      let r = first_.challenge in
      let q = second.challenge in
      let there =
        find_by-update challenge_key taken (consume input.now) (λ c. refl) r.id t.challenges
        ∙ ap (touch? taken (consume input.now))
            (find_by-Memᴰ challenge_key r t.challenges distinct first_.listed) in
      let distinct' = subst (HasDistinctKeys challenge_key) (sym first_.used) (
        HasDistinctKeys-update challenge_key taken (consume input.now) (λ c. refl) t.challenges
          distinct) in
      let found = find_by-Memᴰ challenge_key q t'.challenges distinct' second.listed in
      let ids : q.id ≡ r.id = second.named ∙ same ∙ sym first_.named in
      let both : touch? taken (consume input.now) (some r) ≡ some q =
        sym there
        ∙ ap (find_by challenge_key r.id) (sym first_.used)
        ∙ subst (λ k. find_by challenge_key k t'.challenges ≡ some q) ids found in
      ground (arith, both, first_.taken, second.was_open)

  -- After a code has been completed, every completion of the same challenge on the tables as it left
  -- them, whatever code and binding it comes with, is rejected and changes nothing, if it returns. The
  -- ids of the challenges are distinct.
  pub complete_otp_challenge_once :
      (t' t'' : Registry) (input later : CompletionInput) (answer again : Completion)
      → complete_otp_challenge digest sha256 to_lower_case challenge_code_digest t input
        ≡ ok (t', answer)
      → answer ≢ rejected
      → later.challenge_id ≡ input.challenge_id
      → complete_otp_challenge digest sha256 to_lower_case challenge_code_digest t' later
        ≡ ok (t'', again)
      → (t'' ≡ t') × (again ≡ rejected)
  complete_otp_challenge_once t' t'' input later answer again e apart same e' =
      elim (complete_otp_challenge-Accepted digest sha256 to_lower_case challenge_code_digest t t'
        input answer e) [
          | inl (_, no_) ↦ absurd (apart no_)
          | inr first_ ↦
              elim (complete_otp_challenge-Accepted digest sha256 to_lower_case
                challenge_code_digest t' t'' later again e') [
                  | inl refused ↦ refused
                  | inr second ↦
                      let clash = used_up t' t'' input later answer again first_ second same in
                      absurd (cc clash)
                ]
        ]
