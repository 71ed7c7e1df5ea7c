-- ===== src/Challenges/Endings.antt =====
-- What holds of the challenges after any history.
use mathlib.Core.Path.{subst}
use tabela_pubg.Prelude.{
  ℕ, ◌≤◌, ◌≡◌, refl, sym, ◌∙◌, inl, inr, String, Bool, true, false, ◌&&◌, ◌||◌, Option, none, some,
  List, [], ◌∷◌, count, All, arith, HasDistinctKeys, HasDistinctKeys-update, HasDistinctKeys-append,
  All-update_of, All-append_of, Bool-cases, find_by, find_by-update, find_by-append, eq_iff, str_eq,
  touch, same_text, count-update-ge, any-false, count-append-le, count-append, any-eq_false_iff, ap,
  ◌==◌,
}
use tabela_pubg.Challenges.{
  AuthChallengePurpose, AuthChallengeRow, challenge_key, is_open, is_open_for, is_bound, clashes,
  is_sign_in, number,
}
use tabela_pubg.Challenges.Edits.{EndsOnce, Write}
use tabela_pubg.Challenges.History.{Reach, here, next, Change, write, insert, both, step-Change}

-- At most one open challenge for an email, a purpose and a binding.
abbrev pub IsSingle : List AuthChallengeRow → Type 0
IsSingle rows =
    (email : String) (purpose : AuthChallengePurpose) (actor session : Option String)
    → count (is_open_for email purpose actor session) rows ≤ 1

pub record IsWellFormed (rows : List AuthChallengeRow) : Type 0 where
  pub distinct : HasDistinctKeys challenge_key rows
  pub ends : All EndsOnce rows
  pub single : IsSingle rows

eq_of_same_text : (a b : Option String) → same_text a b ≡ true → a ≡ b
eq_of_same_text none none e = refl
eq_of_same_text none (some t) e = absurd (cc)
eq_of_same_text (some s) none e = absurd (cc)
eq_of_same_text (some s) (some t) e = ap some ((eq_iff s t).0 e)

same_text_refl : (a : Option String) → same_text a a ≡ true
same_text_refl none = refl
same_text_refl (some s) = (eq_iff s s).1 refl

-- What an open challenge is for.
parts :
    (email : String) (purpose : AuthChallengePurpose) (actor session : Option String)
    (r : AuthChallengeRow)
    → is_open_for email purpose actor session r ≡ true
    → (r.email_digest ≡ email)
      × (number r.purpose ≡ number purpose)
      × (r.user_id ≡ actor)
      × (r.session_id ≡ session)
      × (is_open r ≡ true)
unfolding is_open_for is_bound
parts email purpose actor session r h = (
  (eq_iff r.email_digest email).0 (ground arith),
  ground arith,
  eq_of_same_text r.user_id actor (ground arith),
  eq_of_same_text r.session_id session (ground arith),
  ground arith,
)

same_number : (m n k : ℕ) → m ≡ k → n ≡ k → m == n ≡ true
same_number m n k e f = ground (arith, e, f)

-- Two open challenges for the same clash.
clash :
    (email : String) (purpose : AuthChallengePurpose) (actor session : Option String)
    (row r : AuthChallengeRow)
    → is_open_for email purpose actor session row ≡ true
    → is_open_for email purpose actor session r ≡ true
    → clashes row r ≡ true
unfolding clashes is_bound
clash email purpose actor session row r h k =
    let new = parts email purpose actor session row h in
    let old = parts email purpose actor session r k in
    all_true (str_eq r.id row.id) (is_sign_in row.purpose)
      ((eq_iff r.email_digest row.email_digest).1 (old.0 ∙ sym new.0))
      (same_number (number r.purpose) (number row.purpose) (number purpose) old.1 new.1)
      (subst (λ x. same_text r.user_id x ≡ true) (old.2 ∙ sym new.2) (same_text_refl r.user_id))
      (subst (λ x. same_text r.session_id x ≡ true) (old.3 ∙ sym new.3)
        (same_text_refl r.session_id))
      old.4
  where
    all_true :
        (a b : Bool) {c d e f g : Bool}
        → c ≡ true
        → d ≡ true
        → e ≡ true
        → f ≡ true
        → g ≡ true
        → a || (c && d && (b || (e && f)) && g) ≡ true
    all_true true b h₁ h₂ h₃ h₄ h₅ = refl
    all_true false true h₁ h₂ h₃ h₄ h₅ = rw (h₁, h₂, h₅) refl
    all_true false false h₁ h₂ h₃ h₄ h₅ = rw (h₁, h₂, h₃, h₄, h₅) refl

Change-IsWellFormed :
    {rows rows' : List AuthChallengeRow}
    → Change rows rows'
    → IsWellFormed rows
    → IsWellFormed rows'
unfolding clashes
Change-IsWellFormed (both c d) w = Change-IsWellFormed d (Change-IsWellFormed c w)
Change-IsWellFormed {rows} (write where_ set k e) w = subst IsWellFormed (sym e) (record {
  distinct = HasDistinctKeys-update challenge_key where_ set k.keeps_id rows w.distinct;
  ends = All-update_of EndsOnce where_ set rows (λ r h _. k.ends_once r (k.takes_open r h)) w.ends;
  single = λ email purpose actor session. omega (
    arith,
    count-update-ge (is_open_for email purpose actor session) where_ set rows
        (k.opens_none email purpose actor session),
    w.single email purpose actor session,
  );
})
Change-IsWellFormed {rows} (insert row free ends e) w = subst IsWellFormed (sym e) (record {
  distinct =
      HasDistinctKeys-append challenge_key rows row w.distinct
        (any-false (λ r. str_eq r.id row.id) (clashes row) rows (λ r h. ground arith) free);
  ends = All-append_of EndsOnce rows (row ∷ []) w.ends (ends, tt);
  single = λ email purpose actor session.
      elim (Bool-cases (is_open_for email purpose actor session row)) [
        | inl y ↦
            let p = is_open_for email purpose actor session in
            let absent = (any-eq_false_iff p rows).0 (
              any-false p (clashes row) rows (λ r k. clash email purpose actor session row r y k)
                free) in
            omega (arith, count-append-le p rows row, absent)
        | inr n ↦ omega (
          arith,
          count-append (is_open_for email purpose actor session) rows row n,
          w.single email purpose actor session,
        )
      ];
})

-- Over any history from a well-formed table, such as the empty one: the ids stay distinct, no
-- challenge is both superseded and consumed, and for an email, a purpose and a binding at most one
-- challenge is open.
pub challenges-IsWellFormed :
    {rows rows' : List AuthChallengeRow} → IsWellFormed rows → Reach rows rows' → IsWellFormed rows'
challenges-IsWellFormed w here = w
challenges-IsWellFormed w (next path s) =
    Change-IsWellFormed (step-Change s) (challenges-IsWellFormed w path)

untouched :
    (where_ : AuthChallengeRow → Bool) (set : AuthChallengeRow → AuthChallengeRow)
    (r : AuthChallengeRow)
    → Write where_ set
    → is_open r ≡ false
    → touch where_ set r ≡ r
untouched where_ set r w e = elim (Bool-cases (where_ r)) [
  | inl y ↦ absurd (cc (w.takes_open r y))
  | inr n ↦ rw n refl
]

no_more :
    (where_ : AuthChallengeRow → Bool) (set : AuthChallengeRow → AuthChallengeRow)
    (r : AuthChallengeRow)
    → Write where_ set
    → (touch where_ set r).attempts_remaining ≤ r.attempts_remaining
no_more where_ set r w = elim (Bool-cases (where_ r)) [
  | inl y ↦ rw y (w.attempts_le r)
  | inr n ↦ rw n (omega arith)
]

Change-ended :
    (id : String) (r : AuthChallengeRow) {rows rows' : List AuthChallengeRow}
    → Change rows rows'
    → is_open r ≡ false
    → find_by challenge_key id rows ≡ some r
    → find_by challenge_key id rows' ≡ some r
Change-ended id r (both c d) e f = Change-ended id r d e (Change-ended id r c e f)
Change-ended id r {rows} (write where_ set k e) ended f =
    rw (e, find_by-update challenge_key where_ set k.keeps_id id rows, f)
      (ap some (untouched where_ set r k ended))
Change-ended id r {rows} (insert row free ends e) ended f =
    rw (e, find_by-append challenge_key id rows (row ∷ []) (λ n. cc)) f

-- A challenge that is consumed or superseded stays in the table as it is, whatever follows: a code
-- is used at most once.
pub challenges-ended :
    (id : String) (r : AuthChallengeRow) {rows rows' : List AuthChallengeRow}
    → Reach rows rows'
    → is_open r ≡ false
    → find_by challenge_key id rows ≡ some r
    → find_by challenge_key id rows' ≡ some r
challenges-ended id r here ended f = f
challenges-ended id r (next path s) ended f =
    Change-ended id r (step-Change s) ended (challenges-ended id r path ended f)

-- The challenge is there, with at most so many attempts.
abbrev pub HasAtMost : String → ℕ → List AuthChallengeRow → Type 0
HasAtMost id n rows =
    (s : AuthChallengeRow) × (find_by challenge_key id rows ≡ some s) × (s.attempts_remaining ≤ n)

Change-HasAtMost :
    (id : String) (n : ℕ) {rows rows' : List AuthChallengeRow}
    → Change rows rows'
    → HasAtMost id n rows
    → HasAtMost id n rows'
Change-HasAtMost id n (both c d) h = Change-HasAtMost id n d (Change-HasAtMost id n c h)
Change-HasAtMost id n {rows} (write where_ set k e) (s, f, le) = (
  touch where_ set s,
  rw (e, find_by-update challenge_key where_ set k.keeps_id id rows, f) refl,
  omega (arith, no_more where_ set s k, le),
)
Change-HasAtMost id n {rows} (insert row free ends e) (s, f, le) =
    (s, rw (e, find_by-append challenge_key id rows (row ∷ []) (λ m. cc)) f, le)

-- No operation gives an attempt back: a challenge stays in the table with at most the attempts it
-- has had.
pub challenges-HasAtMost :
    (id : String) (n : ℕ) {rows rows' : List AuthChallengeRow}
    → Reach rows rows'
    → HasAtMost id n rows
    → HasAtMost id n rows'
challenges-HasAtMost id n here h = h
challenges-HasAtMost id n (next path s) h =
    Change-HasAtMost id n (step-Change s) (challenges-HasAtMost id n path h)
