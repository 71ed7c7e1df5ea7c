-- ===== src/Sessions/Lifetimes.antt =====
-- What holds of the sessions after any history.
use mathlib.Core.Path.{subst}
use tabela_pubg.Prelude.{
  ℕ, ◌≤◌, ◌≡◌, refl, sym, String, false, some, List, [], ◌∷◌, All, find_by, HasDistinctKeys,
  HasDistinctKeys-update, All-update_of, All-append_of, find_by-update, find_by-append, touch,
}
use tabela_pubg.Sessions.{SessionRow, session_id, is_live}
use tabela_pubg.Sessions.Rows.{IsSound, is_live_later, Write-ended}
use tabela_pubg.Sessions.History.{
  Reach, here, next, IsWellFormed, All-later, Change, insert, write, step-Change,
}

module _ (digest : String → String) where
  Change-IsWellFormed :
      {t now : ℕ} {rows rows' : List SessionRow}
      → t ≤ now
      → IsWellFormed t rows
      → Change now rows rows'
      → IsWellFormed now rows'
  Change-IsWellFormed {rows = rows} h w (insert row e s i d) = record {
    ids = i;
    tokens = d;
    sound =
        subst (All (IsSound _)) (sym e)
          (All-append_of (IsSound _) rows (row ∷ []) (All-later rows h w.sound) (s, tt));
  }
  Change-IsWellFormed {rows = rows} h w (write where_ set e k d) = record {
    ids =
        subst (HasDistinctKeys session_id) (sym e)
          (HasDistinctKeys-update session_id where_ set k.keeps_id rows w.ids);
    tokens = d;
    sound =
        subst (All (IsSound _)) (sym e)
          (All-update_of (IsSound _) where_ set rows k.sound (All-later rows h w.sound));
  }

  -- Over any history from a well-formed table, such as the empty one, the ids and the token digests
  -- stay distinct, no session is seen before its issue or in the future, none stays idle beyond its
  -- absolute expiry or lives beyond the 90 days (15 minutes while provisional) from its issue, and
  -- exactly the revoked sessions have a reason.
  pub sessions-IsWellFormed :
      {t : ℕ} {rows : List SessionRow} {u : ℕ} {rows' : List SessionRow}
      → IsWellFormed t rows
      → Reach digest t rows u rows'
      → IsWellFormed u rows'
  sessions-IsWellFormed w here = w
  sessions-IsWellFormed w (next now path h s) =
      let w' = sessions-IsWellFormed w path in
      Change-IsWellFormed h w' (step-Change digest s w'.ids w'.tokens)

  -- The session is in the table, and has ended at the time.
  abbrev pub HasEnded : ℕ → String → List SessionRow → Type 0
  HasEnded t id rows =
      (r : SessionRow) × (find_by session_id id rows ≡ some r) × (is_live t r ≡ false)

  Change-HasEnded :
      {t now : ℕ} {rows rows' : List SessionRow} (id : String)
      → t ≤ now
      → Change now rows rows'
      → HasEnded t id rows
      → HasEnded now id rows'
  Change-HasEnded {t} {now} {rows} id h (insert row e s i d) (r, found, ended) = (
    r,
    rw (e, find_by-append session_id id rows (row ∷ []) (λ n. cc)) found,
    is_live_later t now r h ended,
  )
  Change-HasEnded {t} {now} {rows} id h (write where_ set e k d) (r, found, ended) = (
    touch where_ set r,
    rw (e, find_by-update session_id where_ set k.keeps_id id rows, found) refl,
    Write-ended r k (is_live_later t now r h ended),
  )

  -- A session that is revoked or past one of its expiries never becomes live again, whatever
  -- operations follow at later times. From a well-formed table.
  pub sessions-HasEnded :
      {t : ℕ} {rows : List SessionRow} {u : ℕ} {rows' : List SessionRow} (id : String)
      → IsWellFormed t rows
      → Reach digest t rows u rows'
      → HasEnded t id rows
      → HasEnded u id rows'
  sessions-HasEnded id w here e = e
  sessions-HasEnded id w (next now path h s) e =
      let w' = sessions-IsWellFormed w path in
      Change-HasEnded id h (step-Change digest s w'.ids w'.tokens) (sessions-HasEnded id w path e)
