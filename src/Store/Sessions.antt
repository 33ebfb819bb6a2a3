-- ===== src/Store/Sessions.antt =====
-- The statements on the table of sessions in internal/store/db/queries.sql.go. A time is a number of
-- milliseconds.
use chzzk_djclass_chat.Base.{
  ℕ, ◌≤◌, ◌≡◌, refl, false, Option, inl, inr, Option-cases, none, some, List, [], ◌∷◌, ◌++◌, ◌&&◌,
  ltb, if◌then◌else◌, arith,
}
use chzzk_djclass_chat.Base.Text.{Text, text_eq, text_eq_iff, text_eq_refl}
use chzzk_djclass_chat.Store.{SessionRow}

-- `FindSession`
unfoldable pub find_session : Text → ℕ → List SessionRow → Option Text
find_session token now [] = none
find_session token now (s ∷ rows) =
    if text_eq s.token token && ltb now s.expiry
    then some s.content
    else find_session token now rows

-- `DeleteSession`
unfoldable pub delete_session : Text → List SessionRow → List SessionRow
delete_session token [] = []
delete_session token (s ∷ rows) =
    let rest = delete_session token rows in if text_eq s.token token then rest else s ∷ rest

-- `CommitSession`: REPLACE removes the row with the primary key and inserts the new one.
unfoldable pub commit_session : SessionRow → List SessionRow → List SessionRow
unfolding delete_session
commit_session s rows = delete_session s.token rows ++ s ∷ []

-- `DeleteExpiredSessions`
unfoldable pub delete_expired : ℕ → List SessionRow → List SessionRow
delete_expired now [] = []
delete_expired now (s ∷ rows) =
    let rest = delete_expired now rows in if ltb s.expiry now then rest else s ∷ rest

pub find-delete_self :
    (token : Text) (now : ℕ) (rows : List SessionRow)
    → find_session token now (delete_session token rows) ≡ none
unfolding find_session delete_session
find-delete_self token now [] = refl
find-delete_self token now (s ∷ rows) = ground (arith, find-delete_self token now rows)

pub find-delete_other :
    (token other : Text) (now : ℕ) (rows : List SessionRow)
    → text_eq token other ≡ false
    → find_session other now (delete_session token rows) ≡ find_session other now rows
unfolding find_session delete_session
find-delete_other token other now [] h = refl
find-delete_other token other now (s ∷ rows) h = ground (
  arith,
  text_eq_iff s.token token,
  text_eq_iff s.token other,
  text_eq_iff token other,
  find-delete_other token other now rows h,
)

find-append :
    (token : Text) (now : ℕ) (s : SessionRow) (rows : List SessionRow)
    → find_session token now (rows ++ s ∷ []) ≡ (elim (find_session token now rows) [
      | none ↦ if text_eq s.token token && ltb now s.expiry then some s.content else none
      | some b ↦ some b
    ])
unfolding find_session
find-append token now s [] = refl
find-append token now s (r ∷ rows) = ground (arith, find-append token now s rows)

-- A session that is committed is found until it expires.
pub find-commit_self :
    (s : SessionRow) (now : ℕ) (rows : List SessionRow)
    → find_session s.token now (commit_session s rows)
      ≡ (if ltb now s.expiry then some s.content else none)
unfolding commit_session
find-commit_self s now rows =
    rw (find-append s.token now s (delete_session s.token rows))
      (rw (find-delete_self s.token now rows) (rw (text_eq_refl s.token) refl))

-- No other session sees it.
pub find-commit_other :
    (s : SessionRow) (other : Text) (now : ℕ) (rows : List SessionRow)
    → text_eq s.token other ≡ false
    → find_session other now (commit_session s rows) ≡ find_session other now rows
unfolding commit_session
find-commit_other s other now rows h = rw (find-append other now s (delete_session s.token rows)) (
    rw (find-delete_other s.token other now rows h)
      (elim (Option-cases (find_session other now rows)) [
        | inl e ↦ rw (e, h) refl
        | inr (b, e) ↦ rw e refl
      ]))

-- Nothing that can still be found is deleted as expired.
pub find-delete_expired :
    (token : Text) (now later : ℕ) (rows : List SessionRow)
    → now ≤ later
    → find_session token later (delete_expired now rows) ≡ find_session token later rows
unfolding find_session delete_expired
find-delete_expired token now later [] h = refl
find-delete_expired token now later (s ∷ rows) h =
    ground (arith, find-delete_expired token now later rows h)
