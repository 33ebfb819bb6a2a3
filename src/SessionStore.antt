-- ===== src/SessionStore.antt =====
-- internal/store/sessions.go: the store of scs on the table of sessions. What a call does to what
-- can be found is compared with a map from tokens to values that expire.
use chzzk_djclass_chat.Base.{
  ℕ, ◌/◌, ◌≤◌, ◌≡◌, refl, sym, subst, ◌∙◌, ◌⊎◌, inl, inr, false, Option, none, some, ltb,
  if◌then◌else◌, Bool-cases,
}
use mathlib.Core.Option.{some-injective}
use chzzk_djclass_chat.Base.Text.{Text, text_eq, text_eq_iff}
use chzzk_djclass_chat.Effects.{Error, Result, ok, err}
use chzzk_djclass_chat.Env.{Env, M, query, exec, write_tx}
use chzzk_djclass_chat.Env.Laws.{exec-ok, write_tx-ok, write_tx-err}
use chzzk_djclass_chat.Store.{Tables}
use chzzk_djclass_chat.Store.Sessions.{
  find_session, commit_session, delete_session, delete_expired, find-commit_self, find-commit_other,
  find-delete_self, find-delete_other, find-delete_expired,
}

-- In nanoseconds; `julianFormat` and julianday() keep milliseconds.
abbrev pub millisecond : ℕ
millisecond = 1000000

-- `FindCtx`
unfoldable pub find_ctx : Text → M (Option Text)
find_ctx token e = query (λ t. find_session token (e.now / millisecond) t.sessions) e

-- `CommitCtx`
unfoldable pub commit_ctx : Text → Text → ℕ → M (Unit {0})
commit_ctx token b expiry = write_tx false (λ ctx. exec (λ t. some (record t {
  sessions =
      commit_session (record { token = token; content = b; expiry = expiry / millisecond })
        t.sessions;
})))

-- `DeleteCtx`
unfoldable pub delete_ctx : Text → M (Unit {0})
delete_ctx token =
    write_tx false
      (λ ctx. exec (λ t. some (record t { sessions = delete_session token t.sessions })))

-- What `Cleanup` does at each tick.
unfoldable pub clean : M (Unit {0})
clean e =
    write_tx false
      (λ ctx.
        exec (λ t. some (record t { sessions = delete_expired (e.now / millisecond) t.sessions })))
      e

-- The calls that write.
pub data Call : Type 0 where
  commits : Text → Text → ℕ → Call
  deletes : Text → Call
  cleans : Call

unfoldable pub apply : Call → M (Unit {0})
unfolding commit_ctx delete_ctx clean
apply (commits token b expiry) = commit_ctx token b expiry
apply (deletes token) = delete_ctx token
apply cleans = clean

-- What is found under a token at a time.
abbrev pub View : Type 0
View = Text → ℕ → Option Text

abbrev pub view : Tables → View
view t token now = find_session token now t.sessions

-- A session that is stored is there until it expires, one that is deleted is not, and a cleaning
-- is not seen.
abbrev pub promised : Call → View → View
promised (commits k b expiry) v token now =
    if text_eq k token
    then (if ltb now (expiry / millisecond) then some b else none)
    else v token now
promised (deletes k) v token now = if text_eq k token then none else v token now
promised cleans v token now = v token now

abbrev statement : Call → ℕ → Tables → Tables
statement (commits k b expiry) now t = record t {
  sessions =
      commit_session (record { token = k; content = b; expiry = expiry / millisecond }) t.sessions;
}
statement (deletes k) now t = record t { sessions = delete_session k t.sessions }
statement cleans now t = record t { sessions = delete_expired (now / millisecond) t.sessions }

apply_lem :
    (c : Call) (e : Env)
    → apply c e ≡ write_tx false (λ ctx. exec (λ t. some (statement c e.now t))) e
unfolding apply commit_ctx delete_ctx clean
apply_lem (commits k b expiry) e = refl
apply_lem (deletes k) e = refl
apply_lem cleans e = refl

statement-promised :
    (c : Call) (from : ℕ) (t : Tables) (token : Text) (now : ℕ)
    → from / millisecond ≤ now
    → view (statement c from t) token now ≡ promised c (view t) token now
statement-promised (commits k b expiry) from t token now h = elim (Bool-cases (text_eq k token)) [
  | inl e ↦ rw e (
      subst
        (λ q.
          find_session q now (
            commit_session (record { token = k; content = b; expiry = expiry / millisecond })
              t.sessions)
          ≡ (if ltb now (expiry / millisecond) then some b else none))
        ((text_eq_iff k token).0 e) (find-commit_self _ now t.sessions))
  | inr e ↦ rw e (find-commit_other _ token now t.sessions e)
]
statement-promised (deletes k) from t token now h = elim (Bool-cases (text_eq k token)) [
  | inl e ↦ rw e (
      subst (λ q. find_session q now (delete_session k t.sessions) ≡ none)
        ((text_eq_iff k token).0 e) (find-delete_self k now t.sessions))
  | inr e ↦ rw e (find-delete_other k token now t.sessions e)
]
statement-promised cleans from t token now h =
    find-delete_expired token (from / millisecond) now t.sessions h

-- A call that stores, deletes or cleans either succeeds, and then every session found at a time from
-- now on is the one that a map of expiring values gives after that call; or it fails, and leaves
-- the tables as they were.
pub apply-promised :
    (c : Call) (e : Env)
    → ((token : Text) (now : ℕ)
          → e.now / millisecond ≤ now
          → view (apply c e).1.tables token now ≡ promised c (view e.tables) token now)
        × ((apply c e).0 ≡ ok tt)
      ⊎ ((x : Error) × ((apply c e).0 ≡ err x) × ((apply c e).1.tables ≡ e.tables))
apply-promised c e = rw (apply_lem c e) (ends _ refl)
  where
    run : Result (Unit {0}) × Env
    run = write_tx false (λ ctx. exec (λ t. some (statement c e.now t))) e

    ends :
        (r : Result (Unit {0}))
        → run.0 ≡ r
        → ((token : Text) (now : ℕ)
              → e.now / millisecond ≤ now
              → view run.1.tables token now ≡ promised c (view e.tables) token now)
            × (run.0 ≡ ok tt)
          ⊎ ((x : Error) × (run.0 ≡ err x) × (run.1.tables ≡ e.tables))
    ends (err x) h = inr (x, h, write_tx-err (λ ctx. exec (λ t. some (statement c e.now t))) e x h)
    ends (ok u) h =
        let (g, same, ran, kept) =
          write_tx-ok (λ ctx. exec (λ t. some (statement c e.now t))) e u h in
        let stored : statement c e.now g.tables
            ≡ (exec (λ t. some (statement c e.now t)) g).1.tables =
          some-injective _ _ (exec-ok (λ t. some (statement c e.now t)) g ran) in
        inl (
          (λ token now later.
              subst (λ t. view t token now ≡ promised c (view e.tables) token now)
                (stored ∙ sym kept)
                (subst
                  (λ s. view (statement c e.now g.tables) token now ≡ promised c (view s) token now)
                  same (statement-promised c e.now g.tables token now later))),
          h,
        )
