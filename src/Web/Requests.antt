-- ===== src/Web/Requests.antt =====
-- The login and the current user of internal/web keep the constraints of Store/Consistent and
-- Store/Lawful and the badge cache coherent.
use chzzk_djclass_chat.Base.{
  ◌≡◌, refl, ap, ◌∙◌, inl, inr, Bool, true, false, Option, none, some, Bool-cases, Option-cases,
  ◌==◌,
}
use chzzk_djclass_chat.Base.Text.{Text, text}
use chzzk_djclass_chat.Effects.{Result, ok, err}
use chzzk_djclass_chat.Env.{Env, M, continue, exec, exec_row, step_fault, next_fault}
use chzzk_djclass_chat.Env.Laws.{query-Reads, write_tx-keeps}
use chzzk_djclass_chat.Resolver.Logins.{
  Unseen, Unseen-refl, Unseen-trans, upsert_user-Unseen, upsert_channel-Unseen,
}
use chzzk_djclass_chat.Store.{User, ChannelRow, Tables, user_by_id}
use chzzk_djclass_chat.Store.Accounts.{upsert_user, upsert_channel}
use chzzk_djclass_chat.Tokens.{Token}
use chzzk_djclass_chat.Web.Accounts.{loaded, with_user, session_user_id}
use chzzk_djclass_chat.Web.Keeps.{
  Good, found-Known, Unseen-Good, same-Good, Keeps, KeepsFor, limited-Keeps, call-Keeps,
}
use chzzk_djclass_chat.Web.Login.{
  save_rows, save, renewed, saved, identified, exchanged, check_state, callback, is_mismatch,
  state_cookie, next_of, next_cookie, token_row,
}
use chzzk_djclass_chat.Web.Sites.{Me, Server, Request, Handler, problem, msg_too_many}

-- A statement of a login leaves the cache, and no badge sees what it changes.
abbrev IsUnseen : {A : Type 0} → Env → Result A × Env → Type 0
IsUnseen e r = (r.1.cache ≡ e.cache) × Unseen e.tables r.1.tables

exec_row-IsUnseen :
    {A : Type 0} (q : Tables → A × Tables) (e : Env)
    → ((t : Tables) → Unseen t (q t).1)
    → IsUnseen e (exec_row q e)
unfolding exec_row step_fault
exec_row-IsUnseen q e h = elim (Bool-cases (next_fault e.faults).0) [
  | inl f ↦ rw f (refl, Unseen-refl e.tables)
  | inr f ↦ rw f (refl, h e.tables)
]

exec-IsUnseen :
    (q : Tables → Option Tables) (e : Env)
    → ((t u : Tables) → q t ≡ some u → Unseen t u)
    → IsUnseen e (exec q e)
unfolding exec step_fault
exec-IsUnseen q e h = elim (Bool-cases (next_fault e.faults).0) [
  | inl f ↦ rw f (refl, Unseen-refl e.tables)
  | inr f ↦ rw f (elim (Option-cases (q e.tables)) [
    | inl n ↦ rw (n, exec) (refl, Unseen-refl e.tables)
    | inr (u, n) ↦ rw (n, exec) (refl, h e.tables u n)
  ])
]

continue-IsUnseen :
    {A B : Type 0} (e : Env) (r : Result A × Env) (f : A → M B)
    → IsUnseen e r
    → ((a : A) (g : Env) → IsUnseen g (f a g))
    → IsUnseen e (continue r.0 f r.1)
continue-IsUnseen e (ok a, g) f h k =
    let (c, u) = k a g in (c ∙ h.0, Unseen-trans e.tables g.tables _ h.1 u)
continue-IsUnseen e (err x, g) f h k = h

module _ {S : Type 0} (srv : Server S) where
  save_rows-IsUnseen : (me : Me) (row : ChannelRow) (e : Env) → IsUnseen e (save_rows srv me row e)
  unfolding save_rows
  save_rows-IsUnseen me row e =
      continue-IsUnseen e (exec_row (upsert_user me.channel_id me.nickname) e) _
        (exec_row-IsUnseen (upsert_user me.channel_id me.nickname) e
          (upsert_user-Unseen me.channel_id me.nickname))
        λ u g.
          continue-IsUnseen g (exec (upsert_channel _) g) _
            (exec-IsUnseen (upsert_channel _) g (upsert_channel-Unseen _))
            λ a h. (refl, Unseen-refl h.tables)

  save-Good : (me : Me) (row : ChannelRow) (e : Env) → Good e → Good (save srv me row e).1
  unfolding save
  save-Good me row e h =
      let (same, unseen) =
        write_tx-keeps Unseen (λ ctx. save_rows srv me row) e Unseen-refl
          (save_rows-IsUnseen me row) in
      Unseen-Good e _ h same unseen

  renewed-Keeps : (next : Text) (u : User) (r : Bool × S) → Keeps (renewed srv next u r)
  unfolding renewed
  renewed-Keeps next u (true, k) s g = g
  renewed-Keeps next u (false, k) s g = g

  saved-Keeps : (next : Text) (r : Result User) → Keeps (saved srv next r)
  unfolding saved
  saved-Keeps next (ok u) s g = renewed-Keeps next u _ s g
  saved-Keeps next (err x) s g = g

  exchanged-Keeps : (r : Request) (next : Text) (o : Option Token) → Keeps (exchanged srv r next o)
  unfolding exchanged identified
  exchanged-Keeps r next none s g = g
  exchanged-Keeps r next (some tok) s g = elim (Option-cases (srv.me tok.access_token)) [
    | inl n ↦ rw (n, identified) g
    | inr (me, n) ↦
        rw (n, identified)
          (call-Keeps (save srv me (token_row srv r s.env.now tok)) (saved srv next)
            (save-Good me (token_row srv r s.env.now tok)) (saved-Keeps next) s g)
  ]

  check_state-Keeps : (r : Request) → Keeps (check_state srv r)
  unfolding check_state
  check_state-Keeps r s g =
      elim (Bool-cases
        (is_mismatch (r.cookie state_cookie) (r.query (text "code")) (r.query (text "state")))) [
          | inl m ↦ rw (m, check_state) g
          | inr m ↦
              rw (m, check_state)
                (exchanged-Keeps r (next_of (r.cookie next_cookie)) (srv.exchange_code _ _) _ g)
        ]

  pub callback-Keeps : (r : Request) → Keeps (callback srv r)
  unfolding callback
  callback-Keeps r =
      limited-Keeps r (text "auth") 10 (λ s. (problem 429 msg_too_many, s)) (check_state srv r)
        (λ s g. g) (check_state-Keeps r)

  -- A handler that keeps the state sound for no user and for a user in the tables keeps it for
  -- the user of the session.
  pub with_user-Keeps :
      (h : Option User → Handler S)
      → Keeps (h none)
      → ((u : User) → KeepsFor u (h (some u)))
      → Keeps (with_user srv h)
  unfolding with_user loaded
  with_user-Keeps h a b s g =
      let id = srv.sessions.get_int session_user_id s.session in
      let q = λ (t : Tables). user_by_id id t.users in
      let (cases, same) = query-Reads q s.env in
      let after = same-Good s.env _ g same in
      elim (Bool-cases (id == 0)) [
        | inl z ↦ rw (z, with_user) (a s g)
        | inr z ↦
            rw (z, with_user)
              (elim cases [
                | inr e ↦ rw (e, loaded) after
                | inl e ↦ elim (Option-cases (q s.env.tables)) [
                  | inl n ↦ rw (e ∙ ap ok n, loaded) (a _ after)
                  | inr (u, n) ↦
                      rw (e ∙ ap ok n, loaded)
                        (b u _ after
                          (found-Known id _ u after.consistent (rw (same.tables_same) n)))
                ]
              ])
      ]
