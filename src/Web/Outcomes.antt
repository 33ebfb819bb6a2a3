-- ===== src/Web/Outcomes.antt =====
-- How the login of internal/web/auth.go ends, and who reaches the pages of a user.
use chzzk_djclass_chat.Base.{
  ℕ, ◌≡◌, refl, ap, ◌∙◌, sym, subst, ◌⊎◌, inl, inr, Bool, true, false, Option, none, some, arith,
  Bool-cases, Option-cases,
}
use chzzk_djclass_chat.Base.Text.{Text, text, text_eq_iff}
use chzzk_djclass_chat.Effects.{Result, ok, err}
use chzzk_djclass_chat.Env.{Env}
use chzzk_djclass_chat.Ratelimit.{allow}
use chzzk_djclass_chat.Store.{User}
use chzzk_djclass_chat.Tokens.{Token}
use chzzk_djclass_chat.Web.Accounts.{session_user_id}
use chzzk_djclass_chat.Web.Login.{
  is_mismatch, state_cookie, next_of, next_cookie, auth_failed, token_row, save, renewed, saved,
  identified, exchanged, check_state, callback,
}
use chzzk_djclass_chat.Web.Sites.{
  SessionManager, Me, Server, Request, Site, Reply, redirect, problem, limited, minute,
  msg_too_many,
}
use chzzk_djclass_chat.Web.Stored.{IsStored, save-IsStored}

-- What the code relies on of scs: a value that is put is read back, and renewing the token of a
-- session, whether that works or not, leaves its values.
pub record IsManager {S : Type 0} (m : SessionManager S) : Type 0 where
  pub get-put : (k : Text) (n : ℕ) (s : S) → m.get_int k (m.put k n s) ≡ n
  pub get-renew : (k : Text) (s : S) → m.get_int k (m.renew_token s).1 ≡ m.get_int k s

module _ {S : Type 0} (srv : Server S) where
  -- The user of a session.
  abbrev pub user_of : S → ℕ
  user_of = srv.sessions.get_int session_user_id

  -- The browser that comes back has the state of the query in its cookie; Chzzk has given a token
  -- for the code and said whose it is; and that user and channel are stored, and in the session.
  pub record IsLoggedIn (r : Request) (now : ℕ) (x : Reply × Site S) : Type 0 where
    pub token : Token
    pub me : Me
    pub user : User
    pub state_held : r.cookie state_cookie ≡ some (r.query (text "state"))
    pub exchanged : srv.exchange_code (r.query (text "code")) (r.query (text "state")) ≡ some token
    pub known : srv.me token.access_token ≡ some me
    pub stored : IsStored me (token_row srv r now token) user x.1.env.tables
    pub in_session : user_of x.1.session ≡ user.id
    pub sent : x.0 ≡ redirect 302 (next_of (r.cookie next_cookie))

  -- Turned away, with the user of the session as before.
  abbrev pub IsRefused : S → Reply × Site S → Type 0
  IsRefused k x =
      ((x.0 ≡ auth_failed) ⊎ (x.0 ≡ problem 429 msg_too_many)) × (user_of x.1.session ≡ user_of k)

  matched :
      (o : Option Text) (code state : Text) → is_mismatch o code state ≡ false → o ≡ some state
  unfolding is_mismatch
  matched none code state h = cc
  matched (some c) code state h = ground (arith, text_eq_iff c state)

  module _ (m : IsManager srv.sessions) (r : Request) where
    abbrev next : Text
    next = next_of (r.cookie next_cookie)

    renewed-outcome :
        (u : User) (k : Bool × S) (s : Site S)
        → user_of k.1 ≡ user_of s.session
        → ((renewed srv next u k s).0 ≡ redirect 302 next)
            × (user_of (renewed srv next u k s).1.session ≡ u.id)
            × ((renewed srv next u k s).1.env ≡ s.env)
          ⊎ IsRefused s.session (renewed srv next u k s)
    unfolding renewed
    renewed-outcome u (true, k) s h = inl (refl, m.get-put session_user_id u.id k, refl)
    renewed-outcome u (false, k) s h = inr (inl refl, h)

    saved-outcome :
        (tok : Token) (me : Me) (s t : Site S) (res : Result User)
        → r.cookie state_cookie ≡ some (r.query (text "state"))
        → srv.exchange_code (r.query (text "code")) (r.query (text "state")) ≡ some tok
        → srv.me tok.access_token ≡ some me
        → t.session ≡ s.session
        → ((u : User) → res ≡ ok u → IsStored me (token_row srv r s.env.now tok) u t.env.tables)
        → IsLoggedIn r s.env.now (saved srv next res t) ⊎ IsRefused s.session (saved srv next res t)
    unfolding saved
    saved-outcome tok me s t (err x) held given known same stored = inr (inl refl, ap user_of same)
    saved-outcome tok me s t (ok u) held given known same stored =
        let k = srv.sessions.renew_token t.session in
        elim (renewed-outcome u k t (m.get-renew session_user_id t.session)) [
          | inr (reply, kept) ↦ inr (reply, kept ∙ ap user_of same)
          | inl (sent, inside, env) ↦ inl (record {
            token = tok;
            me = me;
            user = u;
            state_held = held;
            exchanged = given;
            known = known;
            stored =
                subst (λ (e : Env). IsStored me (token_row srv r s.env.now tok) u e.tables)
                  (sym env) (stored u refl);
            in_session = inside;
            sent = sent;
          })
        ]

    exchanged-outcome :
        (s : Site S) (o : Option Token)
        → r.cookie state_cookie ≡ some (r.query (text "state"))
        → srv.exchange_code (r.query (text "code")) (r.query (text "state")) ≡ o
        → IsLoggedIn r s.env.now (exchanged srv r next o s)
          ⊎ IsRefused s.session (exchanged srv r next o s)
    unfolding exchanged identified
    exchanged-outcome s none held given = inr (inl refl, refl)
    exchanged-outcome s (some tok) held given = elim (Option-cases (srv.me tok.access_token)) [
      | inl e ↦ rw (e, identified) (inr (inl refl, refl))
      | inr (me, e) ↦
          let row = token_row srv r s.env.now tok in
          let a = save srv me row s.env in
          rw (e, identified)
            (saved-outcome tok me s (record s { env = a.1 }) a.0 held given e refl
              (save-IsStored srv me row s.env))
    ]

    check_state-outcome :
        (s : Site S)
        → IsLoggedIn r s.env.now (check_state srv r s) ⊎ IsRefused s.session (check_state srv r s)
    unfolding check_state
    check_state-outcome s =
        let code = r.query (text "code") in
        let state = r.query (text "state") in
        elim (Bool-cases (is_mismatch (r.cookie state_cookie) code state)) [
          | inl e ↦ rw (e, check_state) (inr (inl refl, refl))
          | inr e ↦
              rw (e, check_state)
                (exchanged-outcome (record s { cookies = _ }) (srv.exchange_code code state)
                  (matched (r.cookie state_cookie) code state e) refl)
        ]

    -- With a session manager that reads back what it is given: the login callback either logs the
    -- visitor in, which needs the state in the browser's cookie to be the one of the query and
    -- a token and a user from Chzzk, stores the user and the channel with the encrypted tokens,
    -- and redirects to the page asked for with that user in the session; or it turns the visitor
    -- away, with an error and the user of the session as before.
    pub callback-outcome :
        (s : Site S)
        → IsLoggedIn r s.env.now (callback srv r s) ⊎ IsRefused s.session (callback srv r s)
    unfolding callback
    callback-outcome s =
        elim (Bool-cases (allow s.limiter s.env.now r.client (text "auth") 10 minute).1) [
          | inl e ↦ rw (e, callback, limited) (check_state-outcome (record s { limiter = _ }))
          | inr e ↦ rw (e, callback, limited) (inr (inr refl, refl))
        ]
