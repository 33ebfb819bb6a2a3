-- ===== src/Web/Front/Origins.antt =====
-- What the check of the origin and the methods of the patterns in internal/web/web.go leave to a
-- request.
use chzzk_djclass_chat.Base.{
  ◌≡◌, refl, ap, ◌∙◌, subst, ◌⊎◌, inl, inr, Bool, true, false, Option, none, some, List, [], ◌∷◌,
  ◌++◌, map, All, All-append, Bool-cases, Option-cases,
}
use chzzk_djclass_chat.Base.Maps.{lookup}
use chzzk_djclass_chat.Base.Text.{Text, text, text_eq, text_eq_iff, has_prefix}
use chzzk_djclass_chat.Env.Laws.{ReadsOnly, ReadsOnly-refl}
use chzzk_djclass_chat.Web.Front.{
  Target, patterns, page_patterns, slash_patterns, slash_paths, open_patterns, dev_patterns,
  account_answer, dev_form_answer, Http, Arrival, World, Answer, cross_origin, answer_of,
  dispatched, found, mux, front,
}
use chzzk_djclass_chat.Web.Front.Reads.{
  IsReader, LeavesHub, landing-IsReader, login_form-IsReader, login_start-IsReader, logout-IsReader,
  dashboard-IsReader, link_card-IsReader, dev_form-IsReader, widget_events-IsReader,
  health-IsReader,
}
use chzzk_djclass_chat.Web.Sites.{Server}

abbrev pub post : Text
post = text "POST "

abbrev pub callback_pattern : Text
callback_pattern = text "GET /api/auth/chzzk/callback"

abbrev pub stream_pattern : Text
stream_pattern = text "GET /widget/{channelID}/stream"

-- What a map has at a key, one of its entries has.
lookup-All :
    {A : Type 0} (P : Text × A → Type 0) (k : Text) (m : List (Text × A)) (a : A)
    → All P m
    → lookup k m ≡ some a
    → P (k, a)
unfolding lookup
lookup-All P k [] a h e = cc
lookup-All {A = A} P k ((j, b) ∷ m) a h e = elim (Bool-cases (text_eq j k)) [
  | inl s ↦
      subst (λ x. P (k, x)) (same b a (rw s at e))
        (subst (λ q. P (q, b)) ((text_eq_iff j k).0 s) h.0)
  | inr s ↦ lookup-All P k m a h.1 (rw s at e)
]
  where
    same : (x y : A) → some x ≡ some y → x ≡ y
    same x y f = cc

module _ {S : Type 0} (http : Http S) (srv : Server S) where
  -- Why the tables may change, or do not.
  pub data TableCase (p : Text) (t : Target) : Type 0 where
    reads : IsReader http srv t → TableCase p t
    logs_in : p ≡ callback_pattern → TableCase p t
    posts : has_prefix p post ≡ true → TableCase p t

  -- Why the hub may change, or does not.
  pub data HubCase (dev : Bool) (p : Text) (t : Target) : Type 0 where
    calm : LeavesHub http srv t → HubCase dev p t
    streams : p ≡ stream_pattern → HubCase dev p t
    injects : dev ≡ true → has_prefix p post ≡ true → HubCase dev p t

  abbrev Allowed : Bool → Text × Target → Type 0
  Allowed dev p = TableCase p.0 p.1 × HubCase dev p.0 p.1

  steady :
      (dev : Bool) (p : Text) (t : Target)
      → IsReader http srv t
      → LeavesHub http srv t
      → Allowed dev (p, t)
  steady dev p t r l = (reads r, calm l)

  page-Allowed : (dev : Bool) → All (Allowed dev) page_patterns
  unfolding answer_of account_answer has_prefix
  page-Allowed dev = (
    steady dev _ _ (landing-IsReader http srv) (λ a w. refl),
    (
      steady dev _ _ (login_form-IsReader http srv) (λ a w. refl),
      (
        steady dev _ _ (login_start-IsReader http srv) (λ a w. refl),
        (
          (logs_in refl, calm (λ a w. refl)),
          (
            steady dev _ _ (logout-IsReader http srv) (λ a w. refl),
            (
              steady dev _ _ (dashboard-IsReader http srv) (λ a w. refl),
              (
                steady dev _ _ (link_card-IsReader http srv) (λ a w. refl),
                (
                  (posts refl, calm (λ a w. refl)),
                  (
                    (posts refl, calm (λ a w. refl)),
                    ((posts refl, calm (λ a w. refl)), ((posts refl, calm (λ a w. refl)), tt)),
                  ),
                ),
              ),
            ),
          ),
        ),
      ),
    ),
  )

  still :
      (dev : Bool) (p : Text) (t : Target)
      → ((a : Arrival S) (w : World) → (answer_of http srv t a w).1 ≡ w)
      → Allowed dev (p, t)
  still dev p t h =
      (reads (λ a w. rw (h a w) (ReadsOnly-refl w.env)), calm (λ a w. ap (λ v. v.hub) (h a w)))

  slash-Allowed : (dev : Bool) (ps : List Text) → All (Allowed dev) (slash_patterns ps)
  unfolding answer_of
  slash-Allowed dev [] = tt
  slash-Allowed dev (p ∷ ps) = (still dev _ _ (λ a w. refl), slash-Allowed dev ps)

  open-Allowed : (dev : Bool) → All (Allowed dev) open_patterns
  unfolding answer_of
  open-Allowed dev = (
    still dev _ _ (λ a w. refl),
    (
      still dev _ _ (λ a w. refl),
      (
        (reads (widget_events-IsReader http srv), streams refl),
        (
          still dev _ _ (λ a w. refl),
          (steady dev _ _ (health-IsReader http srv) (λ a w. refl), tt),
        ),
      ),
    ),
  )

  dev-Allowed : (dev : Bool) → All (Allowed dev) (dev_patterns dev)
  unfolding answer_of dev_form_answer has_prefix
  dev-Allowed true = (
    steady true _ _ (dev_form-IsReader http srv) (λ a w. refl),
    ((posts refl, injects refl refl), tt),
  )
  dev-Allowed false = tt

  patterns-Allowed : (dev : Bool) → All (Allowed dev) (patterns dev)
  patterns-Allowed dev =
      All-append (Allowed dev) page_patterns
        (slash_patterns slash_paths ++ open_patterns ++ dev_patterns dev) (page-Allowed dev)
        (All-append (Allowed dev) (slash_patterns slash_paths) (open_patterns ++ dev_patterns dev)
          (slash-Allowed dev slash_paths)
          (All-append (Allowed dev) open_patterns (dev_patterns dev) (open-Allowed dev)
            (dev-Allowed dev)))

  abbrev pub Posted : Arrival S → Type 0
  Posted a = (a.method ≡ text "POST") × (http.is_cross_origin a ≡ false)

  abbrev pub matched : Bool → Arrival S → Option Text
  matched dev a = http.matches (map (λ p. p.0) (patterns dev)) a

  -- A request that the check refuses changes nothing. Of the others only a login or a POST changes a
  -- table or a cached badge, and only a stream, or a POST in development, the hub.
  pub record IsGuarded (dev : Bool) (a : Arrival S) (w : World) (r : Answer × World) : Type 0 where
    pub refused : http.is_cross_origin a ≡ true → r ≡ (cross_origin, w)
    pub tables : ReadsOnly w.env r.1.env ⊎ ((matched dev a ≡ some callback_pattern) ⊎ Posted a)
    pub chats :
        (r.1.hub ≡ w.hub) ⊎ ((matched dev a ≡ some stream_pattern) ⊎ ((dev ≡ true) × Posted a))

  unmoved :
      (dev : Bool) (a : Arrival S) (w : World) (x : Answer)
      → http.is_cross_origin a ≡ false
      → IsGuarded dev a w (x, w)
  unmoved dev a w x c = record {
    refused = λ h. cc;
    tables = inl (ReadsOnly-refl w.env);
    chats = inl refl;
  }

  module _
      (posting : (ps : List Text) (p : Text) (a : Arrival S)
        → http.matches ps a ≡ some p
        → has_prefix p post ≡ true
        → a.method ≡ text "POST") where
    Allowed-IsGuarded :
        (dev : Bool) (a : Arrival S) (w : World) (p : Text) (t : Target)
        → http.is_cross_origin a ≡ false
        → matched dev a ≡ some p
        → Allowed dev (p, t)
        → IsGuarded dev a w (answer_of http srv t a w)
    Allowed-IsGuarded dev a w p t c m (tables, hub) = record {
      refused = λ h. cc;
      tables = elim tables [
        | reads r ↦ inl (r a w)
        | logs_in e ↦ inr (inl (m ∙ ap some e))
        | posts e ↦ inr (inr (posting _ p a m e, c))
      ];
      chats = elim hub [
        | calm l ↦ inl (l a w)
        | streams e ↦ inr (inl (m ∙ ap some e))
        | injects d e ↦ inr (inr (d, (posting _ p a m e, c)))
      ];
    }

    found-IsGuarded :
        (dev : Bool) (a : Arrival S) (w : World) (o : Option Text)
        → http.is_cross_origin a ≡ false
        → matched dev a ≡ o
        → IsGuarded dev a w (dispatched http srv (found http srv o dev) a w)
    unfolding found dispatched
    found-IsGuarded dev a w none c m = unmoved dev a w _ c
    found-IsGuarded dev a w (some p) c m = elim (Option-cases (lookup p (patterns dev))) [
      | inl n ↦ rw (n, dispatched) (unmoved dev a w _ c)
      | inr (t, n) ↦
          rw (n, dispatched)
            (Allowed-IsGuarded dev a w p t c m
              (lookup-All (Allowed dev) p (patterns dev) t (patterns-Allowed dev) n))
    ]

    -- With a mux that gives a pattern for POST to requests of that method only: a request that the
    -- check of the origin refuses gets an error and changes nothing. Of the others only the login
    -- callback and a POST may change a table or a cached badge, and only the stream of a widget, or
    -- in development mode a POST, the hub.
    pub front-IsGuarded :
        (dev : Bool) (a : Arrival S) (w : World) → IsGuarded dev a w (front http srv dev a w)
    unfolding front mux
    front-IsGuarded dev a w = elim (Bool-cases (http.is_cross_origin a)) [
      | inl c ↦
          rw (c, front)
            (record { refused = λ h. refl; tables = inl (ReadsOnly-refl w.env); chats = inl refl })
      | inr c ↦ rw (c, front) (found-IsGuarded dev a w (matched dev a) c refl)
    ]
