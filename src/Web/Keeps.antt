-- ===== src/Web/Keeps.antt =====
-- What a handler of internal/web keeps: the constraints of Store/Consistent and Store/Lawful, and
-- a badge cache that is coherent with the tables.
use chzzk_djclass_chat.Base.{ℕ, ◌≡◌, sym, ◌∙◌, subst, inl, inr, some, All, All-map, Bool-cases}
use chzzk_djclass_chat.Base.Text.{Text}
use chzzk_djclass_chat.Effects.{Result}
use chzzk_djclass_chat.Env.{Env, M}
use chzzk_djclass_chat.Env.Laws.{ReadsOnly}
use chzzk_djclass_chat.Link.Commits.{Only}
use chzzk_djclass_chat.Link.Lawful.{IsLawful}
use chzzk_djclass_chat.Link.Safety.{Owns}
use chzzk_djclass_chat.Ratelimit.{allow}
use chzzk_djclass_chat.Resolver.Coherence.{Agrees, Coherent, Coherent-same}
use chzzk_djclass_chat.Resolver.Logins.{Unseen}
use chzzk_djclass_chat.Store.{User, Tables, user_by_id}
use chzzk_djclass_chat.Store.Consistent.{Consistent, NoId, found-apart, found-exists}
use chzzk_djclass_chat.Store.Frames.{idents}
use chzzk_djclass_chat.Store.Lawful.{Lawful}
use chzzk_djclass_chat.TtlCache.Views.{entries}
use chzzk_djclass_chat.Web.Sites.{Request, Site, Handler, call, limited, minute}

pub record Good (e : Env) : Type 0 where
  pub consistent : Consistent e.tables
  pub lawful : Lawful e.tables
  pub coherent : Coherent e

-- The user is a row of the tables, but for what can change.
pub record Known (t : Tables) (u : User) : Type 0 where
  pub owns : Owns t u
  pub exists : ¬ NoId u.id (idents t.users)

pub found-Known :
    (i : ℕ) (t : Tables) (u : User) → Consistent t → user_by_id i t.users ≡ some u → Known t u
found-Known i t u c h =
    let (same, owns) = found-apart i t.users u c.apart h in
    record {
      owns = subst (λ j. All (λ p. p.0 ≡ j → p.1 ≡ u.chzzk_id) (idents t.users)) (sym same) owns;
      exists = subst (λ j. ¬ NoId j (idents t.users)) (sym same) (found-exists i t.users u h);
    }

-- A change of the rows of one user keeps the constraints.
Only-Good :
    (u : User) (e g : Env)
    → Good e
    → Known e.tables u
    → Coherent g
    → Only u.id e.tables g.tables
    → Lawful g.tables
    → Good g
Only-Good u e g h k c only law = record {
  lawful = law;
  consistent = record {
    apart = rw (only.same_idents) h.consistent.apart;
    positive = rw (only.same_idents) h.consistent.positive;
    owned = λ j n.
        let before : NoId j (idents e.tables.users) = subst (NoId j) (only.same_idents) n in
        only.same_link j (λ s. k.exists (subst (λ i. NoId i (idents e.tables.users)) s before))
        ∙ h.consistent.owned j before;
  };
  coherent = c;
}

-- So does a login, after which every cached badge is still the truth.
pub Unseen-Good : (e g : Env) → Good e → g.cache ≡ e.cache → Unseen e.tables g.tables → Good g
Unseen-Good e g h same u = record {
  consistent = u.constraints h.consistent;
  lawful = u.same_law h.lawful;
  coherent = record {
    cache_inv = rw same h.coherent.cache_inv;
    agree = rw same (
        All-map (Agrees e.tables) (Agrees g.tables) (entries e.cache.order)
          (λ x a. a ∙ sym (u.same_truth h.consistent x.key)) h.coherent.agree);
  };
}

pub same-Good : (e g : Env) → Good e → ReadsOnly e g → Good g
same-Good e g h same = record {
  consistent = rw (same.tables_same) h.consistent;
  lawful = rw (same.tables_same) h.lawful;
  coherent = Coherent-same same h.coherent;
}

module _ {S : Type 0} where
  -- What a handler keeps, whoever asks; and what it keeps for a user in the tables.
  abbrev pub Keeps : Handler S → Type 0
  Keeps h = (s : Site S) → Good s.env → Good (h s).1.env

  abbrev pub KeepsFor : User → Handler S → Type 0
  KeepsFor u h = (s : Site S) → Good s.env → Known s.env.tables u → Good (h s).1.env

  pub limited-KeepsFor :
      (r : Request) (scope : Text) (limit : ℕ) (u : User) (refused admitted : Handler S)
      → Keeps refused
      → KeepsFor u admitted
      → KeepsFor u (limited r scope limit refused admitted)
  limited-KeepsFor r scope limit u refused admitted a b s g k =
      elim (Bool-cases (allow s.limiter s.env.now r.client scope limit minute).1) [
        | inl e ↦ rw (e, limited) (b _ g k)
        | inr e ↦ rw (e, limited) (a _ g)
      ]

  pub limited-Keeps :
      (r : Request) (scope : Text) (limit : ℕ) (refused admitted : Handler S)
      → Keeps refused
      → Keeps admitted
      → Keeps (limited r scope limit refused admitted)
  limited-Keeps r scope limit refused admitted a b s g =
      elim (Bool-cases (allow s.limiter s.env.now r.client scope limit minute).1) [
        | inl e ↦ rw (e, limited) (b _ g)
        | inr e ↦ rw (e, limited) (a _ g)
      ]

  pub call-Keeps :
      {A : Type 0} (m : M A) (k : Result A → Handler S)
      → ((e : Env) → Good e → Good (m e).1)
      → ((a : Result A) → Keeps (k a))
      → Keeps (call m k)
  call-Keeps m k h t s g = t (m s.env).0 _ (h s.env g)

  pub read-Keeps :
      {A : Type 0} (m : M A) (k : Result A → Handler S)
      → ((e : Env) → ReadsOnly e (m e).1)
      → ((a : Result A) → Keeps (k a))
      → Keeps (call m k)
  read-Keeps m k h = call-Keeps m k (λ e g. same-Good e (m e).1 g (h e))

  -- A call that changes the rows of the user alone.
  pub call-KeepsFor :
      {A : Type 0} (u : User) (m : M A) (k : Result A → Handler S)
      → ((e : Env)
          → Coherent e
          → Owns e.tables u
          → Coherent (m e).1 × Only u.id e.tables (m e).1.tables)
      → IsLawful m
      → ((a : Result A) → Keeps (k a))
      → KeepsFor u (call m k)
  call-KeepsFor u m k h law t s g known =
      let (c, o) = h s.env g.coherent known.owns in
      t (m s.env).0 _ (Only-Good u s.env (m s.env).1 g known c o (law s.env g.lawful).rows)
