-- ===== src/Realtime/Badges/Truth.antt =====
-- The badges that a flush of internal/realtime/hub.go shows, with the resolver over the database.
use chzzk_djclass_chat.Base.{
  ℕ, suc, ◌+◌, ◌≡◌, ◌≢◌, refl, ap, ◌∙◌, ◌⊎◌, inl, inr, some, List, [], ◌∷◌, ◌++◌, All, length,
  subst, true, false, arith, Bool-cases, Option-cases, if◌then◌else◌,
}
use mathlib.Core.Option.{some-injective}
use chzzk_djclass_chat.Base.Maps.{lookup}
use chzzk_djclass_chat.Base.Text.{Text, text_eq, text_eq_iff}
use chzzk_djclass_chat.Effects.{Result, db_failure, ok, err}
use chzzk_djclass_chat.Env.{Env, BadgeResult, unlinked}
use chzzk_djclass_chat.Realtime.Badges.{resolve_sender, badge_loop, badge_batch}
use chzzk_djclass_chat.Realtime.Batch.{
  ChatMessage, BatchMessage, Seen, batch_message, degrade, capped,
}
use chzzk_djclass_chat.Realtime.Batch.Laws.{number}
use chzzk_djclass_chat.Resolver.{plain, resolve}
use chzzk_djclass_chat.Resolver.Calm.{resolve-IsCalm}
use chzzk_djclass_chat.Resolver.Coherence.{Coherent, resolve-truth}
use chzzk_djclass_chat.Resolver.Truth.{truth}
use chzzk_djclass_chat.Store.{Tables}

-- Each message in turn, with the next id and a result for its sender that the predicate allows.
abbrev pub Each : (Text → BadgeResult → Type 0) → ℕ → List ChatMessage → List BatchMessage → Type 0
Each P last [] [] = Unit
Each P last [] (b ∷ bs) = ⊥
Each P last (m ∷ ms) [] = ⊥
Each P last (m ∷ ms) (b ∷ bs) =
    ((x : BadgeResult) × (b ≡ batch_message (suc last) m x) × P m.sender_channel_id x)
    × Each P (suc last) ms bs

abbrev Fair : (Text → BadgeResult → Type 0) → Seen → Type 0
Fair P seen = All (λ (p : Text × BadgeResult). P p.0 p.1) seen

-- A resolver that keeps an invariant of the database and the cache, and whose answers are allowed.
module _ (P : Text → BadgeResult → Type 0) (I : Env → Type 0)
    (step : (k : Text) (e : Env)
      → I e
      → P k (resolve_sender k e).0 × I (resolve_sender k e).1) where
  find-Fair :
      (k : Text) (seen : Seen) (x : BadgeResult) → Fair P seen → lookup k seen ≡ some x → P k x
  unfolding lookup
  find-Fair k [] x h e = cc
  find-Fair k ((j, y) ∷ seen) x h e = elim (Bool-cases (text_eq j k)) [
    | inl t ↦
        (let k' = (text_eq_iff j k).0 t in
          subst (λ q. P q x) k' (subst (λ v. P j v) (found t e) h.0))
    | inr t ↦ find-Fair k seen x h.1 (ground (arith, e, t))
  ]
    where
      found : text_eq j k ≡ true → (if text_eq j k then some y else lookup k seen) ≡ some x → y ≡ x
      found t e = some-injective y x (ground (arith, t, e))

  Fair-append :
      (k : Text) (x : BadgeResult) (seen : Seen)
      → Fair P seen
      → P k x
      → Fair P (seen ++ (k, x) ∷ [])
  Fair-append k x [] h p = (p, tt)
  Fair-append k x (y ∷ seen) h p = (h.0, Fair-append k x seen h.1 p)

  loop-Each :
      (last : ℕ) (seen : Seen) (ms : List ChatMessage) (e : Env)
      → Fair P seen
      → I e
      → Each P last ms (badge_loop last seen ms e).0
        × ((badge_loop last seen ms e).1 ≡ last + length ms)
        × I (badge_loop last seen ms e).2
  unfolding badge_loop
  loop-Each last seen [] e h i = (tt, omega arith, i)
  loop-Each last seen (m ∷ ms) e h i = elim (Option-cases (lookup m.sender_channel_id seen)) [
    | inr (x, f) ↦
        let r = loop-Each (suc last) seen ms e h i in
        rw (f, badge_loop)
          (((x, refl, find-Fair m.sender_channel_id seen x h f), r.0), omega (arith, r.1), r.2)
    | inl f ↦
        let s = step m.sender_channel_id e i in
        let r =
          loop-Each (suc last)
            (seen ++ (m.sender_channel_id, (resolve_sender m.sender_channel_id e).0) ∷ []) ms
            (resolve_sender m.sender_channel_id e).1
            (Fair-append m.sender_channel_id (resolve_sender m.sender_channel_id e).0 seen h s.0)
            s.1 in
        rw (f, badge_loop) (((_, refl, s.0), r.0), omega (arith, r.1), r.2)
  ]

-- What a message from a sender should show; one without an id is not linked.
unfoldable pub shown : Tables → Text → BadgeResult
unfolding truth
shown t k = if text_eq k [] then plain unlinked else truth t k

-- The result is the right one, or no badge, which stands for a failure of the database.
abbrev pub IsHonest : Tables → Text → BadgeResult → Type 0
IsHonest t k x = (x ≡ shown t k) ⊎ (x ≡ plain unlinked)

abbrev Over : Tables → Env → Type 0
Over t e = Coherent e × (e.tables ≡ t)

degrade-cases :
    (x : BadgeResult) (r : Result BadgeResult)
    → (r ≡ ok x) ⊎ (r ≡ err db_failure)
    → (degrade r ≡ x) ⊎ (degrade r ≡ plain unlinked)
unfolding degrade
degrade-cases x r (inl h) = inl (rw h refl)
degrade-cases x r (inr h) = inr (rw h refl)

shown_named : (t : Tables) (k : Text) → text_eq k [] ≡ false → truth t k ≡ shown t k
unfolding shown
shown_named t k a = rw a refl

not_empty : (k : Text) → text_eq k [] ≡ false → k ≢ []
not_empty k a = ground (arith, text_eq_iff k [])

resolve_sender-IsHonest :
    (t : Tables) (k : Text) (e : Env)
    → Over t e
    → IsHonest t k (resolve_sender k e).0 × Over t (resolve_sender k e).1
unfolding resolve_sender shown degrade
resolve_sender-IsHonest t k e (c, same) = elim (Bool-cases (text_eq k [])) [
  | inl a ↦ rw (a) (ground (arith, c, same))
  | inr a ↦
      let r = resolve-truth e k (not_empty k a) c in
      (
        elim (degrade-cases (truth e.tables k) (resolve k e).0 r.answer) [
          | inl h ↦ inl (h ∙ ap (λ u. truth u k) same ∙ shown_named t k a)
          | inr h ↦ inr h
        ],
        (r.coherent, r.tables_kept ∙ same),
      )
]

-- What a flush makes of the buffered messages.
pub record IsBatch (t : Tables) (last : ℕ) (raw : List ChatMessage)
    (b : List BatchMessage × ℕ × Env) : Type 0 where
  pub messages : Each (IsHonest t) last (capped raw) b.0
  pub numbered : b.1 ≡ last + length (capped raw)
  pub tables_kept : b.2.tables ≡ t
  pub coherent : Coherent b.2

-- Over a coherent cache, whichever calls of the database fail, a flush makes of the first
-- `max_batch` buffered messages, in order and with consecutive ids, messages that show what the
-- tables say of their senders, or no badge; it changes no table and keeps the cache coherent.
pub badge_batch-IsBatch :
    (e : Env) (last : ℕ) (raw : List ChatMessage)
    → Coherent e
    → IsBatch e.tables last raw (badge_batch last raw e)
unfolding badge_batch
badge_batch-IsBatch e last raw c =
    let (m, n, (v, same)) =
      loop-Each (IsHonest e.tables) (Over e.tables) (resolve_sender-IsHonest e.tables) last []
        (capped raw) e tt (c, refl) in
    record { messages = m; numbered = n; tables_kept = same; coherent = v }

-- The same while no call of the database fails.
abbrev Clear : Tables → Env → Type 0
Clear t e = Over t e × (e.faults ≡ [])

unfailed :
    (x : BadgeResult) (r : Result BadgeResult)
    → (r ≡ ok x) ⊎ (r ≡ err db_failure)
    → r ≢ err db_failure
    → degrade r ≡ x
unfolding degrade
unfailed x r (inl h) n = rw h refl
unfailed x r (inr h) n = absurd (n h)

resolve_sender-Clear :
    (t : Tables) (k : Text) (e : Env)
    → Clear t e
    → ((resolve_sender k e).0 ≡ shown t k) × Clear t (resolve_sender k e).1
unfolding resolve_sender shown degrade
resolve_sender-Clear t k e ((c, same), f) = elim (Bool-cases (text_eq k [])) [
  | inl a ↦ rw (a) (ground (arith, c, same, f))
  | inr a ↦
      let r = resolve-truth e k (not_empty k a) c in
      let calm = resolve-IsCalm k e f in
      (
        unfailed (truth e.tables k) (resolve k e).0 r.answer calm.0
            ∙ ap (λ u. truth u k) same
            ∙ shown_named t k a,
        ((r.coherent, r.tables_kept ∙ same), calm.1),
      )
]

Each-number :
    (f : Text → BadgeResult) (last : ℕ) (ms : List ChatMessage) (bs : List BatchMessage)
    → Each (λ k x. x ≡ f k) last ms bs
    → bs ≡ number last f ms
unfolding number
Each-number f last [] [] h = refl
Each-number f last [] (b ∷ bs) h = absurd h
Each-number f last (m ∷ ms) [] h = absurd h
Each-number f last (m ∷ ms) (b ∷ bs) ((x, e, p), h) =
    let here = e ∙ ap (batch_message (suc last) m) p in
    let rest = Each-number f (suc last) ms bs h in ground (arith, here, rest)

-- Over a coherent cache, while no call of the database fails, each message of a flush shows what
-- the tables say of its sender.
pub badge_batch-number :
    (e : Env) (last : ℕ) (raw : List ChatMessage)
    → Coherent e
    → e.faults ≡ []
    → (badge_batch last raw e).0 ≡ number last (shown e.tables) (capped raw)
unfolding badge_batch
badge_batch-number e last raw c f =
    Each-number (shown e.tables) last (capped raw) _
      (loop-Each (λ k x. x ≡ shown e.tables k) (Clear e.tables) (resolve_sender-Clear e.tables) last
        [] (capped raw) e tt ((c, refl), f)).0
