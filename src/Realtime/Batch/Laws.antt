-- ===== src/Realtime/Batch/Laws.antt =====
-- One flush of internal/realtime/hub.go resolves each sender once.
use chzzk_djclass_chat.Base.{
  ℕ, suc, ◌+◌, ◌≡◌, ◌≢◌, ◌⊎◌, All, sym, refl, inl, inr, ap, ◌∙◌, Option, none, some, List, [], ◌∷◌,
  ◌++◌, length, arith, Option-cases, Bool-cases, length-append,
}
use mathlib.Core.Option.{some-injective}
use chzzk_djclass_chat.Base.Maps.{
  lookup, KeysApart, KeysApart-append, lookup-append_new, lookup-append_other,
}
use chzzk_djclass_chat.Base.Text.{Text, text_eq, text_eq_iff}
use chzzk_djclass_chat.Effects.{db_failure, err}
use chzzk_djclass_chat.Env.{BadgeResult}
use chzzk_djclass_chat.Realtime.Batch.{
  ChatMessage, BatchMessage, Resolver, Seen, batch_message, batch_loop, build_batch, degrade,
  capped,
}

-- The result that a map has for a sender.
abbrev pub answer : Seen → Text → BadgeResult
answer seen k = elim (lookup k seen) [ some x ↦ x | none ↦ degrade (err db_failure) ]

-- The messages with consecutive ids, each with one function's result for its sender.
unfoldable pub number : ℕ → (Text → BadgeResult) → List ChatMessage → List BatchMessage
number last f [] = []
number last f (m ∷ ms) = batch_message (suc last) m (f m.sender_channel_id) ∷ number (suc last) f ms

abbrev Extends : Seen → Seen → Type 0
Extends seen fin = (k : Text) (x : BadgeResult) → lookup k seen ≡ some x → lookup k fin ≡ some x

-- A result that is new is an answer of the resolver to its sender.
abbrev Honest : Resolver → Seen → Seen → Type 0
Honest r seen fin =
    (k : Text) (x : BadgeResult)
    → lookup k fin ≡ some x
    → (lookup k seen ≡ some x) ⊎ ((c : ℕ) × (x ≡ degrade (r c k)))

-- What the loop has done from a map of results to a larger one.
abbrev Loop : Resolver → ℕ → ℕ → Seen → List ChatMessage → Seen → Type 0
Loop r last calls seen ms fin =
    KeysApart fin
    × Extends seen fin
    × ((batch_loop r last calls seen ms).0 ≡ number last (answer fin) ms)
    × ((batch_loop r last calls seen ms).1 ≡ last + length ms)
    × ((batch_loop r last calls seen ms).2 + length seen ≡ calls + length fin)
    × Honest r seen fin
    × All (λ (m : ChatMessage). (x : BadgeResult) × (lookup m.sender_channel_id fin ≡ some x)) ms

cell :
    (last : ℕ) (m : ChatMessage) (ms : List ChatMessage) (x : BadgeResult) (fin : Seen)
    → lookup m.sender_channel_id fin ≡ some x
    → {rest : List BatchMessage} → rest ≡ number (suc last) (answer fin) ms
    → batch_message (suc last) m x ∷ rest ≡ number last (answer fin) (m ∷ ms)
unfolding number
cell last m ms x fin e p = ground (arith, e, p)

batch_loop_lem :
    (r : Resolver) (last calls : ℕ) (seen : Seen) (ms : List ChatMessage)
    → KeysApart seen
    → (fin : Seen) × Loop r last calls seen ms fin
unfolding batch_loop number
batch_loop_lem r last calls seen [] d =
    (seen, (d, λ k x e. e, refl, omega arith, refl, λ k x e. inl e, tt))
batch_loop_lem r last calls seen (m ∷ ms) d =
    elim (Option-cases (lookup m.sender_channel_id seen)) [
      | inr (x, e) ↦
          let (fin, l) = batch_loop_lem r (suc last) calls seen ms d in
          (
            fin,
            (
              l.0,
              l.1,
              rw (e, batch_loop) (cell last m ms x fin (l.1 m.sender_channel_id x e) l.2),
              rw (e, batch_loop) (omega (arith, l.3)),
              rw (e, batch_loop) l.4,
              l.5,
              ((x, l.1 m.sender_channel_id x e), l.6),
            ),
          )
      | inl e ↦
          let x = degrade (r calls m.sender_channel_id) in
          let seen' : Seen = seen ++ (m.sender_channel_id, x) ∷ [] in
          let new' = lookup-append_new m.sender_channel_id x seen e in
          let (fin, l) =
            batch_loop_lem r (suc last) (suc calls) seen' ms
              (KeysApart-append m.sender_channel_id x seen e d) in
          (
            fin,
            (
              l.0,
              λ k y f. l.1 k y (kept m.sender_channel_id k x y seen e f),
              rw (e, batch_loop) (cell last m ms x fin (l.1 m.sender_channel_id x new') l.2),
              rw (e, batch_loop) (omega (arith, l.3)),
              rw (e, batch_loop)
                  (omega (arith, l.4, length-append seen ((m.sender_channel_id, x) ∷ []))),
              λ k y f. elim (l.5 k y f) [
                | inl g ↦ fresh calls m.sender_channel_id k y seen e g
                | inr g ↦ inr g
              ],
              ((x, l.1 m.sender_channel_id x new'), l.6),
            ),
          )
    ]
  where
    clash : {o p : Option BadgeResult} {y : BadgeResult} → o ≡ p → o ≡ none → p ≢ some y
    clash q e f = cc

    kept :
        (j k : Text) (x y : BadgeResult) (seen : Seen)
        → lookup j seen ≡ none
        → lookup k seen ≡ some y
        → lookup k (seen ++ (j, x) ∷ []) ≡ some y
    kept j k x y seen e f =
        lookup-append_other j k x seen (λ s. clash (ap (λ z. lookup z seen) s) e f) ∙ f

    fresh :
        (n : ℕ) (j k : Text) (y : BadgeResult) (seen : Seen)
        → lookup j seen ≡ none
        → lookup k (seen ++ (j, degrade (r n j)) ∷ []) ≡ some y
        → (lookup k seen ≡ some y) ⊎ ((c : ℕ) × (y ≡ degrade (r c k)))
    fresh n j k y seen e g = elim (Bool-cases (text_eq j k)) [
      | inl t ↦
          let s = (text_eq_iff j k).0 t in
          inr (
            n,
            some-injective _ _ (
                  sym g
                  ∙ ap (λ q. lookup q (seen ++ (j, degrade (r n j)) ∷ [])) (sym s)
                  ∙ lookup-append_new j (degrade (r n j)) seen e)
                ∙ ap (λ q. degrade (r n q)) s,
          )
      | inr t ↦ inl (
          sym
            (lookup-append_other j k (degrade (r n j)) seen (λ s. ground (arith, text_eq_iff j k)))
          ∙ g)
    ]

-- However the resolver's answers change from call to call, there is one map with a result for each
-- sender, each an answer of the resolver to that sender or what an error degrades to, with as many
-- entries as the flush makes calls, such that the batch is the first
-- `max_batch` buffered messages in order, with consecutive ids after the last one used, and each
-- with the map's result for its sender; the counter of ids advances by the number of messages.
pub build_batch-number :
    (r : Resolver) (last : ℕ) (raw : List ChatMessage)
    → (seen : Seen) × KeysApart seen
      × ((build_batch r last raw).0 ≡ number last (answer seen) (capped raw))
      × ((build_batch r last raw).1 ≡ last + length (capped raw))
      × ((build_batch r last raw).2 ≡ length seen)
      × ((k : Text) (x : BadgeResult) → lookup k seen ≡ some x → (c : ℕ) × (x ≡ degrade (r c k)))
      × All
          (λ (m : ChatMessage). (x : BadgeResult) × (lookup m.sender_channel_id seen ≡ some x))
          (capped raw)
unfolding build_batch lookup
build_batch-number r last raw =
    let (fin, l) = batch_loop_lem r last 0 [] (capped raw) tt in
    (
      fin,
      l.0,
      l.2,
      l.3,
      omega (arith, l.4),
      λ k x e. elim (l.5 k x e) [ inl f ↦ absurd (ground (arith, f)) | inr f ↦ f ],
      l.6,
    )
