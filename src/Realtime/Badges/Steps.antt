-- ===== src/Realtime/Badges/Steps.antt =====
-- A flush with the resolver over the database is a step of the hub of internal/realtime/hub.go.
use chzzk_djclass_chat.Base.{
  ℕ, suc, ◌≤◌, ◌≡◌, refl, ap, sym, subst, ◌∙◌, inl, inr, false, none, List, [], ◌∷◌, ◌++◌,
  get_elem?, set, arith, ==_iff, ◌==◌, Bool-cases, Option-cases, if◌then◌else◌,
}
use mathlib.Core.Path.{fun_ext}
use chzzk_djclass_chat.Base.Maps.{lookup}
use chzzk_djclass_chat.Env.{Env}
use chzzk_djclass_chat.Realtime.Badges.{
  resolve_sender, badge_loop, badge_batch, flush_badges, offer,
}
use chzzk_djclass_chat.Realtime.Batch.{
  ChatMessage, BatchMessage, Resolver, Seen, batch_message, batch_loop, build_batch, degrade,
  capped,
}
use chzzk_djclass_chat.Realtime.Hub.{Hub, Channel, flush_once, is_nil, deliver}
use chzzk_djclass_chat.Realtime.Hub.Steps.{Step, flushed}
use chzzk_djclass_chat.Resolver.{resolve}

-- The loop asks only for the answers to the calls from its first one on.
batch_loop-agree :
    (r s : Resolver) (last calls : ℕ) (seen : Seen) (ms : List ChatMessage)
    → ((c : ℕ) → calls ≤ c → r c ≡ s c)
    → batch_loop r last calls seen ms ≡ batch_loop s last calls seen ms
unfolding batch_loop
batch_loop-agree r s last calls seen [] h = refl
batch_loop-agree r s last calls seen (m ∷ ms) h =
    elim (Option-cases (lookup m.sender_channel_id seen)) [
      | inr (x, e) ↦ rw (e, batch_loop) (rw (batch_loop-agree r s (suc last) calls seen ms h) refl)
      | inl e ↦
          rw (e, batch_loop)
            (rw (h calls (omega arith)) (
              rw
                (batch_loop-agree r s (suc last) (suc calls)
                  (seen ++ (m.sender_channel_id, degrade (s calls m.sender_channel_id)) ∷ []) ms
                  (λ c p. h c (omega arith)))
                refl))
    ]

-- A resolver that answers one call as given.
abbrev answering : ℕ → Env → Resolver → Resolver
answering n e r c k = if c == n then (resolve k e).0 else r c k

-- The loop asks for that call first, and for the others after.
answering-batch_loop :
    (last calls : ℕ) (seen : Seen) (m : ChatMessage) (ms : List ChatMessage) (e : Env)
    (r : Resolver)
    → lookup m.sender_channel_id seen ≡ none
    → let x = (resolve_sender m.sender_channel_id e).0 in
      let rest = batch_loop r (suc last) (suc calls) (seen ++ (m.sender_channel_id, x) ∷ []) ms in
      batch_loop (answering calls e r) last calls seen (m ∷ ms)
      ≡ (batch_message (suc last) m x ∷ rest.0, rest.1, rest.2)
unfolding batch_loop resolve_sender
answering-batch_loop last calls seen m ms e r f =
    let x = degrade (resolve m.sender_channel_id e).0 in
    rw (f, batch_loop)
      (rw ((==_iff calls calls).1 refl) (
        rw
          (batch_loop-agree (answering calls e r) r (suc last) (suc calls)
            (seen ++ (m.sender_channel_id, x) ∷ []) ms (λ c p. fun_ext (λ k. rw (later c p) refl)))
          refl))
  where
    later : (c : ℕ) → suc calls ≤ c → (c == calls) ≡ false
    later c p = ground arith

-- There are answers, call by call, with which the loop makes the same messages.
badge_loop-batch_loop :
    (last calls : ℕ) (seen : Seen) (ms : List ChatMessage) (e : Env)
    → (r : Resolver) × ((badge_loop last seen ms e).0 ≡ (batch_loop r last calls seen ms).0)
      × ((badge_loop last seen ms e).1 ≡ (batch_loop r last calls seen ms).1)
unfolding badge_loop batch_loop resolve_sender
badge_loop-batch_loop last calls seen [] e = (λ c k. (resolve k e).0, refl, refl)
badge_loop-batch_loop last calls seen (m ∷ ms) e =
    elim (Option-cases (lookup m.sender_channel_id seen)) [
      | inr (x, f) ↦
          let (r, p, q) = badge_loop-batch_loop (suc last) calls seen ms e in
          (r, rw (f, badge_loop, batch_loop) (rw p refl), rw (f, badge_loop, batch_loop) q)
      | inl f ↦
          let (r, p, q) =
            badge_loop-batch_loop (suc last) (suc calls)
              (seen ++ (m.sender_channel_id, (resolve_sender m.sender_channel_id e).0) ∷ []) ms
              (resolve_sender m.sender_channel_id e).1 in
          (
            answering calls e r,
            rw (f, badge_loop)
                (rw p (ap (λ t. t.0) (sym (answering-batch_loop last calls seen m ms e r f)))),
            rw (f, badge_loop)
                (q ∙ ap (λ t. t.1) (sym (answering-batch_loop last calls seen m ms e r f))),
          )
    ]

offered :
    (h : Hub) (i : ℕ) (ch : Channel) (e : Env) {b c : List BatchMessage} {n k : ℕ}
    → b ≡ c
    → n ≡ k
    → record h {
      heap = set h.heap i (record ch { buffer = []; subs = deliver c ch.subs });
      next_id = k;
    }
      ≡ (offer h i ch (b, n, e)).0
unfolding offer
offered h i ch e p q = rw (p, q) refl

-- There are answers with which `flushOnce` does the same.
flush_badges-flush_once :
    (h : Hub) (i : ℕ) (e : Env) → (r : Resolver) × (flush_once r h i ≡ (flush_badges h i e).0)
unfolding flush_badges badge_batch flush_once build_batch offer
flush_badges-flush_once h i e = elim (Option-cases (get_elem? h.heap i)) [
  | inl f ↦ (λ c k. (resolve k e).0, rw (f, flush_badges, flush_once) refl)
  | inr (ch, f) ↦
      let (r, p, q) = badge_loop-batch_loop h.next_id 0 [] (capped ch.buffer) e in
      (
        r,
        rw (f, flush_badges, flush_once)
            (elim (Bool-cases (is_nil ch.buffer)) [
              | inl a ↦ rw a refl
              | inr a ↦ elim (Bool-cases (is_nil ch.subs)) [
                | inl b ↦ rw (a, b) refl
                | inr b ↦ rw (a, b) (offered h i ch e p q)
              ]
            ]),
      )
]

-- The flush that a channel's loop makes, with the database and the cache as they are, is a step of
-- the hub.
flush_badges-Step : (h : Hub) (i : ℕ) (e : Env) → Step h (flush_badges h i e).0
flush_badges-Step h i e =
    let (r, same) = flush_badges-flush_once h i e in subst (Step h) same (flushed r i)
