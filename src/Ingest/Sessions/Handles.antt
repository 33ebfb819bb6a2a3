-- ===== src/Ingest/Sessions/Handles.antt =====
-- The callback of a session in internal/realtime/ingest.go, event by event.
use chzzk_djclass_chat.Base.{
  ℕ, ◌≡◌, refl, ap, subst, sym, ◌∙◌, inl, inr, true, false, List, [], ◌∷◌, ◌++◌, arith, Bool-cases,
}
use mathlib.Core.List.{append-nil}
use chzzk_djclass_chat.Base.Text.{Text, text, text_eq, text_eq_iff}
use chzzk_djclass_chat.Chat.{Std}
use chzzk_djclass_chat.Eio3.{Event}
use chzzk_djclass_chat.Ingest.Sessions.{
  no_session_key, Live, Decoder, first_arg, fail, connected, session_key, is_connected, on_chat,
  handle,
}
use chzzk_djclass_chat.Realtime.Batch.{ChatMessage}
use chzzk_djclass_chat.Realtime.Hub.{Hub, push}
use chzzk_djclass_chat.Realtime.Hub.Moves.{Move, move, move-Step}
use chzzk_djclass_chat.Realtime.Hub.Steps.{Reach, here, next, pushed}
use chzzk_djclass_chat.Ingest.Sessions.Marks.{
  gather, gather-append, chat_of, connects, key_of, keyless, Justified, keyed-Justified,
  keyless-Justified,
}

-- The hub has come from another one by pushes of these messages, in order, to one channel object, and
-- by steps of other goroutines between them.
pub data Relays (ref : ℕ) (o : Hub) : List ChatMessage → Hub → Type 0 where
  none_yet : Relays ref o [] o
  relayed :
      {ms : List ChatMessage} {h : Hub} (m : ChatMessage)
      → Relays ref o ms h
      → Relays ref o (ms ++ m ∷ []) (push h ref m)
  meanwhile :
      {ms : List ChatMessage} {h : Hub} (m : Move) → Relays ref o ms h → Relays ref o ms (move m h)

-- The pushes and the steps are steps of the hub.
pub Relays-Reach :
    (ref : ℕ) (o : Hub) {ms : List ChatMessage} {h : Hub} → Relays ref o ms h → Reach o h
Relays-Reach ref o none_yet = here
Relays-Reach ref o (relayed m r) = next (Relays-Reach ref o r) (pushed ref m)
Relays-Reach ref o (meanwhile m r) = next (Relays-Reach ref o r) (move-Step m _)

module _ (d : Decoder) (std : Std) (channel_id : Text) (ref : ℕ) (o : Hub) where
  pub record IsRelayed (l : Live) : Type 0 where
    pub reached : Relays ref o l.pushed l.hub
    pub in_order : l.pushed ≡ gather (chat_of d std channel_id) l.socket.handled
    pub started : l.subscribing ≡ gather (key_of d) l.socket.handled
    pub justified : Justified d l.cause l.socket.handled l.subscribing

  -- The same, but for an event that the socket has handed over.
  pub record Before (e : Event) (l : Live) : Type 0 where
    pub es : List Event
    pub handed : l.socket.handled ≡ es ++ e ∷ []
    pub reached : Relays ref o l.pushed l.hub
    pub in_order : l.pushed ≡ gather (chat_of d std channel_id) es
    pub started : l.subscribing ≡ gather (key_of d) es
    pub justified : Justified d l.cause es l.subscribing

  chat-connects : (e : Event) → text_eq e.name (text "CHAT") ≡ true → connects d e ≡ false
  unfolding connects
  chat-connects e h =
      let other : text_eq e.name (text "SYSTEM") ≡ false =
        ground (arith, text_eq_iff e.name (text "SYSTEM"), text_eq_iff e.name (text "CHAT"), h) in
      rw other refl

  built :
      (e : Event) (l k : Live) (b : Before e l)
      → k.socket ≡ l.socket
      → Relays ref o k.pushed k.hub
      → k.pushed ≡ l.pushed ++ chat_of d std channel_id e
      → k.subscribing ≡ l.subscribing ++ key_of d e
      → Justified d k.cause (b.es ++ e ∷ []) k.subscribing
      → IsRelayed k
  built e l k b same r p q j =
      let handled = ap (λ s. s.handled) same ∙ b.handed in
      record {
        reached = r;
        in_order =
            p
            ∙ ap (λ ms. ms ++ chat_of d std channel_id e) b.in_order
            ∙ sym (gather-append (chat_of d std channel_id) b.es e)
            ∙ ap (gather (chat_of d std channel_id)) (sym handled);
        started =
            q
            ∙ ap (λ ks. ks ++ key_of d e) b.started
            ∙ sym (gather-append (key_of d) b.es e)
            ∙ ap (gather (key_of d)) (sym handled);
        justified = subst (λ es. Justified d k.cause es k.subscribing) (sym handled) j;
      }

  -- An event that does not connect has no key, and misses none.
  unconnected : (e : Event) → connects d e ≡ false → (key_of d e ≡ []) × (keyless d e ≡ false)
  unfolding key_of keyless
  unconnected e h = (rw h refl, rw h refl)

  on_chat-IsRelayed :
      (e : Event) (l : Live)
      → Before e l
      → text_eq e.name (text "CHAT") ≡ true
      → IsRelayed (on_chat d std channel_id ref (first_arg d e.args) l)
  unfolding on_chat chat_of
  on_chat-IsRelayed e l b h =
      let (none_new, none_missed) = unconnected e (chat-connects e h) in
      built e l (on_chat d std channel_id ref (first_arg d e.args) l) b refl (relayed _ b.reached)
        (rw h refl) (rw none_new (sym (append-nil l.subscribing)))
        (subst (λ ks. Justified d l.cause (b.es ++ e ∷ []) ks) (append-nil l.subscribing)
          (keyed-Justified d l.cause b.es e l.subscribing [] none_missed b.justified))

  unchanged-IsRelayed :
      (e : Event) (l : Live)
      → Before e l
      → text_eq e.name (text "CHAT") ≡ false
      → connects d e ≡ false
      → IsRelayed l
  unfolding chat_of
  unchanged-IsRelayed e l b h u =
      let (none_new, none_missed) = unconnected e u in
      built e l l b refl b.reached (rw h (sym (append-nil l.pushed)))
        (rw none_new (sym (append-nil l.subscribing)))
        (subst (λ ks. Justified d l.cause (b.es ++ e ∷ []) ks) (append-nil l.subscribing)
          (keyed-Justified d l.cause b.es e l.subscribing [] none_missed b.justified))

  connected-IsRelayed :
      (e : Event) (l : Live)
      → Before e l
      → text_eq e.name (text "CHAT") ≡ false
      → connects d e ≡ true
      → IsRelayed (connected (session_key (first_arg d e.args)) l)
  unfolding connected chat_of key_of keyless fail
  connected-IsRelayed e l b h u =
      let key = session_key (first_arg d e.args) in
      elim (Bool-cases (text_eq key [])) [
        | inl n ↦ rw n (
            built e l (fail no_session_key l) b refl b.reached (rw h (sym (append-nil l.pushed)))
              (rw (u, n) (sym (append-nil l.subscribing)))
              (keyless-Justified d l l.cause b.es e l.subscribing (rw (u, n) refl) b.justified))
        | inr n ↦ rw n (
            built e l (record l { subscribing = l.subscribing ++ key ∷ [] }) b refl b.reached
              (rw h (sym (append-nil l.pushed))) (rw (u, n) refl)
              (keyed-Justified d l.cause b.es e l.subscribing (key ∷ []) (rw (u, n) refl)
                b.justified))
      ]

  pub handle-IsRelayed :
      (e : Event) (l : Live) → Before e l → IsRelayed (handle d std channel_id ref e l)
  unfolding handle connects
  handle-IsRelayed e l b = elim (Bool-cases (text_eq e.name (text "CHAT"))) [
    | inl h ↦ rw h (on_chat-IsRelayed e l b h)
    | inr h ↦ rw h (elim (Bool-cases (text_eq e.name (text "SYSTEM"))) [
      | inl k ↦ rw k (elim (Bool-cases (is_connected (first_arg d e.args))) [
        | inl c ↦ rw c (connected-IsRelayed e l b h (rw (k, c) refl))
        | inr c ↦ rw c (unchanged-IsRelayed e l b h (rw (k, c) refl))
      ])
      | inr k ↦ rw k (unchanged-IsRelayed e l b h (rw k refl))
    ])
  ]
