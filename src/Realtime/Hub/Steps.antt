-- ===== src/Realtime/Hub/Steps.antt =====
-- The runs of internal/realtime/hub.go: any sequence of the steps that run under `Hub.mu`.
use chzzk_djclass_chat.Base.{
  ℕ, suc, All, ◌≤◌, ◌<◌, ◌≡◌, ◌≢◌, refl, sym, ap, subst, set, ◌⊎◌, inl, inr, true, false, none,
  some, List, [], ◌∷◌, length, get_elem?, arith, Bool-cases, ==_iff, get_elem?-set_self,
  get_elem?-lt,
}
use chzzk_djclass_chat.Base.Maps.{lookup, delete_key, lookup-delete_self}
use chzzk_djclass_chat.Base.Text.{Text}
use chzzk_djclass_chat.Realtime.Batch.{Resolver, ChatMessage}
use chzzk_djclass_chat.Realtime.Hub.{
  Channel, Hub, Handle, new, subscribe, after, unsubscribe, fire, inject, push, flush_once, close,
  tear_down, Sub,
}
use chzzk_djclass_chat.Realtime.Hub.Heaps.{subs_total}
use chzzk_djclass_chat.Realtime.Hub.Inv.{Inv}
use chzzk_djclass_chat.Realtime.Hub.Keeps.{unsubscribe-Inv}
use chzzk_djclass_chat.Realtime.Hub.Ends.{fire-Inv, push-Inv, inject-Inv, flush_once-Inv}
use chzzk_djclass_chat.Realtime.Hub.Opens.{subscribe-Inv}
use chzzk_djclass_chat.Realtime.Hub.Closes.{close-Inv}

-- A callback may run whether or not its timer was stopped, and any number of times.
pub data Step : Hub → Hub → Type 0 where
  subscribed : {h : Hub} (id : Text) → Step h (after h (subscribe h id))
  unsubscribed : {h : Hub} (s : Handle) → Step h (unsubscribe h s)
  fired : {h : Hub} (i : ℕ) → Step h (fire h i)
  injected : {h : Hub} (id : Text) (m : ChatMessage) → Step h (inject h id m).0
  pushed : {h : Hub} (i : ℕ) (m : ChatMessage) → Step h (push h i m)
  flushed : {h : Hub} (r : Resolver) (i : ℕ) → Step h (flush_once r h i)
  closes : {h : Hub} → Step h (close h)

pub data Reach (h : Hub) : Hub → Type 0 where
  here : Reach h h
  next : {g k : Hub} → Reach h g → Step g k → Reach h k

new-Inv : (per total : ℕ) → 0 < per → Inv (new per total)
unfolding new lookup subs_total
new-Inv per total room = record {
  sound = λ i c k. absurd (ground (arith, k));
  frame = record {
    points = λ id i k. absurd (ground (arith, k));
    distinct = tt;
    counted = refl;
    few_total = omega arith;
    when_closed = λ e. refl;
    room = room;
  };
}

step-Inv : {h g : Hub} → Step h g → Inv h → Inv g
step-Inv (subscribed {h} id) v = subscribe-Inv h id v
step-Inv (unsubscribed {h} s) v = unsubscribe-Inv h s v
step-Inv (fired {h} i) v = fire-Inv h i v
step-Inv (injected {h} id m) v = inject-Inv h id m v
step-Inv (pushed {h} i m) v = push-Inv h i m v
step-Inv (flushed {h} r i) v = flush_once-Inv r h i v
step-Inv (closes {h}) v = close-Inv h v

pub Reach-Inv : {h g : Hub} → Reach h g → Inv h → Inv g
Reach-Inv here v = v
Reach-Inv (next r s) v = step-Inv s (Reach-Inv r v)

All-of_get {ℓ κ} :
    {A : Type ℓ} (P : A → Type κ) (xs : List A)
    → ((i : ℕ) (x : A) → get_elem? xs i ≡ some x → P x)
    → All P xs
All-of_get P [] f = tt
All-of_get P (x ∷ xs) f = (f 0 x refl, All-of_get P xs (λ i y k. f (suc i) y k))

module _ (per total : ℕ) (room : 0 < per) {h : Hub} (run : Reach (new per total) h) where
  abbrev reached : Inv h
  reached = Reach-Inv run (new-Inv per total room)

  -- In every hub that the steps reach from a new one with room for a subscription per channel, the
  -- total is the number of subscriptions registered with all channel objects, it is within the
  -- limit, and no channel object has more subscriptions than its limit.
  pub run_counts :
      (h.total ≡ subs_total h.heap)
      × (h.total ≤ h.max_total)
      × All (λ (c : Channel). length c.subs ≤ h.max_per_channel) h.heap
  run_counts =
      let v = reached in
      (
        v.frame.counted,
        v.frame.few_total,
        All-of_get (λ (c : Channel). length c.subs ≤ h.max_per_channel) h.heap
            (λ i c k. (v.sound i c k).few),
      )

  -- In every hub that the steps reach from a new one with room for a subscription per channel,
  -- a channel object whose worker is not cancelled is the map's, it has a subscription or its
  -- teardown timer is armed, and the hub is open.
  pub no_leaked_worker :
      (i : ℕ) (c : Channel)
      → get_elem? h.heap i ≡ some c
      → c.cancelled ≡ false
      → (lookup c.id h.channels ≡ some i)
        × ((c.subs ≢ []) ⊎ (c.teardown ≡ true))
        × (h.closed ≡ false)
  no_leaked_worker i c k runs =
      let s = reached.sound i c k in
      let mapped = s.known (inr runs) in
      (
        mapped,
        elim (list_cases c.subs) [ inl e ↦ inr (s.armed mapped e) | inr n ↦ inl n ],
        elim (Bool-cases h.closed) [
          | inl shut ↦ absurd (empty_map c.id mapped (reached.frame.when_closed shut))
          | inr open' ↦ open'
        ],
      )
    where
      empty_map : (k : Text) {m : List (Text × ℕ)} {i : ℕ} → lookup k m ≡ some i → m ≢ []
      empty_map k e n = unfold lookup in ground (arith, ap (lookup k) n, e)

      list_cases : (xs : List Sub) → (xs ≡ []) ⊎ (xs ≢ [])
      list_cases [] = inl refl
      list_cases (x ∷ xs) = inr (λ e. ground (arith, e))

  -- In every hub that the steps reach from a new one with room for a subscription per channel,
  -- the timer's callback of a channel object that has no subscription and whose worker runs
  -- takes the channel out of the map and cancels the worker.
  idle_torn_down :
      (i : ℕ) (c : Channel)
      → get_elem? h.heap i ≡ some c
      → c.subs ≡ []
      → c.cancelled ≡ false
      → (lookup c.id (fire h i).channels ≡ none)
        × (get_elem? (fire h i).heap i ≡ some (record c { cancelled = true }))
  unfolding fire tear_down
  idle_torn_down i c k idle runs =
      let mapped = (reached.sound i c k).known (inr runs) in
      subst (λ g. (lookup c.id g.channels ≡ none) × (get_elem? g.heap i ≡ some d))
        (sym (torn mapped))
        (
          lookup-delete_self c.id h.channels reached.frame.distinct,
          get_elem?-set_self h.heap i d (get_elem?-lt h.heap i c k),
        )
    where
      d : Channel
      d = record c { cancelled = true }

      torn :
          lookup c.id h.channels ≡ some i
          → fire h i ≡ record h { channels = delete_key c.id h.channels; heap = set h.heap i d }
      torn mapped = rw (k, fire) (rw (tear_down, idle, mapped) (rw ((==_iff i i).1 refl) refl))
