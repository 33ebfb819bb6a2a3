-- ===== src/Realtime/Hub.antt =====
-- internal/realtime/hub.go: channels, subscriptions and the teardown timers. A channel object is a
-- cell of a heap, since a subscription keeps pointing at an object that has left the map; a map is
-- the list of its entries. Each function below runs under `Hub.mu`, and so as one step.
pub mod Rooms
pub mod Settings
pub mod Heaps
pub mod Inv
pub mod Keeps
pub mod Ends
pub mod Opens
pub mod Closes
pub mod Steps
pub mod Moves
use chzzk_djclass_chat.Base.{
  ℕ, suc, ◌+◌, ◌-◌, Bool, true, false, not, ◌&&◌, ◌||◌, Option, none, some, List, [], ◌∷◌, ◌++◌,
  length, get_elem?, set, any_of, ltb, leb, ◌==◌, if◌then◌else◌,
}
use chzzk_djclass_chat.Base.Maps.{lookup, delete_key}
use chzzk_djclass_chat.Base.Text.{Text}
use chzzk_djclass_chat.Effects.{Error, hub_closed, too_many_subscribers, Result, ok, err}
use chzzk_djclass_chat.Realtime.Batch.{ChatMessage, BatchMessage, Resolver, build_batch}

-- A subscription's buffered channel of batches, by the subscription's identity.
pub record Sub : Type 0 where
  pub sid : ℕ
  pub queue : List (List BatchMessage)

-- `teardown` is whether the field is not nil. `armed_once` is whether a timer was ever armed, since
-- the callback of one that was stopped too late still runs.
pub record Channel : Type 0 where
  pub id : Text
  pub subs : List Sub
  pub teardown : Bool
  pub armed_once : Bool
  pub cancelled : Bool
  pub buffer : List ChatMessage

pub record Hub : Type 0 where
  pub max_per_channel : ℕ
  pub max_total : ℕ
  pub closed : Bool
  pub channels : List (Text × ℕ)
  pub heap : List Channel
  pub total : ℕ
  pub next_sid : ℕ
  pub next_id : ℕ

abbrev pub subscriber_buffer : ℕ
subscriber_buffer = 64

unfoldable pub new : ℕ → ℕ → Hub
new max_per_channel max_total = record {
  max_per_channel = max_per_channel;
  max_total = max_total;
  closed = false;
  channels = [];
  heap = [];
  total = 0;
  next_sid = 0;
  next_id = 0;
}

abbrev pub new_channel : Text → Channel
new_channel id = record {
  id = id;
  subs = [];
  teardown = false;
  armed_once = false;
  cancelled = false;
  buffer = [];
}

-- `startChannel`, and the entry that `Subscribe` makes for it.
unfoldable pub start_channel : Hub → Text → Hub
start_channel h id = record h {
  channels = h.channels ++ (id, length h.heap) ∷ [];
  heap = h.heap ++ new_channel id ∷ [];
}

-- The end of `Subscribe`: the timer is stopped, and the subscription registered.
unfoldable pub add_sub : Hub → ℕ → Channel → Hub
add_sub h ref ch = record h {
  heap = set h.heap ref (record ch {
    teardown = false;
    subs = ch.subs ++ record { sid = h.next_sid; queue = [] } ∷ [];
  });
  total = suc h.total;
  next_sid = suc h.next_sid;
}

-- The subscription: its identity and its channel object.
abbrev pub Handle : Type 0
Handle = ℕ × ℕ

unfoldable pub subscribe_new : Hub → Text → Result (Handle × Hub)
unfolding start_channel add_sub
subscribe_new h id =
    if leb h.max_total h.total
    then err too_many_subscribers
    else ok
        ((h.next_sid, length h.heap), add_sub (start_channel h id) (length h.heap) (new_channel id))

unfoldable pub subscribe_at : Hub → ℕ → Channel → Result (Handle × Hub)
unfolding add_sub
subscribe_at h ref ch =
    if leb h.max_total h.total || leb h.max_per_channel (length ch.subs)
    then err too_many_subscribers
    else ok ((h.next_sid, ref), add_sub h ref ch)

unfoldable pub subscribe_in : Hub → Text → Option ℕ → Result (Handle × Hub)
unfolding subscribe_new subscribe_at
subscribe_in h id none = subscribe_new h id
subscribe_in h id (some ref) = elim (get_elem? h.heap ref) [
  | none ↦ err too_many_subscribers
  | some ch ↦ subscribe_at h ref ch
]

unfoldable pub subscribe : Hub → Text → Result (Handle × Hub)
unfolding subscribe_in lookup
subscribe h id = if h.closed then err hub_closed else subscribe_in h id (lookup id h.channels)

-- The hub that `Subscribe` leaves behind.
abbrev pub after : Hub → Result (Handle × Hub) → Hub
after h (ok (s, g)) = g
after h (err e) = h

-- `delete(ch.subs, sub)`
unfoldable pub remove_sub : ℕ → List Sub → List Sub
remove_sub sid [] = []
remove_sub sid (s ∷ subs) = if s.sid == sid then subs else s ∷ remove_sub sid subs

abbrev pub has_sub : ℕ → List Sub → Bool
has_sub sid = any_of (λ (s : Sub). s.sid == sid)

abbrev pub is_nil {ℓ} : {A : Type ℓ} → List A → Bool
is_nil [] = true
is_nil (x ∷ xs) = false

-- The last subscription to leave an open hub arms the timer.
unfoldable pub leave : Hub → ℕ → ℕ → Channel → Hub
unfolding remove_sub
leave h sid ref ch =
    let subs = remove_sub sid ch.subs in
    let last = is_nil subs && not h.closed in
    record h {
      heap = set h.heap ref (record ch {
        subs = subs;
        teardown = last || ch.teardown;
        armed_once = last || ch.armed_once;
      });
      total = h.total - 1;
    }

unfoldable pub unsubscribe : Hub → Handle → Hub
unfolding leave
unsubscribe h (sid, ref) = elim (get_elem? h.heap ref) [
  | none ↦ h
  | some ch ↦ if has_sub sid ch.subs then leave h sid ref ch else h
]

abbrev pub same_ref : Option ℕ → ℕ → Bool
same_ref none ref = false
same_ref (some r) ref = r == ref

-- The teardown of an idle channel that is still the map's.
unfoldable pub tear_down : Hub → ℕ → Channel → Hub
unfolding lookup delete_key
tear_down h ref ch =
    if is_nil ch.subs && same_ref (lookup ch.id h.channels) ref
    then record h {
      channels = delete_key ch.id h.channels;
      heap = set h.heap ref (record ch { cancelled = true });
    }
    else h

-- The timer's callback.
unfoldable pub fire : Hub → ℕ → Hub
unfolding tear_down
fire h ref = elim (get_elem? h.heap ref) [ none ↦ h | some ch ↦ tear_down h ref ch ]

-- The loop of `Close` over the map: the subscriptions of each channel are dropped.
unfoldable pub clear_subs : List (Text × ℕ) → List Channel → List Channel
clear_subs [] heap = heap
clear_subs ((id, ref) ∷ m) heap =
    clear_subs m
      (elim (get_elem? heap ref) [ none ↦ heap | some ch ↦ set heap ref (record ch { subs = [] }) ])

-- Every worker's context is derived from the hub's.
unfoldable pub cancel_all : List Channel → List Channel
cancel_all [] = []
cancel_all (ch ∷ heap) = record ch { cancelled = true } ∷ cancel_all heap

unfoldable pub close : Hub → Hub
unfolding clear_subs cancel_all
close h = if h.closed then h else record h {
  closed = true;
  channels = [];
  heap = cancel_all (clear_subs h.channels h.heap);
  total = 0;
}

-- `push`
unfoldable pub push : Hub → ℕ → ChatMessage → Hub
push h ref m = elim (get_elem? h.heap ref) [
  | none ↦ h
  | some ch ↦ record h { heap = set h.heap ref (record ch { buffer = ch.buffer ++ m ∷ [] }) }
]

unfoldable pub inject : Hub → Text → ChatMessage → Hub × Bool
unfolding push lookup
inject h id m = elim (lookup id h.channels) [ none ↦ (h, false) | some ref ↦ (push h ref m, true) ]

-- `select { case s.c <- data: default: }`
unfoldable pub deliver : List BatchMessage → List Sub → List Sub
deliver b [] = []
deliver b (s ∷ subs) =
    (if ltb (length s.queue) subscriber_buffer then record s { queue = s.queue ++ b ∷ [] } else s)
    ∷ deliver b subs

-- `flushOnce`: the buffer is drained, and dropped if nobody listens.
unfoldable pub flush_once : Resolver → Hub → ℕ → Hub
unfolding deliver build_batch
flush_once resolve h ref = elim (get_elem? h.heap ref) [
  | none ↦ h
  | some ch ↦
      if is_nil ch.buffer
      then h
      else if is_nil ch.subs
      then record h { heap = set h.heap ref (record ch { buffer = [] }) }
      else (let (batch, last, calls) = build_batch resolve h.next_id ch.buffer in
          record h {
            heap = set h.heap ref (record ch { buffer = []; subs = deliver batch ch.subs });
            next_id = last;
          })
]
