-- ===== src/Eio3/Dials/Connects.antt =====
-- When `Dial` of internal/chzzk/eio3/eio3.go connects.
use chzzk_djclass_chat.Base.{
  ℕ, zero, suc, ◌≡◌, ◌≢◌, refl, ap, ◌∙◌, true, false, not, ◌||◌, Option, none, some, List, [], ◌∷◌,
  ◌++◌, All, arith, ◌==◌, Bool, if◌then◌else◌, ==_iff,
}
use chzzk_djclass_chat.Base.Int.{ℤ, pos, negsuc}
use chzzk_djclass_chat.Base.Text.{Text}
use chzzk_djclass_chat.Eio3.{Dialled, waiting, connected, refused, on_dial_frame}
use chzzk_djclass_chat.Eio3.Dials.Frames.{
  Passed, passed_frames, answers, Passes, IsConnect, waiting-Passes, connected-IsConnect,
}
use chzzk_djclass_chat.Eio3.Dials.{
  Urls, Handshake, settings, undecoded, Read, binary, frame, broken, connected_with, ends,
  DialError, Dialling, Fallible, done, failed, socket_url, await_connect, on_awaited, on_handshake,
  on_open, await_open, on_websocket, on_endpoint, dial, reply, is_positive,
}

-- The text frames of what is read, up to an error.
unfoldable pub frames : List Read → List Text
frames [] = []
frames (binary ∷ rs) = frames rs
frames (frame f ∷ rs) = f ∷ frames rs
frames (broken cause ∷ rs) = []

-- Of the frames some are passed over, each answered if it is a ping, then one connects.
pub record IsConnected (rs : List Read) (d : Dialling) : Type 0 where
  pub left : List Read
  pub over : d.reading ≡ connected_with left
  pub passed : List Passed
  pub connecting_frame : Text
  pub in_order : frames rs ≡ passed_frames passed ++ connecting_frame ∷ frames left
  pub passed_over : All Passes passed
  pub connecting : IsConnect connecting_frame
  pub answered : d.sent ≡ answers passed

-- A reading that is not connected says so.
pub data Connects (rs : List Read) (d : Dialling) : Type 0 where
  connects : IsConnected rs d → Connects rs d
  not_connected : ((left : List Read) → d.reading ≢ connected_with left) → Connects rs d

over_binary : {rs : List Read} {d : Dialling} → Connects rs d → Connects (binary ∷ rs) d
unfolding frames
over_binary (connects c) = connects (record {
  left = c.left;
  over = c.over;
  passed = c.passed;
  connecting_frame = c.connecting_frame;
  in_order = c.in_order;
  passed_over = c.passed_over;
  connecting = c.connecting;
  answered = c.answered;
})
over_binary (not_connected n) = not_connected n

over_waiting :
    {rs : List Read} {d : Dialling} (f : Text) (pong : Option Text)
    → on_dial_frame f ≡ waiting pong
    → Connects rs d
    → Connects (frame f ∷ rs) (reply pong d)
unfolding frames reply
over_waiting f none e (connects c) = connects (record {
  left = c.left;
  over = c.over;
  passed = (f, none) ∷ c.passed;
  connecting_frame = c.connecting_frame;
  in_order = ap (λ fs. f ∷ fs) c.in_order;
  passed_over = (waiting-Passes f _ e, c.passed_over);
  connecting = c.connecting;
  answered = c.answered;
})
over_waiting f (some p) e (connects c) = connects (record {
  left = c.left;
  over = c.over;
  passed = (f, some p) ∷ c.passed;
  connecting_frame = c.connecting_frame;
  in_order = ap (λ fs. f ∷ fs) c.in_order;
  passed_over = (waiting-Passes f _ e, c.passed_over);
  connecting = c.connecting;
  answered = ap (λ fs. p ∷ fs) c.answered;
})
over_waiting f none e (not_connected n) = not_connected n
over_waiting f (some p) e (not_connected n) = not_connected n

over_frame :
    (urls : Urls) (f : Text) (r : Dialled) (rs : List Read) (rest : Dialling)
    → on_dial_frame f ≡ r
    → Connects rs rest
    → Connects (frame f ∷ rs) (on_awaited urls f r rs rest)
unfolding on_awaited frames
over_frame urls f connected rs rest e c = connects (record {
  left = rs;
  over = refl;
  passed = [];
  connecting_frame = f;
  in_order = refl;
  passed_over = tt;
  connecting = connected-IsConnect f e;
  answered = refl;
})
over_frame urls f refused rs rest e c = not_connected (λ left o. cc)
over_frame urls f (waiting pong) rs rest e c = over_waiting f pong e c

await_connect-Connects : (urls : Urls) (rs : List Read) → Connects rs (await_connect urls rs)
unfolding await_connect
await_connect-Connects urls [] = not_connected (λ left e. cc)
await_connect-Connects urls (binary ∷ rs) = over_binary (await_connect-Connects urls rs)
await_connect-Connects urls (broken cause ∷ rs) = not_connected (λ left o. cc)
await_connect-Connects urls (frame f ∷ rs) =
    over_frame urls f (on_dial_frame f) rs (await_connect urls rs) refl
      (await_connect-Connects urls rs)

-- What has been read before the loop: an open packet with positive ping settings. The loop connects.
pub record IsOpened (decode : Text → Handshake) (rs : List Read) (d : Dialling) : Type 0 where
  pub packet : Text
  pub interval : ℕ
  pub timeout : ℕ
  pub rest : List Read
  pub begins : frames rs ≡ (b'0' ∷ packet) ∷ frames rest
  pub opened : decode packet ≡ settings (pos (suc interval)) (pos (suc timeout))
  pub connection : IsConnected rest d

from_connects :
    {rs : List Read} {d : Dialling} (left : List Read)
    → Connects rs d
    → d.reading ≡ connected_with left
    → IsConnected rs d
from_connects left (connects c) e = c
from_connects left (not_connected n) e = absurd (n left e)

is_positive→suc : (z : ℤ) → is_positive z ≡ true → (n : ℕ) × (z ≡ pos (suc n))
unfolding is_positive
is_positive→suc (pos zero) h = ground arith
is_positive→suc (pos (suc n)) h = (n, refl)
is_positive→suc (negsuc n) h = cc

-- A reading that goes on behind a test has passed it.
passed_test :
    (x : DialError) (y : Dialling) (left : List Read) (c : Bool)
    → (if c then record { sent = []; reading = ends x } else y).reading ≡ connected_with left
    → (c ≡ false) × (y.reading ≡ connected_with left)
passed_test x y left true o = cc
passed_test x y left false o = (refl, o)

taken_test :
    (x : DialError) (y : Dialling) (left : List Read) (c : Bool)
    → (if c then y else record { sent = []; reading = ends x }).reading ≡ connected_with left
    → (c ≡ true) × (y.reading ≡ connected_with left)
taken_test x y left true o = (refl, o)
taken_test x y left false o = cc

on_handshake-IsOpened :
    (urls : Urls) (decode : Text → Handshake) (packet : Text) (h : Handshake) (rs left : List Read)
    → decode packet ≡ h
    → (on_handshake urls h rs).reading ≡ connected_with left
    → IsOpened decode (frame (b'0' ∷ packet) ∷ rs) (on_handshake urls h rs)
unfolding on_handshake frames
on_handshake-IsOpened urls decode packet (undecoded cause) rs left e o = cc
on_handshake-IsOpened urls decode packet (settings i t) rs left e o =
    let c : ((not (is_positive i) || not (is_positive t)) ≡ false)
        × ((await_connect urls rs).reading ≡ connected_with left) =
      passed_test _ _ left _ o in
    let a : (n : ℕ) × (i ≡ pos (suc n)) = is_positive→suc i (ground (arith, c.0)) in
    let b : (n : ℕ) × (t ≡ pos (suc n)) = is_positive→suc t (ground (arith, c.0)) in
    record {
      packet = packet;
      interval = a.0;
      timeout = b.0;
      rest = rs;
      begins = refl;
      opened = e ∙ ap (λ z. settings z t) a.1 ∙ ap (settings (pos (suc a.0))) b.1;
      connection = rw (c.0) (from_connects left (await_connect-Connects urls rs) c.1);
    }

-- The first frame is an open packet, or the reading is over.
on_open-IsOpened :
    (urls : Urls) (decode : Text → Handshake) (f : Text) (rs : List Read) (left : List Read)
    → (on_open urls decode f rs).reading ≡ connected_with left
    → IsOpened decode (frame f ∷ rs) (on_open urls decode f rs)
unfolding on_open
on_open-IsOpened urls decode [] rs left o = cc
on_open-IsOpened urls decode (c ∷ f) rs left o =
    let h : (c == b'0' ≡ true) × ((on_handshake urls (decode f) rs).reading ≡ connected_with left) =
      taken_test _ _ left _ o in
    rw (h.0)
      (rw ((==_iff c b'0').0 h.0) (on_handshake-IsOpened urls decode f (decode f) rs left refl h.1))

await_open-IsOpened :
    (urls : Urls) (decode : Text → Handshake) (rs left : List Read)
    → (await_open urls decode rs).reading ≡ connected_with left
    → IsOpened decode rs (await_open urls decode rs)
unfolding await_open frames
await_open-IsOpened urls decode [] left o = cc
await_open-IsOpened urls decode (binary ∷ rs) left o =
    let h = await_open-IsOpened urls decode rs left o in
    record {
      packet = h.packet;
      interval = h.interval;
      timeout = h.timeout;
      rest = h.rest;
      begins = h.begins;
      opened = h.opened;
      connection = h.connection;
    }
await_open-IsOpened urls decode (broken cause ∷ rs) left o = cc
await_open-IsOpened urls decode (frame f ∷ rs) left o = on_open-IsOpened urls decode f rs left o

-- A reading that is connected has dialled the endpoint and has been opened.
pub record IsDialled (urls : Urls) (decode : Text → Handshake) (dial_websocket : Text → Option Text)
    (session_url : Text) (rs : List Read) (d : Dialling) : Type 0 where
  pub url : Text
  pub endpoint_url : socket_url urls session_url ≡ done url
  pub dialled : dial_websocket url ≡ none
  pub is_opened : IsOpened decode rs d

websocket-IsDialled :
    (urls : Urls) (decode : Text → Handshake) (dial_websocket : Text → Option Text)
    (session_url url : Text) (w : Option Text) (rs left : List Read)
    → socket_url urls session_url ≡ done url
    → dial_websocket url ≡ w
    → (on_websocket urls decode url w rs).reading ≡ connected_with left
    → IsDialled urls decode dial_websocket session_url rs (on_websocket urls decode url w rs)
unfolding on_websocket
websocket-IsDialled urls decode dw session_url url none rs left e w o = record {
  url = url;
  endpoint_url = e;
  dialled = w;
  is_opened = await_open-IsOpened urls decode rs left o;
}
websocket-IsDialled urls decode dw session_url url (some m) rs left e w o = cc

endpoint-IsDialled :
    (urls : Urls) (decode : Text → Handshake) (dial_websocket : Text → Option Text)
    (session_url : Text) (f : Fallible Text) (rs left : List Read)
    → socket_url urls session_url ≡ f
    → (on_endpoint urls decode dial_websocket f rs).reading ≡ connected_with left
    → IsDialled urls decode dial_websocket session_url rs
        (on_endpoint urls decode dial_websocket f rs)
unfolding on_endpoint
endpoint-IsDialled urls decode dw session_url (failed x) rs left e o = cc
endpoint-IsDialled urls decode dw session_url (done url) rs left e o =
    websocket-IsDialled urls decode dw session_url url (dw url) rs left e refl o

-- `Dial` connects only when the socket at the endpoint of the session URL could be dialled, the first
-- text frame it has sent is an open packet whose ping settings are positive, and of the frames after
-- it one is the packet that connects, and all those before it are pings and noops. It has then answered
-- each ping among these with a pong of the same data, in order, and nothing else, and the frames after
-- the one that connects are still to be read.
pub dial-connected :
    (urls : Urls) (decode : Text → Handshake) (dial_websocket : Text → Option Text)
    (session_url : Text) (rs left : List Read)
    → (dial urls decode dial_websocket session_url rs).reading ≡ connected_with left
    → IsDialled urls decode dial_websocket session_url rs
        (dial urls decode dial_websocket session_url rs)
unfolding dial
dial-connected urls decode dw session_url rs left o =
    endpoint-IsDialled urls decode dw session_url (socket_url urls session_url) rs left refl o
