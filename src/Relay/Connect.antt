-- ===== src/Relay/Connect.antt =====
-- The relay's thread: SubAckReason, AwaitSubAck, ConnectAndSubscribe, Start, Stop and ThreadMain of
-- src/Relay.cpp.
-- What the transport does is a parameter: whether it connects and what it sends, and what each Recv gave.
-- Such a list ends where the deadline has passed or the thread is to stop.
pub mod Deliveries
pub mod Granted
pub mod Backoff
pub mod Kept
use euroscope_plugin_bridge.Prelude.{
  ℕ, zero, suc, ◌+◌, ◌*◌, Bool, true, false, not, ◌||◌, ◌&&◌, List, [], ◌∷◌, ◌++◌, Option, none,
  some, ltb, leb, ◌==◌, if◌then◌else◌, length, drop,
}
use euroscope_plugin_bridge.Text.{Bytes}
use euroscope_plugin_bridge.Mqtt.{
  Packet, fresh_packet, Will, ok, need_more, malformed, decode, encode_connect, encode_publish,
  encode_subscribe, encode_disconnect, publish_type, suback_type, connack_type,
}
use euroscope_plugin_bridge.Relay.{
  Identity, Relay, Trouble, connect_failed, connect_not_sent, closed_before_connack,
  malformed_connack, connection_refused, subscribe_not_sent, closed_before_suback, malformed_suback,
  subscription_refused, suback_timeout, connack_timeout, set_error, handle_publish, handle_packet,
  room_topic, slash, presence_part, pump_outbound, pump_inbound,
}

-- SubAckReason gives no reason.
pub is_granted : ℕ → Bool
is_granted code = (code == 0x00) || ((code == 0x01) || (code == 0x02))

pub data Verdict : Type 0 where
  pending granted failed : Verdict

-- The inner loop of AwaitSubAck, a round for each packet at the front of m_rx.
pub scan_suback : ℕ → Relay → Relay × Verdict
scan_suback zero r = (r, pending)
scan_suback (suc fuel) r = elim (decode r.rx fresh_packet) [
  | need_more ↦ (r, pending)
  | malformed ↦ (set_error r malformed_suback, failed)
  | ok p consumed ↦
      let left = record r { rx = drop consumed r.rx } in
      if p.type == publish_type
      then scan_suback fuel (handle_publish left p.topic p.payload p.props)
      else (if not (p.type == suback_type)
          then scan_suback fuel left
          else (if is_granted p.return_code
              then (left, granted)
              else (set_error left (subscription_refused p.return_code), failed)))
]

pub await_suback : Relay → List (Option Bytes) → Relay × Bool
await_suback r [] = (set_error r suback_timeout, false)
await_suback r (none ∷ reads) = (set_error r closed_before_suback, false)
await_suback r (some chunk ∷ reads) =
    let received = record r { rx = r.rx ++ chunk } in
    let scanned = scan_suback (suc (length received.rx)) received in
    let waited = await_suback scanned.0 reads in
    elim scanned.1 [ pending ↦ waited | granted ↦ (scanned.0, true) | failed ↦ (scanned.0, false) ]

-- "esb-<room>-<controller>"
abbrev pub client_id : Identity → Bytes
client_id id = b'e' ∷ b's' ∷ b'b' ∷ b'-' ∷ (id.room ++ (b'-' ∷ id.controller))

-- "esb/v1/<room>/<controller>/@presence"
abbrev pub presence_topic : Identity → Bytes
presence_topic id = room_topic id (id.controller ++ slash presence_part)

-- "esb/v1/<room>/#"
abbrev pub room_filter : Identity → Bytes
room_filter id = room_topic id (b'#' ∷ [])

abbrev pub keep_alive_seconds : ℕ
keep_alive_seconds = 30

abbrev pub connect_packet : Identity → Bytes
connect_packet id =
    encode_connect (client_id id) id.username id.password keep_alive_seconds
      (some (record { topic = presence_topic id; payload = []; retain = true }))

abbrev pub subscribe_packet : Identity → Bytes
subscribe_packet id = encode_subscribe 1 (room_filter id)

abbrev pub presence_packet : Identity → Bytes
presence_packet id = encode_publish (presence_topic id) id.controller true []

-- What follows a CONNACK without an error. The packets are those that were sent; whether the presence is
-- taken is not looked at.
pub subscribe : Bool → Relay → List (Option Bytes) → Relay × List Bytes × Bool
subscribe accepts r reads =
    let waited = await_suback r reads in
    if not accepts
    then (set_error r subscribe_not_sent, [], false)
    else (if waited.1
        then (
          record waited.0 { connected = true },
          subscribe_packet r.identity ∷ presence_packet r.identity ∷ [],
          true,
        )
        else (waited.0, subscribe_packet r.identity ∷ [], false))

-- The wait for a CONNACK: one packet is looked at after each Recv.
pub await_connack : Bool → Relay → List (Option Bytes) → Relay × List Bytes × Bool
await_connack accepts r [] = (set_error r connack_timeout, [], false)
await_connack accepts r (none ∷ reads) = (set_error r closed_before_connack, [], false)
await_connack accepts r (some chunk ∷ reads) =
    let received = record r { rx = r.rx ++ chunk } in
    let waited = await_connack accepts received reads in
    elim (decode received.rx fresh_packet) [
      | malformed ↦ (set_error received malformed_connack, [], false)
      | need_more ↦ waited
      | ok p consumed ↦
          let left = record received { rx = drop consumed received.rx } in
          if not (p.type == connack_type)
          then await_connack accepts left reads
          else (if not (p.return_code == 0)
              then (set_error left (connection_refused p.return_code), [], false)
              else subscribe accepts left reads)
    ]

-- What the transport does in one attempt.
pub record Attempt : Type 0 where
  pub connects : Bool
  pub takes_connect : Bool
  pub takes_subscribe : Bool
  pub reads : List (Option Bytes)

pub connect_and_subscribe : Attempt → Relay → Relay × List Bytes × Bool
connect_and_subscribe a r =
    let fresh = record r { rx = [] } in
    let (waited, sent, up) = await_connack a.takes_subscribe fresh a.reads in
    if not a.connects
    then (set_error r connect_failed, [], false)
    else (if not a.takes_connect
        then (set_error r connect_not_sent, [], false)
        else (waited, connect_packet r.identity ∷ sent, up))

-- `backoffMs` behind the wait for it.
pub next_backoff : ℕ → ℕ
next_backoff ms = if ltb ms 30000 then ms * 2 else 30000

abbrev pub first_backoff : ℕ
first_backoff = 1000

-- The wait of `backoffMs`, in steps of 100 milliseconds: how long it lasts. Whether m_stop is set by then
-- is asked before each step. A step takes a hundred, so that the milliseconds are steps enough.
pub back_off : ℕ → (ℕ → Bool) → ℕ → ℕ → ℕ
back_off zero stops waited ms = waited
back_off (suc steps) stops waited ms =
    let rest = back_off steps stops (waited + 100) ms in
    if ltb waited ms && not (stops waited) then rest else waited

-- What the transport does in one round of ThreadMain, and when in a wait m_stop is set.
pub record Round : Type 0 where
  pub is_connected : Bool
  pub attempt : Attempt
  pub stops : ℕ → Bool
  pub accepts : ℕ → Bool
  pub read : Option Bytes
  pub ping_due : Bool
  pub takes_ping : Bool

-- PumpOutbound, then PumpInbound, with the pause that follows.
pub pump : Round → Relay → Relay × ℕ
pump round r =
    let received =
      pump_inbound (pump_outbound round.accepts r).0 round.read round.ping_due round.takes_ping in
    if received.1 then (received.0, 20) else (record received.0 { connected = false }, 0)

-- The body of the loop of ThreadMain, on the relay and `backoffMs`, with the milliseconds that it sleeps.
pub thread_round : Round → Relay × ℕ → (Relay × ℕ) × ℕ
thread_round round (r, backoff) =
    let (tried, sent, up) = connect_and_subscribe round.attempt r in
    let (pumped, pause) = pump round (if round.is_connected then r else tried) in
    if round.is_connected
    then ((pumped, backoff), pause)
    else (if up
        then ((pumped, first_backoff), pause)
        else ((tried, next_backoff backoff), back_off backoff round.stops 0 backoff))

-- The state behind the rounds, and what each of them slept.
pub thread_rounds : List Round → Relay × ℕ → (Relay × ℕ) × List ℕ
thread_rounds [] state = (state, [])
thread_rounds (round ∷ rounds) state =
    let (next, slept) = thread_round round state in
    let (last, others) = thread_rounds rounds next in (last, slept ∷ others)

-- Stop, once the thread has ended.
pub stop : Relay → Relay
stop r = if not r.running then r else record r { running = false; connected = false }

-- Start up to the thread's first round.
pub start : Identity → Relay → Relay
start id r = record (stop r) { identity = id; running = true }

-- ThreadMain behind its loop, with whether the transport is connected.
pub finish_thread : Bool → Relay → Relay × List Bytes
finish_thread is_connected r =
    (record r { connected = false }, if is_connected then encode_disconnect ∷ [] else [])
