-- ===== src/Relay/Connect/Granted.antt =====
-- A broker that answers: ConnectAndSubscribe and AwaitSubAck of src/Relay.cpp.
use euroscope_plugin_bridge.Prelude.{
  ltb, ℕ, suc, ◌+◌, ◌-◌, ◌^◌, ◌<◌, Bool, true, false, List, [], ◌∷◌, ◌++◌, Option, some, ◌≡◌, refl,
  sym, ap, ◌∙◌, if◌then◌else◌, All, arith, length, map, length-append, drop-append, drop-length,
  append-nil, Bool-cases, inl, inr,
}
use euroscope_plugin_bridge.Mqtt.{fresh_packet, frame, decode, suback_type, connack_type}
use euroscope_plugin_bridge.Mqtt.Acks.{suback_body, decode_suback_lem, decode_connack_lem}
use euroscope_plugin_bridge.Text.{Bytes}
use euroscope_plugin_bridge.Relay.{Identity, Relay, set_error, subscription_refused}
use euroscope_plugin_bridge.Relay.Stream.{with_rx}
use euroscope_plugin_bridge.Relay.Deliver.{stream_of}
use euroscope_plugin_bridge.Relay.Connect.{
  scan_suback, await_suback, await_connack, connect_and_subscribe, subscribe, is_granted, Verdict,
  pending, granted, failed, connect_packet, subscribe_packet, presence_packet,
}
use euroscope_plugin_bridge.Relay.Connect.Deliveries.{
  Delivery, Fits, delivery_packet, handle_all, scan_suback-batch, rounds_enough,
}

-- A SUBACK with a reason code for the one filter.
abbrev pub suback_packet : ℕ → Bytes → Bytes
suback_packet code block = frame suback_type 0 (suback_body 1 block (code ∷ []))

-- What a reason code makes of the wait.
abbrev pub answer : ℕ → Relay → Relay × Verdict
answer code r =
    if is_granted code then (r, granted) else (set_error r (subscription_refused code), failed)

scan_suback-answer :
    (k code : ℕ) (r : Relay) (block rest : Bytes)
    → length (suback_body 1 block (code ∷ [])) < 2 ^ 28
    → scan_suback (suc k) (with_rx (suback_packet code block ++ rest) r)
      ≡ answer code (with_rx rest r)
unfolding scan_suback
scan_suback-answer k code r block rest fits =
    rw (decode_suback_lem 1 code block [] rest fresh_packet (omega arith) fits, scan_suback)
      (rw (drop-append (suback_packet code block) rest) refl)

scan_suback-stream :
    (r : Relay) (batch : List Delivery) (code : ℕ) (block rest : Bytes)
    → All Fits batch
    → length (suback_body 1 block (code ∷ [])) < 2 ^ 28
    → let stream = stream_of (map delivery_packet batch) ++ (suback_packet code block ++ rest) in
      scan_suback (suc (length stream)) (with_rx stream r)
      ≡ answer code (with_rx rest (handle_all r batch))
scan_suback-stream r batch code block rest can fits =
    let front = stream_of (map delivery_packet batch) in
    let back = suback_packet code block ++ rest in
    let enough = rounds_enough batch can in
    let spare = length (front ++ back) - length batch in
    let rounds : suc (length (front ++ back)) ≡ length batch + suc spare =
      omega (arith, enough, length-append front back) in
    ap (λ n. scan_suback n (with_rx (front ++ back) r)) rounds
    ∙ scan_suback-batch (suc spare) r batch back can
    ∙ scan_suback-answer spare code (handle_all r batch) block rest fits

-- What the wait for a SUBACK comes to.
abbrev pub outcome : ℕ → Relay → Relay × Bool
outcome code r =
    if is_granted code then (r, true) else (set_error r (subscription_refused code), false)

-- What AwaitSubAck does after its inner loop.
abbrev settle : List (Option Bytes) → Relay × Verdict → Relay × Bool
settle reads (r, pending) = await_suback r reads
settle reads (r, granted) = (r, true)
settle reads (r, failed) = (r, false)

await_suback-settled :
    (r left : Relay) (chunk : Bytes) (reads : List (Option Bytes)) (code : ℕ)
    → scan_suback (suc (length (r.rx ++ chunk))) (with_rx (r.rx ++ chunk) r) ≡ answer code left
    → await_suback r (some chunk ∷ reads) ≡ outcome code left
unfolding await_suback
await_suback-settled r left chunk reads code scanned =
    ap (settle reads) scanned
    ∙ elim (Bool-cases (is_granted code)) [ inl q ↦ rw q refl | inr q ↦ rw q refl ]

await_suback-stream :
    (r : Relay) (batch : List Delivery) (code : ℕ) (block rest : Bytes)
    (reads : List (Option Bytes))
    → r.rx ≡ []
    → All Fits batch
    → length (suback_body 1 block (code ∷ [])) < 2 ^ 28
    → await_suback r
        (some (stream_of (map delivery_packet batch) ++ (suback_packet code block ++ rest)) ∷ reads)
      ≡ outcome code (with_rx rest (handle_all r batch))
await_suback-stream r batch code block rest reads none_left can fits =
    let stream = stream_of (map delivery_packet batch) ++ (suback_packet code block ++ rest) in
    await_suback-settled r _ stream reads code (
      ap (λ s. scan_suback (suc (length (s ++ stream))) (with_rx (s ++ stream) r)) none_left
      ∙ scan_suback-stream r batch code block rest can fits)

-- The CONNACK that accepts the connection.
abbrev pub connack_packet : ℕ → Bytes → Bytes
connack_packet acknowledge props = frame connack_type 0 (acknowledge ∷ 0 ∷ props)

await_connack-accepted :
    (r : Relay) (acknowledge : ℕ) (props : Bytes) (reads : List (Option Bytes))
    → length props + 2 < 2 ^ 28
    → await_connack true (with_rx [] r) (some (connack_packet acknowledge props) ∷ reads)
      ≡ subscribe true (with_rx [] r) reads
unfolding await_connack
await_connack-accepted r acknowledge props reads fits =
    let packet = connack_packet acknowledge props in
    let whole = decode_connack_lem acknowledge 0 props [] fresh_packet fits in
    let bytes : decode packet fresh_packet ≡ decode (packet ++ []) fresh_packet =
      ap (λ s. decode s fresh_packet) (sym (append-nil packet)) in
    rw (bytes ∙ whole, await_connack) (rw (drop-length packet) refl)

is_granted_lem : (code : ℕ) → is_granted code ≡ ltb code 3
unfolding is_granted
is_granted_lem code = ground arith

-- What the answer to the SUBSCRIBE makes of the connection.
abbrev pub connection : Identity → ℕ → Relay → Relay × List Bytes × Bool
connection id code r =
    if ltb code 3
    then (
      record r { connected = true },
      connect_packet id ∷ subscribe_packet id ∷ presence_packet id ∷ [],
      true,
    )
    else (
      set_error r (subscription_refused code),
      connect_packet id ∷ subscribe_packet id ∷ [],
      false,
    )

subscribe-answered :
    (r : Relay) (batch : List Delivery) (code : ℕ) (block rest : Bytes)
    (reads : List (Option Bytes))
    → All Fits batch
    → length (suback_body 1 block (code ∷ [])) < 2 ^ 28
    → let answers = stream_of (map delivery_packet batch) ++ (suback_packet code block ++ rest) in
      let subscribed = subscribe true (with_rx [] r) (some answers ∷ reads) in
      (subscribed.0, connect_packet r.identity ∷ subscribed.1, subscribed.2)
      ≡ connection r.identity code (with_rx rest (handle_all (with_rx [] r) batch))
unfolding subscribe
subscribe-answered r batch code block rest reads can small =
    let waited = await_suback-stream (with_rx [] r) batch code block rest reads refl can small in
    let both = is_granted_lem code in
    elim (Bool-cases (ltb code 3)) [
      | inl q ↦ rw (waited, both ∙ q, q) refl
      | inr q ↦ rw (waited, both ∙ q, q) refl
    ]

-- A broker accepts the connection, in a read of its own, and then, in one read, delivers any PUBLISH
-- packets and answers the SUBSCRIBE: values, presences and the relay's own words of whatever controllers,
-- where each fits the limits of MQTT, and the body of either answer is shorter than 2 ^ 28 bytes. The
-- transport takes what the relay sends. The subscription is granted by the codes 0, 1 and 2 alone. Then the
-- relay is connected and has announced its presence; by any other code it has not, and its error tells the
-- code. Either way HandlePublish has taken, in their order, all the packets that came before the answer,
-- and the bytes behind the answer are kept for PumpInbound.
pub connect_and_subscribe-answered :
    (r : Relay) (batch : List Delivery) (acknowledge code : ℕ) (props block rest : Bytes)
    (reads : List (Option Bytes))
    → All Fits batch
    → length props + 2 < 2 ^ 28
    → length (suback_body 1 block (code ∷ [])) < 2 ^ 28
    → let answers = stream_of (map delivery_packet batch) ++ (suback_packet code block ++ rest) in
      connect_and_subscribe
        (record {
          connects = true;
          takes_connect = true;
          takes_subscribe = true;
          reads = some (connack_packet acknowledge props) ∷ some answers ∷ reads;
        })
        r
      ≡ connection r.identity code (with_rx rest (handle_all (with_rx [] r) batch))
unfolding connect_and_subscribe
connect_and_subscribe-answered r batch acknowledge code props block rest reads can fits small =
    let answers = stream_of (map delivery_packet batch) ++ (suback_packet code block ++ rest) in
    ap (λ x. (x.0, connect_packet r.identity ∷ x.1, x.2))
      (await_connack-accepted r acknowledge props (some answers ∷ reads) fits)
    ∙ subscribe-answered r batch code block rest reads can small
