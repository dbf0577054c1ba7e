-- ===== src/Relay/Connect/Kept.antt =====
-- Connecting keeps the queues and the peers in check: AwaitSubAck and ConnectAndSubscribe of src/Relay.cpp.
use euroscope_plugin_bridge.Prelude.{
  ap, subst, ◌∙◌, ℕ, zero, suc, Bool, true, false, List, [], ◌∷◌, ◌++◌, Option, none, some, ◌≡◌,
  ◌⊎◌, refl, ◌==◌, length, drop, Bool-cases, inl, inr,
}
use euroscope_plugin_bridge.Mqtt.{fresh_packet, decode, publish_type, suback_type, connack_type}
use euroscope_plugin_bridge.Mqtt.Frame.{DecodeResult-cases}
use euroscope_plugin_bridge.Text.{Bytes}
use euroscope_plugin_bridge.Relay.{Identity, Relay}
use euroscope_plugin_bridge.Relay.Connect.{
  start, stop, finish_thread, Attempt, connect_and_subscribe, await_connack, await_suback,
  scan_suback, subscribe, is_granted, Verdict, pending, granted, failed,
}
use euroscope_plugin_bridge.Relay.Queues.Peers.{ArePeerNames}
use euroscope_plugin_bridge.Relay.Queues.{IsRelay, handle_publish-IsRelay}

scan_suback-IsRelay : (fuel : ℕ) (r : Relay) → IsRelay r → IsRelay (scan_suback fuel r).0
unfolding scan_suback
scan_suback-IsRelay zero r h = h
scan_suback-IsRelay (suc fuel) r h = elim (DecodeResult-cases (decode r.rx fresh_packet)) [
  | inl q ↦ rw (q, scan_suback) h
  | inr (d, inl q) ↦ rw (q, scan_suback) h
  | inr (d, inr (p, n, q)) ↦
      let left = record r { rx = drop n r.rx } in
      rw (q, scan_suback)
        (elim (Bool-cases (p.type == publish_type)) [
          | inl w ↦
              rw (w, scan_suback)
                (scan_suback-IsRelay fuel _
                  (handle_publish-IsRelay left p.topic p.payload p.props h))
          | inr w ↦ elim (Bool-cases (p.type == suback_type)) [
            | inl v ↦ elim (Bool-cases (is_granted p.return_code)) [
              | inl u ↦ rw (w, v, u) h
              | inr u ↦ rw (w, v, u) h
            ]
            | inr v ↦ rw (w, v) (scan_suback-IsRelay fuel left h)
          ]
        ])
]

Verdict-cases : (v : Verdict) → (v ≡ pending) ⊎ ((v ≡ granted) ⊎ (v ≡ failed))
Verdict-cases pending = inl refl
Verdict-cases granted = inr (inl refl)
Verdict-cases failed = inr (inr refl)

await_suback-IsRelay :
    (r : Relay) (reads : List (Option Bytes)) → IsRelay r → IsRelay (await_suback r reads).0
unfolding await_suback
await_suback-IsRelay r [] h = h
await_suback-IsRelay r (none ∷ reads) h = h
await_suback-IsRelay r (some chunk ∷ reads) h =
    let received = record r { rx = r.rx ++ chunk } in
    let scanned = scan_suback (suc (length received.rx)) received in
    let kept = scan_suback-IsRelay (suc (length received.rx)) received h in
    elim (Verdict-cases scanned.1) [
      | inl q ↦ rw (q, await_suback) (await_suback-IsRelay scanned.0 reads kept)
      | inr (inl q) ↦ rw (q, await_suback) kept
      | inr (inr q) ↦ rw (q, await_suback) kept
    ]

subscribe-IsRelay :
    (accepts : Bool) (r : Relay) (reads : List (Option Bytes))
    → IsRelay r
    → IsRelay (subscribe accepts r reads).0
unfolding subscribe
subscribe-IsRelay false r reads h = h
subscribe-IsRelay true r reads h =
    let kept = await_suback-IsRelay r reads h in
    elim (Bool-cases (await_suback r reads).1) [ inl q ↦ rw q kept | inr q ↦ rw q kept ]

await_connack-IsRelay :
    (accepts : Bool) (r : Relay) (reads : List (Option Bytes))
    → IsRelay r
    → IsRelay (await_connack accepts r reads).0
unfolding await_connack
await_connack-IsRelay accepts r [] h = h
await_connack-IsRelay accepts r (none ∷ reads) h = h
await_connack-IsRelay accepts r (some chunk ∷ reads) h =
    let received = record r { rx = r.rx ++ chunk } in
    elim (DecodeResult-cases (decode received.rx fresh_packet)) [
      | inl q ↦ rw (q, await_connack) (await_connack-IsRelay accepts received reads h)
      | inr (d, inl q) ↦ rw (q, await_connack) h
      | inr (d, inr (p, n, q)) ↦
          let left = record received { rx = drop n received.rx } in
          rw (q, await_connack)
            (elim (Bool-cases (p.type == connack_type)) [
              | inr w ↦ rw w (await_connack-IsRelay accepts left reads h)
              | inl w ↦ elim (Bool-cases (p.return_code == 0)) [
                | inr v ↦ rw (w, v) h
                | inl v ↦ rw (w, v) (subscribe-IsRelay accepts left reads h)
              ]
            ])
    ]

pub connect_and_subscribe-IsRelay :
    (a : Attempt) (r : Relay) → IsRelay r → IsRelay (connect_and_subscribe a r).0
unfolding connect_and_subscribe
connect_and_subscribe-IsRelay a r h =
    let kept = await_connack-IsRelay a.takes_subscribe (record r { rx = [] }) a.reads h in
    elim (Bool-cases a.connects) [
      | inr q ↦ rw q h
      | inl q ↦ elim (Bool-cases a.takes_connect) [ inr w ↦ rw (q, w) h | inl w ↦ rw (q, w) kept ]
    ]

pub finish_thread-IsRelay :
    (r : Relay) (is_connected : Bool) → IsRelay r → IsRelay (finish_thread is_connected r).0
unfolding finish_thread
finish_thread-IsRelay r is_connected h = h

pub stop-IsRelay : (r : Relay) → IsRelay r → IsRelay (stop r)
unfolding stop
stop-IsRelay r h = elim (Bool-cases r.running) [ inl q ↦ rw q h | inr q ↦ rw q h ]

stop-identity : (r : Relay) → (stop r).identity ≡ r.identity
unfolding stop
stop-identity r = elim (Bool-cases r.running) [ inl q ↦ rw q refl | inr q ↦ rw q refl ]

pub start-IsRelay :
    (r : Relay) (id : Identity)
    → r.identity.controller ≡ id.controller
    → IsRelay r
    → IsRelay (start id r)
unfolding start
start-IsRelay r id named h =
    let stopped = stop-IsRelay r h in
    record {
      few_out = stopped.few_out;
      few_in = stopped.few_in;
      others =
          subst (λ name. ArePeerNames name (stop r).peers)
            (ap (λ x. x.controller) (stop-identity r) ∙ named) stopped.others;
    }
