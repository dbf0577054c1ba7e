-- ===== src/Relay/Queues.antt =====
-- What the relay keeps in check, whatever arrives: the two bounded queues and the peers of src/Relay.cpp.
pub mod Peers
pub mod Newest
pub mod Steps
use euroscope_plugin_bridge.Prelude.{
  ℕ, zero, suc, ◌+◌, ◌≤◌, Bool, true, false, not, ◌||◌, List, [], ◌∷◌, ◌++◌, Option, none, some,
  ◌≡◌, ◌⊎◌, ◌<◌, refl, sym, ap, ◌∙◌, subst, leb, ltb, ◌==◌, if◌then◌else◌, arith, length, drop,
  length-append, bytes_eq, Bool-cases, Option-cases, inl, inr, lt→leb,
}
use euroscope_plugin_bridge.Mqtt.{
  Packet, fresh_packet, Properties, is_empty, ok, need_more, malformed, decode, publish_type,
}
use euroscope_plugin_bridge.Mqtt.Frame.{DecodeResult-cases}
use euroscope_plugin_bridge.Text.{Bytes}
use euroscope_plugin_bridge.Relay.{
  Identity, Message, Relay, max_outbound_queue, max_inbound_queue, drop_oldest, push_outbound,
  pop_inbound, accept, metadata, handle_presence, handle_value, handle_parts, handle_publish,
  handle_packet, has_peer, erase_peer, send_batch, drain_rx, set_error, split, malformed_packet,
  esb_part, v1_part, presence_part, note_rejected,
}
use euroscope_plugin_bridge.Relay.Stream.{with_rx}
use euroscope_plugin_bridge.Relay.Queues.Peers.{
  ArePeerNames, push-ArePeerNames, erase_peer-ArePeerNames,
}

-- No queue is longer than its bound, and the peers are the names of others, each of them once.
pub record AreQueues (id : Identity) (outbound inbound : List Message) (peers : List Bytes)
    : Type 0 where
  pub few_out : length outbound ≤ max_outbound_queue
  pub few_in : length inbound ≤ max_inbound_queue
  pub others : ArePeerNames id.controller peers

abbrev pub IsRelay : Relay → Type 0
IsRelay r = AreQueues r.identity r.outbound r.inbound r.peers

room_left :
    (ms : List Message)
    → leb max_outbound_queue (length ms) ≡ false
    → length ms < max_outbound_queue
room_left ms h = ground arith

drop_oldest_room :
    (ms : List Message)
    → length ms ≤ max_outbound_queue
    → length (drop_oldest ms) < max_outbound_queue
drop_oldest_room [] h = omega arith
drop_oldest_room (m ∷ ms) h = omega arith

push_fits :
    (ms : List Message) (m : Message)
    → length ms < max_outbound_queue
    → length (ms ++ (m ∷ [])) ≤ max_outbound_queue
push_fits ms m h = omega (arith, length-append ms (m ∷ []))

popped_fits :
    (all : List Message) (m : Message) (ms : List Message)
    → all ≡ m ∷ ms
    → length all ≤ max_inbound_queue
    → length ms ≤ max_inbound_queue
popped_fits all m ms e h = omega (arith, ap length e)

List-cases :
    (ms : List Message) → (ms ≡ []) ⊎ ((m : Message) × (rest : List Message) × (ms ≡ m ∷ rest))
List-cases [] = inl refl
List-cases (m ∷ ms) = inr (m, ms, refl)

pub push_outbound-IsRelay : (r : Relay) (m : Message) → IsRelay r → IsRelay (push_outbound r m)
unfolding push_outbound
push_outbound-IsRelay r m h = elim (Bool-cases (leb max_outbound_queue (length r.outbound))) [
  | inl q ↦ rw q (record {
    few_out = push_fits _ m (drop_oldest_room r.outbound h.few_out);
    few_in = h.few_in;
    others = h.others;
  })
  | inr q ↦
      rw q
        (record { few_out = push_fits _ m (room_left _ q); few_in = h.few_in; others = h.others })
]

pub pop_inbound-IsRelay : (r : Relay) → IsRelay r → IsRelay (pop_inbound r).0
unfolding pop_inbound
pop_inbound-IsRelay r h = elim (List-cases r.inbound) [
  | inl q ↦ rw (q, pop_inbound) h
  | inr (m, ms, q) ↦
      rw (q, pop_inbound)
        (record {
          few_out = h.few_out;
          few_in = popped_fits r.inbound m ms q h.few_in;
          others = h.others;
        })
]

pub accept-IsRelay : (r : Relay) (m : Message) → IsRelay r → IsRelay (accept r m)
unfolding accept
accept-IsRelay r m h = elim (Bool-cases (leb max_inbound_queue (length r.inbound))) [
  | inl q ↦ rw q h
  | inr q ↦
      rw q
        (record { few_out = h.few_out; few_in = push_fits _ m (room_left _ q); others = h.others })
]

handle_presence-IsRelay :
    (r : Relay) (controller payload : Bytes)
    → IsRelay r
    → IsRelay (handle_presence r controller payload)
unfolding handle_presence
handle_presence-IsRelay r controller payload h = elim (Bool-cases (is_empty payload)) [
  | inl q ↦ rw q (record {
    few_out = h.few_out;
    few_in = h.few_in;
    others = erase_peer-ArePeerNames r.identity.controller controller r.peers h.others;
  })
  | inr q ↦ elim (Bool-cases (has_peer controller r.peers)) [
    | inl w ↦ rw (q, w) h
    | inr w ↦ elim (Bool-cases (bytes_eq controller r.identity.controller)) [
      | inl v ↦ rw (q, w, v) h
      | inr v ↦
          rw (q, w, v)
            (record {
              few_out = h.few_out;
              few_in = h.few_in;
              others = push-ArePeerNames r.identity.controller controller r.peers v w h.others;
            })
    ]
  ]
]

handle_value-IsRelay :
    (r : Relay) (controller provider field : Bytes) (more : List Bytes) (payload : Bytes)
    (props : Properties)
    → IsRelay r
    → IsRelay (handle_value r controller provider field more payload props)
unfolding handle_value
handle_value-IsRelay r controller provider field more payload props h =
    elim (Option-cases (metadata props)) [
      | inl q ↦ rw (q, handle_value) h
      | inr (v, q) ↦ rw (q, handle_value) (accept-IsRelay r _ h)
    ]

pub if-IsRelay : (b : Bool) (x y : Relay) → IsRelay x → IsRelay y → IsRelay (if b then x else y)
if-IsRelay true x y hx hy = hx
if-IsRelay false x y hx hy = hy

handle_parts-IsRelay :
    (r : Relay) (parts : List Bytes) (payload : Bytes) (props : Properties)
    → IsRelay r
    → IsRelay (handle_parts r parts payload props)
unfolding handle_parts
handle_parts-IsRelay r [] payload props h = h
handle_parts-IsRelay r (a ∷ []) payload props h = h
handle_parts-IsRelay r (a ∷ b ∷ []) payload props h = h
handle_parts-IsRelay r (a ∷ b ∷ c ∷ []) payload props h = h
handle_parts-IsRelay r (a ∷ b ∷ c ∷ d ∷ []) payload props h = h
handle_parts-IsRelay r (a ∷ b ∷ c ∷ d ∷ e ∷ []) payload props h =
    if-IsRelay _ r _ h
      (if-IsRelay _ _ _ (handle_presence-IsRelay r d payload h) (if-IsRelay _ r r h h))
handle_parts-IsRelay r (a ∷ b ∷ c ∷ d ∷ e ∷ f ∷ more) payload props h = if-IsRelay _ r _ h (
    if-IsRelay _ _ _ (handle_presence-IsRelay r d payload h)
      (if-IsRelay _ r _ h (handle_value-IsRelay r d e f more payload props h)))

pub handle_publish-IsRelay :
    (r : Relay) (topic payload : Bytes) (props : Properties)
    → IsRelay r
    → IsRelay (handle_publish r topic payload props)
unfolding handle_publish
handle_publish-IsRelay r topic payload props = handle_parts-IsRelay r (split topic) payload props

pub drain_rx-IsRelay : (fuel : ℕ) (r : Relay) → IsRelay r → IsRelay (drain_rx fuel r).0
unfolding drain_rx
drain_rx-IsRelay zero r h = h
drain_rx-IsRelay (suc fuel) r h = elim (DecodeResult-cases (decode r.rx fresh_packet)) [
  | inl q ↦ rw (q, drain_rx) h
  | inr (d, inl q) ↦ rw (q, drain_rx) h
  | inr (d, inr (p, n, q)) ↦
      let left = with_rx (drop n r.rx) r in
      rw (q, drain_rx)
        (drain_rx-IsRelay fuel (handle_packet left p)
          (if-IsRelay _ _ _ (handle_publish-IsRelay left p.topic p.payload p.props h) h))
]

-- What is sent leaves the queues as they are.
pub send_batch-IsRelay :
    (accepts : ℕ → Bool) (n : ℕ) (r : Relay) (batch : List Message)
    → IsRelay r
    → IsRelay (send_batch accepts n r batch).0
unfolding send_batch
send_batch-IsRelay accepts n r [] h = h
send_batch-IsRelay accepts n r (m ∷ batch) h = elim (Bool-cases (accepts n)) [
  | inl q ↦ rw q (send_batch-IsRelay accepts (n + 1) _ batch h)
  | inr q ↦ rw q h
]
