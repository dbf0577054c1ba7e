-- ===== src/Relay/Deliver.antt =====
-- From one relay to another: PumpOutbound of the sender and PumpInbound of the receiver, in src/Relay.cpp.
use euroscope_plugin_bridge.Prelude.{
  ℕ, suc, ◌+◌, ◌%◌, ◌^◌, ◌<◌, ◌≤◌, true, false, List, [], ◌∷◌, ◌++◌, some, ◌≡◌, refl, sym, ap, ◌∙◌,
  subst, append-nil, lt→leb, leb, All, arith, length, map, length-append, drop-append, append_assoc,
  bytes_eq, Bool-cases, inl, inr,
}
use euroscope_plugin_bridge.Mqtt.{Packet, fresh_packet, ok, decode, publish_type}
use euroscope_plugin_bridge.Mqtt.Properties.{IsShort, ArePropertiesShort}
use euroscope_plugin_bridge.Mqtt.RoundTrip.{publish_body, decode-encode_publish}
use euroscope_plugin_bridge.Mqtt.Frame.{decode_short}
use euroscope_plugin_bridge.Text.{Bytes}
use euroscope_plugin_bridge.Text.Decimal.{length-decimal}
use euroscope_plugin_bridge.Relay.{
  Identity, Message, Relay, topic_for, message_properties, message_packet, presence_part, accept,
  handle_packet, drain_rx, keep_alive, send_batch, pump_outbound, pump_inbound, max_inbound_queue,
}
use euroscope_plugin_bridge.Relay.Topic.{IsAddressed}
use euroscope_plugin_bridge.Relay.Publish.{IsSized, ArePeers, handle_publish-topic_for}
use euroscope_plugin_bridge.Relay.Stream.{
  handle_packet-with_rx, receive, drain, keep_alive_idle, with_rx, after_packet, drain_rx-ok,
  drain_rx-fuel, drain_rx-waits,
}

-- A message whose names fit a topic and whose packet fits the protocol.
pub record CanTravel (id : Identity) (m : Message) : Type 0 where
  pub provider : Bytes
  pub field : Bytes
  pub addressed : IsAddressed id m provider field
  pub plain : bytes_eq provider presence_part ≡ false
  pub sized : IsSized m
  pub short : IsShort (topic_for id m)
  pub fits : length (publish_body (topic_for id m) m.payload (message_properties m)) < 2 ^ 28

-- The message as the receiver files it.
abbrev pub from_peer : Bytes → Message → Message
from_peer name m = record m { peer = name }

message_properties-ArePropertiesShort :
    (m : Message) → IsSized m → ArePropertiesShort (message_properties m)
message_properties-ArePropertiesShort m sized =
    let short_type = length-decimal m.type (omega (arith, sized.small_type)) in
    let short_revision = length-decimal m.revision sized.small_revision in
    ((omega arith, omega (arith, short_type)), ((omega arith, omega (arith, short_revision)), tt))

-- What the decoder makes of it.
abbrev pub published_packet : Identity → Message → Packet
published_packet id m = record fresh_packet {
  type = publish_type;
  flags = 1;
  topic = topic_for id m;
  payload = m.payload;
  retain = true;
  props = message_properties m;
}

pub decode-message_packet :
    (id : Identity) (m : Message) (rest : Bytes)
    → CanTravel id m
    → decode (message_packet id m ++ rest) fresh_packet
      ≡ ok (published_packet id m) (length (message_packet id m))
decode-message_packet id m rest can =
    decode-encode_publish (topic_for id m) m.payload rest true (message_properties m) fresh_packet
      can.short (message_properties-ArePropertiesShort m can.sized) can.fits

after_packet-message :
    (r : Relay) (id : Identity) (m : Message) (rest : Bytes)
    → ArePeers id r.identity
    → CanTravel id m
    → after_packet
        (with_rx (message_packet id m ++ rest) r)
        (published_packet id m)
        (length (message_packet id m))
      ≡ with_rx rest (accept r (from_peer id.controller m))
after_packet-message r id m rest peers can =
    let packet = message_packet id m in
    let p = published_packet id m in
    ap (λ s. with_rx s (handle_packet (with_rx (packet ++ rest) r) p)) (drop-append packet rest)
    ∙ ap (with_rx rest) (handle_packet-with_rx (packet ++ rest) r p)
    ∙ ap (with_rx rest) (
        handle_publish-topic_for r id m can.provider can.field peers can.addressed can.plain
          can.sized)

drain_rx-message :
    (k : ℕ) (r : Relay) (id : Identity) (m : Message) (rest : Bytes)
    → ArePeers id r.identity
    → CanTravel id m
    → drain_rx (suc k) (with_rx (message_packet id m ++ rest) r)
      ≡ drain_rx k (with_rx rest (accept r (from_peer id.controller m)))
drain_rx-message k r id m rest peers can =
    drain_rx-ok k (with_rx (message_packet id m ++ rest) r) (published_packet id m)
      (length (message_packet id m)) (decode-message_packet id m rest can)
    ∙ ap (drain_rx k) (after_packet-message r id m rest peers can)

-- The messages of a batch, one after the other.
unfoldable pub take_all : Bytes → Relay → List Message → Relay
take_all name r [] = r
take_all name r (m ∷ batch) = take_all name (accept r (from_peer name m)) batch

unfoldable pub stream_of : List Bytes → Bytes
stream_of [] = []
stream_of (packet ∷ packets) = packet ++ stream_of packets

pub accept-identity : (r : Relay) (m : Message) → (accept r m).identity ≡ r.identity
unfolding accept
accept-identity r m = elim (Bool-cases (leb max_inbound_queue (length r.inbound))) [
  | inl q ↦ rw q refl
  | inr q ↦ rw q refl
]

drain_rx-batch :
    (k : ℕ) (r : Relay) (id : Identity) (batch : List Message) (rest : Bytes)
    → ArePeers id r.identity
    → All (CanTravel id) batch
    → drain_rx (length batch + k) (with_rx (stream_of (map (message_packet id) batch) ++ rest) r)
      ≡ drain_rx k (with_rx rest (take_all id.controller r batch))
unfolding take_all stream_of
drain_rx-batch k r id [] rest peers can =
    let none_used : 0 + k ≡ k = omega arith in ap (λ n. drain_rx n (with_rx rest r)) none_used
drain_rx-batch k r id (m ∷ batch) rest peers (can, cans) =
    let next = accept r (from_peer id.controller m) in
    let others = stream_of (map (message_packet id) batch) in
    let one_used : suc (length batch) + k ≡ suc (length batch + k) = omega arith in
    ap (λ n. drain_rx n (with_rx (stream_of (map (message_packet id) (m ∷ batch)) ++ rest) r))
      one_used
    ∙ ap (λ s. drain_rx (suc (length batch + k)) (with_rx s r))
        (append_assoc (message_packet id m) others rest)
    ∙ drain_rx-message (length batch + k) r id m (others ++ rest) peers can
    ∙ drain_rx-batch k next id batch rest (subst (ArePeers id) (sym (accept-identity r _)) peers)
        cans

send_batch-all :
    (n : ℕ) (r : Relay) (batch : List Message)
    → (send_batch (λ _. true) n r batch).1 ≡ map (message_packet r.identity) batch
unfolding send_batch
send_batch-all n r [] = refl
send_batch-all n r (m ∷ batch) =
    ap (λ packets. message_packet r.identity m ∷ packets) (send_batch-all (n + 1) _ batch)

accept_room :
    (r : Relay) (m : Message)
    → length r.inbound < max_inbound_queue
    → accept r m
      ≡ record r { inbound = r.inbound ++ (m ∷ []); received = (r.received + 1) % 2 ^ 64 }
unfolding accept
accept_room r m h = rw (lt→leb max_inbound_queue (length r.inbound) h) refl

pub take_all-inbound :
    (name : Bytes) (r : Relay) (batch : List Message)
    → length r.inbound + length batch ≤ max_inbound_queue
    → ((take_all name r batch).inbound ≡ r.inbound ++ map (from_peer name) batch)
      × ((take_all name r batch).rejected ≡ r.rejected)
unfolding take_all
take_all-inbound name r [] h = (sym (append-nil r.inbound), refl)
take_all-inbound name r (m ∷ batch) h =
    let filed = from_peer name m in
    let next = accept r filed in
    let room = accept_room r filed (omega arith) in
    let longer = length-append r.inbound (filed ∷ []) in
    let grown = ap (λ x. x.inbound) room in
    let (queued, kept) = take_all-inbound name next batch (
      subst (λ q. length q + length batch ≤ max_inbound_queue) (sym grown)
        (omega (arith, longer))) in
    (
      queued
          ∙ ap (λ q. q ++ map (from_peer name) batch) grown
          ∙ append_assoc r.inbound (filed ∷ []) (map (from_peer name) batch),
      kept ∙ ap (λ x. x.rejected) room,
    )

drain-batch :
    (r : Relay) (id : Identity) (batch : List Message)
    → r.rx ≡ []
    → ArePeers id r.identity
    → All (CanTravel id) batch
    → drain (receive (stream_of (map (message_packet id) batch)) r)
      ≡ (with_rx [] (take_all id.controller r batch), true)
drain-batch r id batch none_left peers can =
    let stream = stream_of (map (message_packet id) batch) in
    let k = suc (length (r.rx ++ stream)) in
    let size = length-append r.rx stream in
    let size' = length-append stream [] in
    ap (λ s. drain_rx k (with_rx s r)) (ap (λ s. s ++ stream) none_left ∙ sym (append-nil stream))
    ∙ drain_rx-fuel k (length batch + k) (with_rx (stream ++ []) r) (omega (arith, size, size'))
        (omega (arith, size, size'))
    ∙ drain_rx-batch k r id batch [] peers can
    ∙ drain_rx-waits k _ (decode_short [] fresh_packet (omega arith))

-- What one relay sends is what another one of its room receives. If every message that waits in the
-- sender can travel, the transport takes them all and their bytes come in one read to a receiver that has
-- no bytes left and room in its queue, then the read succeeds, the messages are queued in their order under
-- the sender's name, none is rejected and no bytes are left.
pub pump_inbound-pump_outbound :
    (sender receiver : Relay)
    → receiver.rx ≡ []
    → ArePeers sender.identity receiver.identity
    → All (CanTravel sender.identity) sender.outbound
    → length receiver.inbound + length sender.outbound ≤ max_inbound_queue
    → let packets = (pump_outbound (λ _. true) sender).1 in
      let received = pump_inbound receiver (some (stream_of packets)) false false in
      (received.1 ≡ true)
      × (received.0.inbound
          ≡ receiver.inbound ++ map (from_peer sender.identity.controller) sender.outbound)
      × (received.0.rejected ≡ receiver.rejected)
      × (received.0.rx ≡ [])
unfolding pump_inbound pump_outbound
pump_inbound-pump_outbound sender receiver none_left peers can room =
    let id = sender.identity in
    let sent = ap stream_of (send_batch-all 0 (record sender { outbound = [] }) sender.outbound) in
    let got =
      ap (λ s. keep_alive false false (drain (receive s receiver))) sent
      ∙ keep_alive_idle _
      ∙ drain-batch receiver id sender.outbound none_left peers can in
    let (queued, kept) = take_all-inbound id.controller receiver sender.outbound room in
    (
      ap (λ x. x.1) got,
      ap (λ x. x.0.inbound) got ∙ queued,
      ap (λ x. x.0.rejected) got ∙ kept,
      ap (λ x. x.0.rx) got,
    )
