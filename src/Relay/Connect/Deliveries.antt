-- ===== src/Relay/Connect/Deliveries.antt =====
-- PUBLISH packets in front of a SUBACK: the inner loop of AwaitSubAck of src/Relay.cpp.
use euroscope_plugin_bridge.Prelude.{
  ℕ, suc, ◌+◌, ◌^◌, ◌<◌, ◌≤◌, Bool, List, [], ◌∷◌, ◌++◌, ◌≡◌, refl, ap, ◌∙◌, All, arith, length,
  drop, map, length-append, drop-append, append_assoc,
}
use euroscope_plugin_bridge.Mqtt.{
  Packet, Properties, fresh_packet, ok, decode, encode_publish, publish_type,
}
use euroscope_plugin_bridge.Mqtt.Properties.{IsShort, ArePropertiesShort}
use euroscope_plugin_bridge.Mqtt.RoundTrip.{publish_body, publish_flags, decode-encode_publish}
use euroscope_plugin_bridge.Mqtt.Frame.{decode_takes}
use euroscope_plugin_bridge.Text.{Bytes}
use euroscope_plugin_bridge.Relay.{Relay, handle_publish}
use euroscope_plugin_bridge.Relay.Stream.{with_rx, handle_publish-with_rx}
use euroscope_plugin_bridge.Relay.Deliver.{stream_of}
use euroscope_plugin_bridge.Relay.Connect.{scan_suback}

scan_suback-publish :
    (k : ℕ) (r : Relay) (p : Packet) (n : ℕ)
    → decode r.rx fresh_packet ≡ ok p n
    → p.type ≡ publish_type
    → scan_suback (suc k) r
      ≡ scan_suback k (with_rx (drop n r.rx) (handle_publish r p.topic p.payload p.props))
unfolding scan_suback
scan_suback-publish k r p n e is_publish =
    rw (e, scan_suback)
      (rw (is_publish, scan_suback)
        (ap (scan_suback k) (handle_publish-with_rx (drop n r.rx) r p.topic p.payload p.props)))

-- A PUBLISH on its way: a value, a presence, the relay's own words, of any controller.
pub record Delivery : Type 0 where
  pub topic : Bytes
  pub payload : Bytes
  pub retain : Bool
  pub props : Properties

-- It fits the limits of MQTT.
pub record Fits (d : Delivery) : Type 0 where
  pub short_topic : IsShort d.topic
  pub short_props : ArePropertiesShort d.props
  pub small : length (publish_body d.topic d.payload d.props) < 2 ^ 28

abbrev pub delivery_packet : Delivery → Bytes
delivery_packet d = encode_publish d.topic d.payload d.retain d.props

-- What HandlePublish makes of the deliveries, one after the other.
unfoldable pub handle_all : Relay → List Delivery → Relay
handle_all r [] = r
handle_all r (d ∷ batch) = handle_all (handle_publish r d.topic d.payload d.props) batch

abbrev decoded : Delivery → Packet
decoded d = record fresh_packet {
  type = publish_type;
  flags = publish_flags d.retain;
  topic = d.topic;
  payload = d.payload;
  retain = d.retain;
  props = d.props;
}

decode-delivery_packet :
    (d : Delivery) (rest : Bytes)
    → Fits d
    → decode (delivery_packet d ++ rest) fresh_packet ≡ ok (decoded d) (length (delivery_packet d))
decode-delivery_packet d rest fits =
    decode-encode_publish d.topic d.payload rest d.retain d.props fresh_packet fits.short_topic
      fits.short_props fits.small

scan_suback-delivery :
    (k : ℕ) (r : Relay) (d : Delivery) (rest : Bytes)
    → Fits d
    → scan_suback (suc k) (with_rx (delivery_packet d ++ rest) r)
      ≡ scan_suback k (with_rx rest (handle_publish r d.topic d.payload d.props))
scan_suback-delivery k r d rest fits =
    let packet = delivery_packet d in
    let taken = handle_publish-with_rx (packet ++ rest) r d.topic d.payload d.props in
    scan_suback-publish k (with_rx (packet ++ rest) r) (decoded d) (length packet)
      (decode-delivery_packet d rest fits) refl
    ∙ ap
        (λ s.
          scan_suback k
            (with_rx s (handle_publish (with_rx (packet ++ rest) r) d.topic d.payload d.props)))
        (drop-append packet rest)
    ∙ ap (λ q. scan_suback k (with_rx rest q)) taken

pub scan_suback-batch :
    (k : ℕ) (r : Relay) (batch : List Delivery) (rest : Bytes)
    → All Fits batch
    → scan_suback (length batch + k) (with_rx (stream_of (map delivery_packet batch) ++ rest) r)
      ≡ scan_suback k (with_rx rest (handle_all r batch))
unfolding handle_all stream_of
scan_suback-batch k r [] rest fit =
    let none_used : 0 + k ≡ k = omega arith in ap (λ n. scan_suback n (with_rx rest r)) none_used
scan_suback-batch k r (d ∷ batch) rest (fits, fit) =
    let next = handle_publish r d.topic d.payload d.props in
    let others = stream_of (map delivery_packet batch) in
    let one_used : suc (length batch) + k ≡ suc (length batch + k) = omega arith in
    ap (λ n. scan_suback n (with_rx (stream_of (map delivery_packet (d ∷ batch)) ++ rest) r))
      one_used
    ∙ ap (λ s. scan_suback (suc (length batch + k)) (with_rx s r))
        (append_assoc (delivery_packet d) others rest)
    ∙ scan_suback-delivery (length batch + k) r d (others ++ rest) fits
    ∙ scan_suback-batch k next batch rest fit

-- A packet takes a byte at least, so that the bytes are rounds enough.
pub rounds_enough :
    (batch : List Delivery)
    → All Fits batch
    → length batch ≤ length (stream_of (map delivery_packet batch))
unfolding stream_of
rounds_enough [] fit = omega arith
rounds_enough (d ∷ batch) (fits, fit) =
    let packet = delivery_packet d in
    let others = stream_of (map delivery_packet batch) in
    let taken =
      decode_takes (packet ++ []) fresh_packet (decoded d) (length packet)
        (decode-delivery_packet d [] fits) in
    omega (arith, taken.0, length-append packet others, rounds_enough batch fit)
