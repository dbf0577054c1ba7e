-- ===== src/Relay/Tests.antt =====
-- Runs of the relay on concrete messages.
use euroscope_plugin_bridge.Prelude.{
  ◌-◌, ap, true, false, All, List, [], ◌∷◌, ◌++◌, none, some, ◌≡◌, refl, arith, drop, map, bytes_eq,
}
use euroscope_plugin_bridge.Mqtt.{put_u16, encode_var_int, put_string, put_user, put_properties}
use euroscope_plugin_bridge.Mqtt.{fresh_packet}
use euroscope_plugin_bridge.Mqtt.Frame.{decode_short}
use euroscope_plugin_bridge.Text.{decimal}
use euroscope_plugin_bridge.Relay.{
  Identity, Message, Relay, fresh_message, message_properties, topic_for, provider_of, field_of,
  keep_alive, pump_inbound, pump_outbound, push_outbound, handle_publish, max_outbound_queue,
}
use euroscope_plugin_bridge.Relay.Topic.{IsAddressed}
use euroscope_plugin_bridge.Relay.Publish.{ArePeers, handle_publish-own}
use euroscope_plugin_bridge.Relay.Stream.{drain_rx-waits, pump_inbound-append}
use euroscope_plugin_bridge.Relay.Deliver.{
  CanTravel, stream_of, from_peer, pump_inbound-pump_outbound,
}
use euroscope_plugin_bridge.Relay.Queues.{IsRelay}
use euroscope_plugin_bridge.Relay.Queues.Newest.{push_all, push_all-newest}
use euroscope_plugin_bridge.Relay.Connect.{
  Round, connect_and_subscribe, first_backoff, thread_rounds, presence_topic,
}
use euroscope_plugin_bridge.Relay.Connect.Deliveries.{Delivery, Fits, delivery_packet, handle_all}
use euroscope_plugin_bridge.Relay.Connect.Granted.{
  suback_packet, connack_packet, connection, connect_and_subscribe-answered,
}
use euroscope_plugin_bridge.Relay.Connect.Backoff.{
  Fails, waits_from, connect_and_subscribe-unreachable, thread_rounds-backoff,
}
use euroscope_plugin_bridge.Relay.Stream.{with_rx}
use euroscope_plugin_bridge.Relay.Queues.Steps.{
  new_relay, Reachable-IsRelay, starts, goes_on, pushes,
}

-- Two controllers, A and B, in the room R.
abbrev alice : Identity
alice = record { room = b'R' ∷ []; controller = b'A' ∷ []; username = []; password = [] }

abbrev bob : Identity
bob = record { room = b'R' ∷ []; controller = b'B' ∷ []; username = []; password = [] }

-- The value 7 of "p/f" for the aircraft X.
abbrev hello : Message
hello = record fresh_message {
  qualified = b'p' ∷ b'/' ∷ b'f' ∷ [];
  callsign = b'X' ∷ [];
  type = 1;
  payload = b'7' ∷ [];
  revision = 12;
}

alice_and_bob : ArePeers alice bob
unfolding bytes_eq
alice_and_bob = record { same_room = refl; other_name = refl }

hello-IsAddressed : IsAddressed alice hello (b'p' ∷ []) (b'f' ∷ [])
hello-IsAddressed = record {
  named = refl;
  room_part = (refl, tt);
  controller_part = (refl, tt);
  provider_part = (refl, tt);
  field_part = (refl, tt);
  callsign_part = (refl, tt);
}

hello-CanTravel : CanTravel alice hello
unfolding bytes_eq topic_for provider_of field_of put_u16 encode_var_int put_string put_user
    put_properties decimal
hello-CanTravel = record {
  provider = b'p' ∷ [];
  field = b'f' ∷ [];
  addressed = hello-IsAddressed;
  plain = refl;
  sized = record { small_type = omega arith; small_revision = omega arith };
  short = omega arith;
  fits = omega arith;
}

-- A's relay with a value to publish, and B's with nothing received yet.
abbrev sender : Relay
sender = record (new_relay alice) { outbound = hello ∷ [] }

abbrev receiver : Relay
receiver = new_relay bob

pump_inbound-pump_outbound_example :
    let packets = (pump_outbound (λ _. true) sender).1 in
    let received = pump_inbound receiver (some (stream_of packets)) false false in
    (received.1 ≡ true)
    × (received.0.inbound ≡ [] ++ map (from_peer (b'A' ∷ [])) (hello ∷ []))
    × (received.0.rejected ≡ 0)
    × (received.0.rx ≡ [])
pump_inbound-pump_outbound_example =
    pump_inbound-pump_outbound sender receiver refl alice_and_bob (hello-CanTravel, tt)
      (omega arith)

-- The first byte alone is no packet yet.
first_byte_waits : (pump_inbound receiver (some (0x31 ∷ [])) false false).1 ≡ true
unfolding pump_inbound
first_byte_waits =
    ap (λ x. (keep_alive false false x).1)
      (drain_rx-waits 2 (with_rx (0x31 ∷ []) receiver)
        (decode_short (0x31 ∷ []) fresh_packet (omega arith)))

pump_inbound-append_example :
    pump_inbound receiver (some ((0x31 ∷ []) ++ (17 ∷ 0 ∷ []))) true true
    ≡ pump_inbound
        (pump_inbound receiver (some (0x31 ∷ [])) false false).0
        (some (17 ∷ 0 ∷ []))
        true
        true
pump_inbound-append_example =
    pump_inbound-append receiver (0x31 ∷ []) (17 ∷ 0 ∷ []) true true first_byte_waits

-- A's presence and a value of it, which the broker has retained, and B's own presence.
abbrev retained : List Delivery
retained =
    record { topic = presence_topic alice; payload = b'A' ∷ []; retain = true; props = [] }
    ∷ record {
      topic = topic_for alice hello;
      payload = b'7' ∷ [];
      retain = true;
      props = message_properties hello;
    }
    ∷ record { topic = presence_topic bob; payload = b'B' ∷ []; retain = true; props = [] }
    ∷ []

retained-Fits : All Fits retained
unfolding topic_for provider_of field_of put_u16 encode_var_int put_string put_user put_properties
    decimal
retained-Fits = (
  record { short_topic = omega arith; short_props = tt; small = omega arith },
  (
    record {
      short_topic = omega arith;
      short_props = ((omega arith, omega arith), ((omega arith, omega arith), tt));
      small = omega arith;
    },
    (record { short_topic = omega arith; short_props = tt; small = omega arith }, tt),
  ),
)

connect_and_subscribe-answered_example :
    let answers = stream_of (map delivery_packet retained) ++ (suback_packet 0x87 [] ++ []) in
    connect_and_subscribe
      (record {
        connects = true;
        takes_connect = true;
        takes_subscribe = true;
        reads = some (connack_packet 0 []) ∷ some answers ∷ [];
      })
      receiver
    ≡ connection bob 0x87 (with_rx [] (handle_all (with_rx [] receiver) retained))
unfolding encode_var_int
connect_and_subscribe-answered_example =
    connect_and_subscribe-answered receiver retained 0 0x87 [] [] [] [] retained-Fits (omega arith)
      (omega arith)

Reachable-IsRelay_example : IsRelay (push_outbound (new_relay alice) hello)
Reachable-IsRelay_example = Reachable-IsRelay alice _ (
    goes_on (new_relay alice) (push_outbound (new_relay alice) hello) starts
      (pushes (new_relay alice) hello))

push_all-newest_example :
    (push_all (new_relay alice) (hello ∷ fresh_message ∷ [])).outbound
    ≡ drop (2 - max_outbound_queue) (hello ∷ fresh_message ∷ [])
push_all-newest_example = push_all-newest (new_relay alice) (hello ∷ fresh_message ∷ []) refl

-- A round without a network.
abbrev unplugged : Round
unplugged = record {
  is_connected = false;
  attempt = record { connects = false; takes_connect = false; takes_subscribe = false; reads = [] };
  stops = λ _. false;
  accepts = λ _. false;
  read = none;
  ping_due = false;
  takes_ping = false;
}

unplugged-Fails : Fails unplugged
unplugged-Fails = record {
  apart = refl;
  in_vain = λ r. connect_and_subscribe-unreachable unplugged.attempt r refl;
  goes_on = λ waited. refl;
}

-- Seven failures in a row.
thread_rounds-backoff_example :
    (thread_rounds
      (unplugged ∷ unplugged ∷ unplugged ∷ unplugged ∷ unplugged ∷ unplugged ∷ unplugged ∷ [])
      (receiver, first_backoff)).1
    ≡ 1000 ∷ 2000 ∷ 4000 ∷ 8000 ∷ 16000 ∷ 32000 ∷ 30000 ∷ []
unfolding waits_from
thread_rounds-backoff_example =
    thread_rounds-backoff receiver
      (unplugged ∷ unplugged ∷ unplugged ∷ unplugged ∷ unplugged ∷ unplugged ∷ unplugged ∷ [])
      (
        unplugged-Fails,
        (
          unplugged-Fails,
          (
            unplugged-Fails,
            (unplugged-Fails, (unplugged-Fails, (unplugged-Fails, (unplugged-Fails, tt)))),
          ),
        ),
      )

handle_publish-own_example :
    handle_publish (new_relay alice) (topic_for alice hello) (b'7' ∷ []) [] ≡ new_relay alice
unfolding bytes_eq
handle_publish-own_example =
    handle_publish-own (new_relay alice) hello (b'p' ∷ []) (b'f' ∷ []) [] hello-IsAddressed refl
