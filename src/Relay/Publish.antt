-- ===== src/Relay/Publish.antt =====
-- A value that one relay publishes is the value that another one takes: TopicFor, PumpOutbound and
-- HandlePublish of src/Relay.cpp.
use euroscope_plugin_bridge.Prelude.{
  ◌%◌, ◌^◌, ◌<◌, false, [], ◌∷◌, ◌++◌, some, ◌≡◌, ◌≢◌, refl, ap, ◌∙◌, if◌then◌else◌, arith,
  bytes_eq, bytes_eq_refl,
}
use euroscope_plugin_bridge.Mqtt.{is_empty, Properties}
use euroscope_plugin_bridge.Text.{Bytes, decimal}
use euroscope_plugin_bridge.Text.Decimal.{strtoul-decimal, decimal-ne-nil}
use euroscope_plugin_bridge.Relay.{
  Identity, Message, Relay, slash, topic_for, message_properties, presence_part, last_property,
  metadata, accept, handle_value, handle_parts, handle_publish,
}
use euroscope_plugin_bridge.Relay.Topic.{IsAddressed, parts_of, split-topic_for}

-- A message of a size that its numbers fit.
pub record IsSized (m : Message) : Type 0 where
  pub small_type : m.type < 2 ^ 32
  pub small_revision : m.revision < 2 ^ 64

-- Two relays of one room under different names.
pub record ArePeers (from to : Identity) : Type 0 where
  pub same_room : from.room ≡ to.room
  pub other_name : bytes_eq from.controller to.controller ≡ false

is_empty-ne : (s : Bytes) → s ≢ [] → is_empty s ≡ false
is_empty-ne [] h = absurd (h refl)
is_empty-ne (c ∷ s) h = refl

pub metadata-message_properties :
    (m : Message) → IsSized m → metadata (message_properties m) ≡ some (m.type, m.revision)
unfolding metadata last_property bytes_eq
metadata-message_properties m h =
    let whole : m.type % 2 ^ 32 ≡ m.type = omega (arith, h.small_type) in
    rw
      (
        is_empty-ne (decimal m.type) (decimal-ne-nil m.type),
        is_empty-ne (decimal m.revision) (decimal-ne-nil m.revision),
        strtoul-decimal 32 m.type h.small_type,
        strtoul-decimal 64 m.revision h.small_revision,
        whole,
      )
      refl

handle_parts-value :
    (r : Relay) (from : Identity) (p f cs payload : Bytes) (props : Properties)
    → ArePeers from r.identity
    → bytes_eq p presence_part ≡ false
    → handle_parts r (parts_of from p f cs) payload props
      ≡ handle_value r from.controller p f (if is_empty cs then [] else cs ∷ []) payload props
unfolding handle_parts bytes_eq
handle_parts-value r from p f cs payload props peers plain =
    rw (peers.same_room, bytes_eq_refl r.identity.room, plain, peers.other_name) refl

callsign_back :
    (cs : Bytes)
    → elim (if is_empty cs then [] else cs ∷ []) as (λ _. Bytes) [ [] ↦ [] | c ∷ rest ↦ c ] ≡ cs
callsign_back [] = refl
callsign_back (c ∷ cs) = refl

handle_value-message :
    (r : Relay) (from : Identity) (m : Message) (p f : Bytes)
    → m.qualified ≡ p ++ slash f
    → IsSized m
    → handle_value r from.controller p f
        (if is_empty m.callsign then [] else m.callsign ∷ [])
        m.payload
        (message_properties m)
      ≡ accept r (record m { peer = from.controller })
unfolding handle_value
handle_value-message r from m p f named sized =
    rw (metadata-message_properties m sized, handle_value, callsign_back m.callsign, ← named) refl

-- What one relay publishes, under its topic and with its two properties, is what another relay of the same
-- room takes from it: the same field, aircraft, type, value and revision, with the publisher's name as the
-- peer. It is queued, or counted as rejected when the queue is full. No name in the topic holds a slash, the
-- provider is not the presence marker, and the type and the revision are of 32 and 64 bits.
pub handle_publish-topic_for :
    (r : Relay) (from : Identity) (m : Message) (p f : Bytes)
    → ArePeers from r.identity
    → IsAddressed from m p f
    → bytes_eq p presence_part ≡ false
    → IsSized m
    → handle_publish r (topic_for from m) m.payload (message_properties m)
      ≡ accept r (record m { peer = from.controller })
unfolding handle_publish
handle_publish-topic_for r from m p f peers addressed plain sized =
    ap (λ parts. handle_parts r parts m.payload (message_properties m))
      (split-topic_for from m p f addressed)
    ∙ handle_parts-value r from p f m.callsign m.payload (message_properties m) peers plain
    ∙ handle_value-message r from m p f addressed.named sized

-- A relay's own values, which the broker sends straight back, are never taken as those of another: the relay
-- stays as it was, under the same conditions on the names in the topic and with any properties.
pub handle_publish-own :
    (r : Relay) (m : Message) (p f : Bytes) (props : Properties)
    → IsAddressed r.identity m p f
    → bytes_eq p presence_part ≡ false
    → handle_publish r (topic_for r.identity m) m.payload props ≡ r
unfolding handle_publish handle_parts bytes_eq
handle_publish-own r m p f props addressed plain =
    ap (λ parts. handle_parts r parts m.payload props) (split-topic_for r.identity m p f addressed)
    ∙ rw (bytes_eq_refl r.identity.room, plain, bytes_eq_refl r.identity.controller) refl
