-- ===== src/Relay/Topic.antt =====
-- Topics: Split and TopicFor of src/Relay.cpp.
use euroscope_plugin_bridge.Prelude.{
  false, List, [], ◌∷◌, ◌++◌, ◌≡◌, refl, ap, ◌∙◌, ◌==◌, if◌then◌else◌, All, append-nil,
}
use euroscope_plugin_bridge.Mqtt.{is_empty}
use euroscope_plugin_bridge.Text.{Bytes}
use euroscope_plugin_bridge.Relay.{
  Identity, Message, split, slash, provider_of, field_of, topic_for, room_topic, esb_part, v1_part,
}

-- A text that fits between two slashes.
abbrev pub NoSlash : Bytes → Type 0
NoSlash s = All (λ c. (c == b'/') ≡ false) s

pub split-slash : (s rest : Bytes) → NoSlash s → split (s ++ slash rest) ≡ s ∷ split rest
unfolding split
split-slash [] rest h = refl
split-slash (c ∷ s) rest (hc, hs) = rw (hc, split-slash s rest hs) refl

pub split-last : (s : Bytes) → NoSlash s → split s ≡ s ∷ []
unfolding split
split-last [] h = refl
split-last (c ∷ s) (hc, hs) = rw (hc, split-last s hs) refl

pub provider_of-slash : (p f : Bytes) → NoSlash p → provider_of (p ++ slash f) ≡ p
unfolding provider_of
provider_of-slash [] f h = refl
provider_of-slash (c ∷ p) f (hc, hp) = rw (hc, provider_of-slash p f hp) refl

pub field_of-slash : (p f : Bytes) → NoSlash p → field_of (p ++ slash f) ≡ f
unfolding field_of
field_of-slash [] f h = refl
field_of-slash (c ∷ p) f (hc, hp) = rw (hc, field_of-slash p f hp) refl

-- The parts of a value's topic.
abbrev pub parts_of : Identity → Bytes → Bytes → Bytes → List Bytes
parts_of id p f cs =
    esb_part ∷ v1_part ∷ id.room ∷ id.controller ∷ p ∷ f ∷ (if is_empty cs then [] else cs ∷ [])

-- The names in a topic hold no slash.
pub record IsAddressed (id : Identity) (m : Message) (p f : Bytes) : Type 0 where
  pub named : m.qualified ≡ p ++ slash f
  pub room_part : NoSlash id.room
  pub controller_part : NoSlash id.controller
  pub provider_part : NoSlash p
  pub field_part : NoSlash f
  pub callsign_part : NoSlash m.callsign

split_end :
    (f cs : Bytes)
    → NoSlash f
    → NoSlash cs
    → split (f ++ (if is_empty cs then [] else slash cs))
      ≡ f ∷ (if is_empty cs then [] else cs ∷ [])
split_end f [] hf h = ap split (append-nil f) ∙ split-last f hf
split_end f (c ∷ cs) hf h = split-slash f (c ∷ cs) hf ∙ ap (λ t. f ∷ t) (split-last (c ∷ cs) h)

split_room :
    (id : Identity) (rest : Bytes)
    → NoSlash id.room
    → split (room_topic id rest) ≡ esb_part ∷ v1_part ∷ id.room ∷ split rest
split_room id rest h =
    split-slash esb_part _ (refl, (refl, (refl, tt)))
    ∙ ap (λ t. esb_part ∷ t)
        (split-slash v1_part _ (refl, (refl, tt))
          ∙ ap (λ t. v1_part ∷ t) (split-slash id.room rest h))

pub split-topic_for :
    (id : Identity) (m : Message) (p f : Bytes)
    → IsAddressed id m p f
    → split (topic_for id m) ≡ parts_of id p f m.callsign
unfolding topic_for
split-topic_for id m p f h =
    rw (h.named, provider_of-slash p f h.provider_part, field_of-slash p f h.provider_part)
      (split_room id _ h.room_part
        ∙ ap (λ t. esb_part ∷ v1_part ∷ id.room ∷ t)
            (split-slash id.controller _ h.controller_part
              ∙ ap (λ t. id.controller ∷ t)
                  (split-slash p _ h.provider_part
                    ∙ ap (λ t. p ∷ t) (split_end f m.callsign h.field_part h.callsign_part))))
