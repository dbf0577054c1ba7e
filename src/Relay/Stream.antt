-- ===== src/Relay/Stream.antt =====
-- The stream of received bytes: the loop of PumpInbound in src/Relay.cpp over m_rx.
use euroscope_plugin_bridge.Prelude.{
  ℕ, zero, suc, ◌+◌, ◌≤◌, Bool, true, false, ◌||◌, List, [], ◌∷◌, ◌++◌, some, ◌≡◌, refl, sym, ap,
  ◌∙◌, ◌==◌, leb, if◌then◌else◌, arith, length, drop, Bool-cases, Option-cases, inl, inr,
  length-append, length-drop, drop-append_le, append_assoc, bytes_eq,
}
use euroscope_plugin_bridge.Mqtt.{
  Packet, fresh_packet, ok, need_more, malformed, decode, publish_type, Properties, is_empty,
}
use euroscope_plugin_bridge.Mqtt.Frame.{
  decode_short, decode-append, decode_takes, DecodeResult-cases,
}
use euroscope_plugin_bridge.Text.{Bytes}
use euroscope_plugin_bridge.Relay.{
  Relay, Message, accept, handle_presence, handle_value, handle_parts, handle_publish,
  handle_packet, drain_rx, metadata, has_peer, max_inbound_queue, malformed_packet, split,
  pump_inbound, set_error, keep_alive,
}

abbrev pub with_rx : Bytes → Relay → Relay
with_rx s r = record r { rx = s }

-- What is received does not look at the bytes behind it.
accept-with_rx :
    (s : Bytes) (r : Relay) (m : Message) → accept (with_rx s r) m ≡ with_rx s (accept r m)
unfolding accept
accept-with_rx s r m = elim (Bool-cases (leb max_inbound_queue (length r.inbound))) [
  | inl q ↦ rw q refl
  | inr q ↦ rw q refl
]

handle_presence-with_rx :
    (s : Bytes) (r : Relay) (controller payload : Bytes)
    → handle_presence (with_rx s r) controller payload
      ≡ with_rx s (handle_presence r controller payload)
unfolding handle_presence
handle_presence-with_rx s r controller payload = elim (Bool-cases (is_empty payload)) [
  | inl q ↦ rw q refl
  | inr q ↦
      elim (Bool-cases (has_peer controller r.peers || bytes_eq controller r.identity.controller)) [
        | inl w ↦ rw (q, w) refl
        | inr w ↦ rw (q, w) refl
      ]
]

handle_value-with_rx :
    (s : Bytes) (r : Relay) (controller provider field : Bytes) (more : List Bytes)
    (payload : Bytes) (props : Properties)
    → handle_value (with_rx s r) controller provider field more payload props
      ≡ with_rx s (handle_value r controller provider field more payload props)
unfolding handle_value
handle_value-with_rx s r controller provider field more payload props =
    elim (Option-cases (metadata props)) [
      | inl q ↦ rw (q, handle_value) refl
      | inr (v, q) ↦ rw (q, handle_value) (accept-with_rx s r _)
    ]

if-with_rx :
    (s : Bytes) (b : Bool) (x x' y y' : Relay)
    → x' ≡ with_rx s x
    → y' ≡ with_rx s y
    → (if b then x' else y') ≡ with_rx s (if b then x else y)
if-with_rx s true x x' y y' hx hy = hx
if-with_rx s false x x' y y' hx hy = hy

handle_parts-with_rx :
    (s : Bytes) (r : Relay) (parts : List Bytes) (payload : Bytes) (props : Properties)
    → handle_parts (with_rx s r) parts payload props
      ≡ with_rx s (handle_parts r parts payload props)
unfolding handle_parts
handle_parts-with_rx s r [] payload props = refl
handle_parts-with_rx s r (a ∷ []) payload props = refl
handle_parts-with_rx s r (a ∷ b ∷ []) payload props = refl
handle_parts-with_rx s r (a ∷ b ∷ c ∷ []) payload props = refl
handle_parts-with_rx s r (a ∷ b ∷ c ∷ d ∷ []) payload props = refl
handle_parts-with_rx s r (a ∷ b ∷ c ∷ d ∷ e ∷ []) payload props = if-with_rx s _ r _ _ _ refl (
    if-with_rx s _ _ _ _ _ (handle_presence-with_rx s r d payload)
      (if-with_rx s _ r _ r _ refl refl))
handle_parts-with_rx s r (a ∷ b ∷ c ∷ d ∷ e ∷ f ∷ more) payload props =
    if-with_rx s _ r _ _ _ refl (
      if-with_rx s _ _ _ _ _ (handle_presence-with_rx s r d payload)
        (if-with_rx s _ r _ _ _ refl (handle_value-with_rx s r d e f more payload props)))

pub handle_publish-with_rx :
    (s : Bytes) (r : Relay) (topic payload : Bytes) (props : Properties)
    → handle_publish (with_rx s r) topic payload props
      ≡ with_rx s (handle_publish r topic payload props)
unfolding handle_publish
handle_publish-with_rx s r topic payload props =
    handle_parts-with_rx s r (split topic) payload props

pub handle_packet-with_rx :
    (s : Bytes) (r : Relay) (p : Packet)
    → handle_packet (with_rx s r) p ≡ with_rx s (handle_packet r p)
handle_packet-with_rx s r p =
    if-with_rx s (p.type == publish_type) _ _ r _
      (handle_publish-with_rx s r p.topic p.payload p.props) refl

-- One round: the packet is handled, and the bytes behind it are left.
abbrev pub after_packet : Relay → Packet → ℕ → Relay
after_packet r p n = with_rx (drop n r.rx) (handle_packet r p)

pub drain_rx-ok :
    (k : ℕ) (r : Relay) (p : Packet) (n : ℕ)
    → decode r.rx fresh_packet ≡ ok p n
    → drain_rx (suc k) r ≡ drain_rx k (after_packet r p n)
unfolding drain_rx
drain_rx-ok k r p n e = rw (e, drain_rx) (ap (drain_rx k) (handle_packet-with_rx (drop n r.rx) r p))

after_packet-length :
    (r : Relay) (p : Packet) (n : ℕ)
    → decode r.rx fresh_packet ≡ ok p n
    → length (after_packet r p n).rx + 2 ≤ length r.rx
after_packet-length r p n e =
    let (two, inside) = decode_takes r.rx fresh_packet p n e in omega (arith, length-drop n r.rx)

pub drain_rx-waits :
    (k : ℕ) (r : Relay) → decode r.rx fresh_packet ≡ need_more → drain_rx k r ≡ (r, true)
unfolding drain_rx
drain_rx-waits zero r e = refl
drain_rx-waits (suc k) r e = rw (e, drain_rx) refl

drain_rx-malformed :
    (k : ℕ) (r : Relay)
    → decode r.rx fresh_packet ≡ malformed
    → drain_rx (suc k) r ≡ (set_error r malformed_packet, false)
unfolding drain_rx
drain_rx-malformed k r e = rw (e, drain_rx) refl

-- One round for each byte is enough: more rounds change nothing.
pub drain_rx-fuel :
    (k j : ℕ) (r : Relay) → length r.rx ≤ k → length r.rx ≤ j → drain_rx k r ≡ drain_rx j r
drain_rx-fuel zero j r hk hj =
    drain_rx-waits 0 r (decode_short r.rx fresh_packet (omega arith))
    ∙ sym (drain_rx-waits j r (decode_short r.rx fresh_packet (omega arith)))
drain_rx-fuel (suc k) zero r hk hj =
    drain_rx-waits (suc k) r (decode_short r.rx fresh_packet (omega arith))
    ∙ sym (drain_rx-waits 0 r (decode_short r.rx fresh_packet (omega arith)))
drain_rx-fuel (suc k) (suc j) r hk hj = elim (DecodeResult-cases (decode r.rx fresh_packet)) [
  | inl e ↦ drain_rx-waits (suc k) r e ∙ sym (drain_rx-waits (suc j) r e)
  | inr (d, inl e) ↦ drain_rx-malformed k r e ∙ sym (drain_rx-malformed j r e)
  | inr (d, inr (p, n, e)) ↦
      let shorter = after_packet-length r p n e in
      drain_rx-ok k r p n e
      ∙ drain_rx-fuel k j (after_packet r p n) (omega (arith, shorter)) (omega (arith, shorter))
      ∙ sym (drain_rx-ok j r p n e)
]

-- Nothing is put back.
drain_rx-length : (k : ℕ) (r : Relay) → length (drain_rx k r).0.rx ≤ length r.rx
unfolding drain_rx
drain_rx-length zero r = omega arith
drain_rx-length (suc k) r = elim (DecodeResult-cases (decode r.rx fresh_packet)) [
  | inl e ↦ rw (drain_rx-waits (suc k) r e) (omega arith)
  | inr (d, inl e) ↦ rw (drain_rx-malformed k r e) (omega arith)
  | inr (d, inr (p, n, e)) ↦
      rw (drain_rx-ok k r p n e)
        (omega (arith, after_packet-length r p n e, drain_rx-length k (after_packet r p n)))
]

abbrev pub receive : Bytes → Relay → Relay
receive more r = with_rx (r.rx ++ more) r

after_packet-receive :
    (r : Relay) (p : Packet) (n : ℕ) (more : Bytes)
    → n ≤ length r.rx
    → after_packet (receive more r) p n ≡ receive more (after_packet r p n)
after_packet-receive r p n more h =
    ap (λ q. with_rx (drop n (r.rx ++ more)) q) (handle_packet-with_rx (r.rx ++ more) r p)
    ∙ ap (λ s. with_rx s (handle_packet r p)) (drop-append_le n r.rx more h)

-- What is received later can as well be there from the start.
pub drain_rx-receive :
    (k j : ℕ) (r : Relay) (more : Bytes)
    → (drain_rx k r).1 ≡ true
    → length r.rx + length more ≤ j
    → drain_rx j (receive more r) ≡ drain_rx j (receive more (drain_rx k r).0)
unfolding drain_rx
drain_rx-receive zero j r more alive h = refl
drain_rx-receive (suc k) zero r more alive h =
    rw (drain_rx-waits (suc k) r (decode_short r.rx fresh_packet (omega arith))) refl
drain_rx-receive (suc k) (suc j) r more alive h =
    elim (DecodeResult-cases (decode r.rx fresh_packet)) [
      | inl e ↦ rw (drain_rx-waits (suc k) r e) refl
      | inr (d, inl e) ↦ absurd (cc (alive, ap (λ x. x.1) (drain_rx-malformed k r e)))
      | inr (d, inr (p, n, e)) ↦
          let (two, inside) = decode_takes r.rx fresh_packet p n e in
          let next = after_packet r p n in
          let shorter = after_packet-length r p n e in
          let left = drain_rx-length k next in
          let joined = length-append (drain_rx k next).0.rx more in
          let here = drain_rx-ok k r p n e in
          drain_rx-ok j (receive more r) p n (decode-append r.rx more fresh_packet d ∙ e)
          ∙ ap (drain_rx j) (after_packet-receive r p n more inside)
          ∙ drain_rx-receive k j next more (ap (λ x. x.1) (sym here) ∙ alive)
              (omega (arith, shorter))
          ∙ drain_rx-fuel j (suc j) (receive more (drain_rx k next).0)
              (omega (arith, shorter, left, joined)) (omega (arith, shorter, left, joined))
          ∙ ap (λ x. drain_rx (suc j) (receive more x.0)) (sym here)
    ]

-- The relay after what a read gave, the rounds of its loop being one more than the bytes.
abbrev pub drain : Relay → Relay × Bool
drain r = drain_rx (suc (length r.rx)) r

pub drain-receive :
    (r : Relay) (first second : Bytes)
    → (drain (receive first r)).1 ≡ true
    → drain (receive (first ++ second) r) ≡ drain (receive second (drain (receive first r)).0)
drain-receive r first second alive =
    let here = receive first r in
    let k = suc (length here.rx) in
    let next = (drain_rx k here).0 in
    let j = suc (length (r.rx ++ (first ++ second))) in
    let left = drain_rx-length k here in
    let there = length-append next.rx second in
    let parts = length-append r.rx first in
    let whole = length-append r.rx (first ++ second) in
    let both = length-append first second in
    ap (λ s. drain_rx j (with_rx s r)) (sym (append_assoc r.rx first second))
    ∙ drain_rx-receive k j here second alive (omega (arith, parts, whole, both))
    ∙ drain_rx-fuel j (suc (length (next.rx ++ second))) (receive second next)
        (omega (arith, left, there, parts, whole, both)) (omega arith)

pub keep_alive_idle : (x : Relay × Bool) → keep_alive false false x ≡ x
keep_alive_idle (r, true) = refl
keep_alive_idle (r, false) = refl

-- Where the broker's bytes are cut into reads does not matter. If the first part is not malformed, the
-- relay that gets both parts in one read, and the one that gets them in two without a PINGREQ due between
-- them, have the same state and the same result.
pub pump_inbound-append :
    (r : Relay) (first second : Bytes) (due accepted : Bool)
    → (pump_inbound r (some first) false false).1 ≡ true
    → pump_inbound r (some (first ++ second)) due accepted
      ≡ pump_inbound (pump_inbound r (some first) false false).0 (some second) due accepted
unfolding pump_inbound
pump_inbound-append r first second due accepted alive =
    let idle = keep_alive_idle (drain (receive first r)) in
    ap (keep_alive due accepted) (
      drain-receive r first second (ap (λ x. x.1) (sym idle) ∙ alive)
      ∙ ap (λ x. drain (receive second x.0)) (sym idle))
