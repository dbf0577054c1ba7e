-- ===== src/Relay/Queues/Newest.antt =====
-- The newest values are kept: PushOutbound of src/Relay.cpp.
use euroscope_plugin_bridge.Prelude.{
  length-drop, ℕ, zero, suc, ◌+◌, ◌-◌, ◌≤◌, ◌<◌, true, false, List, [], ◌∷◌, ◌++◌, ◌≡◌, refl, sym,
  ap, ◌∙◌, leb, arith, length, drop, length-append, append_assoc, append-nil, Bool-cases, inl, inr,
}
use euroscope_plugin_bridge.Relay.{Relay, Message, push_outbound, max_outbound_queue, drop_oldest}

-- The registry's calls of PushOutbound, one after the other.
pub push_all : Relay → List Message → Relay
push_all r [] = r
push_all r (m ∷ ms) = push_all (push_outbound r m) ms

full :
    (ms : List Message) → leb max_outbound_queue (length ms) ≡ true → max_outbound_queue ≤ length ms
full ms h = ground arith

not_full :
    (ms : List Message)
    → leb max_outbound_queue (length ms) ≡ false
    → length ms < max_outbound_queue
not_full ms h = ground arith

drop_oldest-append :
    (ms : List Message) (m : Message)
    → 0 < length ms
    → drop_oldest ms ++ (m ∷ []) ≡ drop 1 (ms ++ (m ∷ []))
drop_oldest-append [] m h = absurd (omega arith)
drop_oldest-append (x ∷ ms) m h = refl

-- Dropping before and after something is added at the end.
drop-drop :
    (j k : ℕ) (ms more : List Message)
    → j ≤ length ms
    → drop k (drop j ms ++ more) ≡ drop (j + k) (ms ++ more)
drop-drop zero k ms more h = ap (λ n. drop n (ms ++ more)) (omega arith)
drop-drop (suc j) k [] more h = absurd (omega arith)
drop-drop (suc j) k (m ∷ ms) more h =
    let one : suc (j + k) ≡ suc j + k = omega arith in
    drop-drop j k ms more (omega arith) ∙ ap (λ n. drop n (m ∷ (ms ++ more))) one

push_outbound-drop :
    (r : Relay) (m : Message)
    → length r.outbound ≤ max_outbound_queue
    → (push_outbound r m).outbound
      ≡ drop (suc (length r.outbound) - max_outbound_queue) (r.outbound ++ (m ∷ []))
unfolding push_outbound
push_outbound-drop r m h = elim (Bool-cases (leb max_outbound_queue (length r.outbound))) [
  | inl q ↦
      let over : suc (length r.outbound) - max_outbound_queue ≡ 1 =
        omega (arith, full r.outbound q) in
      rw (q, over) (drop_oldest-append r.outbound m (omega (arith, full r.outbound q)))
  | inr q ↦
      let under : suc (length r.outbound) - max_outbound_queue ≡ 0 =
        omega (arith, not_full r.outbound q) in
      rw (q, under) refl
]

push_all-drop :
    (r : Relay) (ms : List Message)
    → length r.outbound ≤ max_outbound_queue
    → (push_all r ms).outbound
      ≡ drop (length r.outbound + length ms - max_outbound_queue) (r.outbound ++ ms)
unfolding push_all
push_all-drop r [] h =
    let none_over : length r.outbound + 0 - max_outbound_queue ≡ 0 = omega arith in
    rw none_over (sym (append-nil r.outbound))
push_all-drop r (m ∷ ms) h =
    let next = push_outbound r m in
    let queue = r.outbound ++ (m ∷ []) in
    let over = suc (length r.outbound) - max_outbound_queue in
    let pushed = push_outbound-drop r m h in
    let longer = length-append r.outbound (m ∷ []) in
    let size : length next.outbound ≡ suc (length r.outbound) - over =
      omega (arith, ap length pushed, length-drop over queue, longer) in
    let total : over + (length next.outbound + length ms - max_outbound_queue)
        ≡ length r.outbound + suc (length ms) - max_outbound_queue =
      omega (arith, size) in
    push_all-drop next ms (omega (arith, size))
    ∙ ap (λ q. drop (length next.outbound + length ms - max_outbound_queue) (q ++ ms)) pushed
    ∙ drop-drop over _ queue ms (omega (arith, longer))
    ∙ ap (λ n. drop n (queue ++ ms)) total
    ∙ ap (drop _) (append_assoc r.outbound (m ∷ []) ms)

-- A relay that is not keeping up loses the oldest messages and no other: after any number of PushOutbound
-- on an empty queue, it holds the last 4096 messages that were pushed, or all of them, in their order.
pub push_all-newest :
    (r : Relay) (ms : List Message)
    → r.outbound ≡ []
    → (push_all r ms).outbound ≡ drop (length ms - max_outbound_queue) ms
push_all-newest r ms none_left =
    push_all-drop r ms (omega (arith, ap length none_left))
    ∙ ap (λ q. drop (length q + length ms - max_outbound_queue) (q ++ ms)) none_left
    ∙ ap (λ n. drop (n - max_outbound_queue) ms) (omega arith)
