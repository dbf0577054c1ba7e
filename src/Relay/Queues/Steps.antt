-- ===== src/Relay/Queues/Steps.antt =====
-- Every history of the relay: the steps of its two threads, in any order, of src/Relay.cpp.
use euroscope_plugin_bridge.Prelude.{
  ◌≡◌, ℕ, Bool, true, false, [], ◌++◌, Option, none, some, suc, length, arith,
}
use euroscope_plugin_bridge.Text.{Bytes}
use euroscope_plugin_bridge.Relay.{
  Identity, Message, Relay, push_outbound, pop_inbound, note_rejected, pump_outbound, pump_inbound,
  no_trouble, keep_alive,
}
use euroscope_plugin_bridge.Relay.Connect.{
  start, stop, finish_thread, Attempt, connect_and_subscribe,
}
use euroscope_plugin_bridge.Relay.Connect.Kept.{
  finish_thread-IsRelay, stop-IsRelay, start-IsRelay, connect_and_subscribe-IsRelay,
}
use euroscope_plugin_bridge.Relay.Queues.{
  IsRelay, push_outbound-IsRelay, pop_inbound-IsRelay, drain_rx-IsRelay, send_batch-IsRelay,
}
use euroscope_plugin_bridge.Relay.Queues.Peers.{ArePeerNames}

-- A relay that was just made, with the configuration of Start.
abbrev pub new_relay : Identity → Relay
new_relay id = record {
  identity = id;
  running = false;
  connected = false;
  published = 0;
  received = 0;
  rejected = 0;
  outbound = [];
  inbound = [];
  peers = [];
  last_error = no_trouble;
  rx = [];
}

-- What either thread does: the main thread's calls, and the calls of ThreadMain. A relay is started again
-- under the name that it had.
pub data Step : Relay → Relay → Type 0 where
  pushes : (r : Relay) (m : Message) → Step r (push_outbound r m)
  pops : (r : Relay) → Step r (pop_inbound r).0
  notes : (r : Relay) → Step r (note_rejected r)
  connects : (r : Relay) (a : Attempt) → Step r (connect_and_subscribe a r).0
  sends : (r : Relay) (accepts : ℕ → Bool) → Step r (pump_outbound accepts r).0
  reads :
      (r : Relay) (read : Option Bytes) (due takes : Bool)
      → Step r (pump_inbound r read due takes).0
  disconnects : (r : Relay) → Step r (record r { connected = false })
  stops : (r : Relay) → Step r (stop r)
  restarts :
      (r : Relay) (id : Identity) → r.identity.controller ≡ id.controller → Step r (start id r)
  finishes : (r : Relay) (is_connected : Bool) → Step r (finish_thread is_connected r).0

pub data Reachable (id : Identity) : Relay → Type 0 where
  starts : Reachable id (new_relay id)
  goes_on : (r r' : Relay) → Reachable id r → Step r r' → Reachable id r'

new_relay-IsRelay : (id : Identity) → IsRelay (new_relay id)
unfolding ArePeerNames
new_relay-IsRelay id = record { few_out = omega arith; few_in = omega arith; others = tt }

keep_alive-IsRelay :
    (due takes : Bool) (x : Relay × Bool) → IsRelay x.0 → IsRelay (keep_alive due takes x).0
keep_alive-IsRelay due takes (r, true) h = h
keep_alive-IsRelay due takes (r, false) h = h

pump_outbound-IsRelay :
    (r : Relay) (accepts : ℕ → Bool) → IsRelay r → IsRelay (pump_outbound accepts r).0
unfolding pump_outbound
pump_outbound-IsRelay r accepts h =
    send_batch-IsRelay accepts 0 _ r.outbound
      (record { few_out = omega arith; few_in = h.few_in; others = h.others })

pump_inbound-IsRelay :
    (r : Relay) (read : Option Bytes) (due takes : Bool)
    → IsRelay r
    → IsRelay (pump_inbound r read due takes).0
unfolding pump_inbound
pump_inbound-IsRelay r none due takes h = h
pump_inbound-IsRelay r (some chunk) due takes h =
    keep_alive-IsRelay due takes _ (drain_rx-IsRelay (suc (length (r.rx ++ chunk))) _ h)

Step-IsRelay : (r r' : Relay) → Step r r' → IsRelay r → IsRelay r'
Step-IsRelay _ _ (pushes r m) h = push_outbound-IsRelay r m h
Step-IsRelay _ _ (pops r) h = pop_inbound-IsRelay r h
Step-IsRelay _ _ (notes r) h = h
Step-IsRelay _ _ (connects r a) h = connect_and_subscribe-IsRelay a r h
Step-IsRelay _ _ (sends r accepts) h = pump_outbound-IsRelay r accepts h
Step-IsRelay _ _ (reads r read due takes) h = pump_inbound-IsRelay r read due takes h
Step-IsRelay _ _ (disconnects r) h = h
Step-IsRelay _ _ (stops r) h = stop-IsRelay r h
Step-IsRelay _ _ (restarts r id named) h = start-IsRelay r id named h
Step-IsRelay _ _ (finishes r is_connected) h = finish_thread-IsRelay r is_connected h

-- Whatever the broker sends, however the two threads take turns and however often the relay is stopped and
-- started again under its name, it has at most 4096 messages in
-- each queue, and its peers are the names of others, each of them once.
pub Reachable-IsRelay : (id : Identity) (r : Relay) → Reachable id r → IsRelay r
Reachable-IsRelay id _ starts = new_relay-IsRelay id
Reachable-IsRelay id _ (goes_on r r' before step) =
    Step-IsRelay r r' step (Reachable-IsRelay id r before)
