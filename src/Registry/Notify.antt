-- ===== src/Registry/Notify.antt =====
-- Notify, Dispatch, DrainPending, QueuePending, Subscribe and Unsubscribe of src/Registry.cpp.
-- A subscriber's callback is a parameter: from the registry that it finds, a script of the calls that it
-- makes of the registry, each of which may depend on the state and the status before it, and that ends by
-- a return or by a fault. What a call inside a callback notifies is queued.
pub mod Depth
pub mod Drained
use euroscope_plugin_bridge.Prelude.{
  ℕ, zero, suc, ◌+◌, ◌-◌, ◌%◌, ◌^◌, Bool, true, false, not, ◌&&◌, List, [], ◌∷◌, ◌++◌, Option, none,
  some, ltb, ◌==◌, if◌then◌else◌, length, get_elem?, set,
}
use euroscope_plugin_bridge.Prelude.Maps.{lookup, insert, nat_eq}
use euroscope_plugin_bridge.Status.{Status, ok, invalid_arg, no_field, wrong_thread}
use euroscope_plugin_bridge.Value.{Value}
use euroscope_plugin_bridge.Schema.{Bytes, SubscriptionDef, FieldDef, ProviderDecl}
use euroscope_plugin_bridge.Registry.{Registry, field, set_global, clear_global}
use euroscope_plugin_bridge.Registry.Aircraft.{set_aircraft, clear_aircraft}
use euroscope_plugin_bridge.Registry.Indexed.{fields_or}
use euroscope_plugin_bridge.Registry.Drop.{unregister_provider}
use euroscope_plugin_bridge.Registry.Register.{register_provider}

abbrev pub max_dispatch_rounds : ℕ
max_dispatch_rounds = 8

unfoldable pub is_pending : ℕ → ℕ → List (ℕ × ℕ) → Bool
is_pending i a [] = false
is_pending i a ((j, b) ∷ events) =
    let later = is_pending i a events in if (j == i) && (b == a) then true else later

unfoldable pub queue_pending : Registry → ℕ → ℕ → Registry
queue_pending r i a =
    if is_pending i a r.pending then r else record r { pending = r.pending ++ ((i, a) ∷ []) }

-- Subscribe with what GetModuleFileNameA answers, and with whether there is an `out` to write to. The
-- ESB_Sub* is the index.
pub subscribe : Bool → Registry → ℕ → Option ℕ → ℕ → ℕ → Bytes → Bool → Registry × Status × Option ℕ
subscribe main r f none user module_handle path out =
    if not main then (r, wrong_thread, none) else (r, invalid_arg, none)
subscribe main r f (some cb) user module_handle path out =
    let sub : SubscriptionDef = record {
      field_index = f - 1;
      callback = cb;
      user = user;
      module_handle = module_handle;
      module_path = if module_handle == 0 then [] else path;
      live = true;
      delivered = 0;
    } in
    let index = length r.subs in
    let listed = fields_or (lookup (f - 1) r.subs_by_field) ++ (index ∷ []) in
    let r' = record r {
      subs = r.subs ++ (sub ∷ []);
      subs_by_field = insert (f - 1) listed r.subs_by_field;
    } in
    if not main
    then (r, wrong_thread, none)
    else (if not out
        then (r, invalid_arg, none)
        else elim (field r f) [ none ↦ (r, no_field, none) | some fd ↦ (r', ok, some index) ])

abbrev pub kill_sub : Registry → ℕ → SubscriptionDef → Registry
kill_sub r index sub = record r { subs = set r.subs index (record sub { live = false }) }

pub unsubscribe : Bool → Registry → ℕ → Registry × Status
unsubscribe main r s = if not main then (r, wrong_thread) else elim (get_elem? r.subs s) [
  | none ↦ (r, invalid_arg)
  | some sub ↦ (if not sub.live then (r, invalid_arg) else (kill_sub r s sub, ok))
]

-- The calls of the C interface that change the registry and that a callback may make: a provider, an
-- aircraft, a field id, a value. Of a result that is written through a pointer a script knows nothing but
-- what it finds in the registry behind the call.
pub data Action : Type 0 where
  sets_global : Option ℕ → ℕ → Option Value → Action
  clears_global : Option ℕ → ℕ → Action
  sets_aircraft : Option ℕ → ℕ → ℕ → Option Value → Action
  clears_aircraft : Option ℕ → ℕ → ℕ → Action
  subscribes : ℕ → Option ℕ → ℕ → ℕ → Bool → Action
  unsubscribes : ℕ → Action
  registers : Option ProviderDecl → Action
  unregisters : Option ℕ → Action

pub data Script : Type 0 where
  returns : Script
  faults : Script
  does : Action → (Registry → Status → Script) → Script

-- The subscription as the callback has left it, now dead.
abbrev pub drop_faulted : Registry → ℕ → Registry
drop_faulted r index = elim (get_elem? r.subs index) [ none ↦ r | some sub ↦ kill_sub r index sub ]

abbrev pub count_delivery : Registry → ℕ → SubscriptionDef → Registry
count_delivery r index sub = record r {
  subs = set r.subs index (record sub { delivered = (sub.delivered + 1) % 2 ^ 64 });
  dispatched = (r.dispatched + 1) % 2 ^ 64;
}

-- What ModuleIsLoaded and GetModuleFileNameA find out.
module _ (module_is_loaded : ℕ → Bytes → Bool) (path_of : ℕ → Bytes) where
  -- A call inside a callback, where m_dispatchDepth > 0.
  pub act : Action → Registry → Registry × Status
  act (sets_global p f v) r = set_global queue_pending true r p f v
  act (clears_global p f) r = clear_global queue_pending true r p f
  act (sets_aircraft p a f v) r = set_aircraft queue_pending true r p a f v
  act (clears_aircraft p a f) r = clear_aircraft queue_pending true r p a f
  act (subscribes f cb user module_handle out) r =
      let (r', st, sub) = subscribe true r f cb user module_handle (path_of module_handle) out in
      (r', st)
  act (unsubscribes s) r = unsubscribe true r s
  act (registers d) r =
      let (r', st, p) = register_provider queue_pending module_is_loaded path_of true r d in
      (r', st)
  act (unregisters p) r = unregister_provider true r p

  -- `true` is a return.
  pub perform : Script → Registry → Registry × Bool
  perform returns r = (r, true)
  perform faults r = (r, false)
  perform (does a next) r = let (r', st) = act a r in perform (next r' st) r'

  -- callback, field id, aircraft, user
  module _ (callback : ℕ → ℕ → ℕ → ℕ → Registry → Script) where
    pub run_callback : Registry → ℕ → SubscriptionDef → ℕ → ℕ → Registry
    run_callback r index sub i a =
        let found = count_delivery r index sub in
        let (r', fine) = perform (callback sub.callback (i + 1) a sub.user found) found in
        if fine then r' else drop_faulted r' index

    pub deliver : Registry → ℕ → ℕ → ℕ → Registry
    deliver r index i a = elim (get_elem? r.subs index) [
      | none ↦ r
      | some sub ↦ (if not sub.live then r else run_callback r index sub i a)
    ]

    pub deliver_all : List ℕ → ℕ → ℕ → Registry → Registry
    deliver_all [] i a r = r
    deliver_all (index ∷ targets) i a r = deliver_all targets i a (deliver r index i a)

    pub dispatch : Registry → ℕ → ℕ → Registry
    dispatch r i a = elim (lookup i r.subs_by_field) [
      | none ↦ r
      | some targets ↦
          (let deeper = record r { dispatch_depth = r.dispatch_depth + 1 } in
            let done = deliver_all targets i a deeper in
            record done { dispatch_depth = done.dispatch_depth - 1 })
    ]

    pub dispatch_all : List (ℕ × ℕ) → Registry → Registry
    dispatch_all [] r = r
    dispatch_all ((i, a) ∷ batch) r = dispatch_all batch (dispatch r i a)

    -- `rounds` are left before what is queued is shed.
    pub drain_rounds : ℕ → Registry → Registry
    drain_rounds zero r = elim r.pending [
      | [] ↦ r
      | event ∷ events ↦ record r {
        dropped = (r.dropped + length (event ∷ events)) % 2 ^ 64;
        pending = [];
      }
    ]
    drain_rounds (suc rounds) r = elim r.pending [
      | [] ↦ r
      | event ∷ events ↦
          drain_rounds rounds (dispatch_all (event ∷ events) (record r { pending = [] }))
    ]

    pub drain_pending : Registry → Registry
    drain_pending r = drain_rounds max_dispatch_rounds r

    pub notify : Registry → ℕ → ℕ → Registry
    notify r i a =
        if ltb 0 r.dispatch_depth then queue_pending r i a else drain_pending (dispatch r i a)
