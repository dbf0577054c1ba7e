-- ===== src/Registry/Notify/Depth.antt =====
-- What a callback calls, and Dispatch of src/Registry.cpp, leave m_dispatchDepth as it is.
use euroscope_plugin_bridge.Prelude.{
  ℕ, ◌+◌, refl, ◌∙◌, Bool, true, false, not, List, [], ◌∷◌, Option, none, some, if◌then◌else◌,
  get_elem?, arith, Bool-cases, Option-cases, inl, inr,
}
use euroscope_plugin_bridge.Prelude.Maps.{lookup, nat_eq}
use euroscope_plugin_bridge.Schema.{Bytes, SubscriptionDef}
use euroscope_plugin_bridge.Registry.{Registry, field}
use euroscope_plugin_bridge.Registry.Depth.{SameDepth, set_global-SameDepth, clear_global-SameDepth}
use euroscope_plugin_bridge.Registry.Aircraft.Depth.{
  set_aircraft-SameDepth, clear_aircraft-SameDepth,
}
use euroscope_plugin_bridge.Registry.Drop.Depth.{unregister_provider-SameDepth}
use euroscope_plugin_bridge.Registry.Register.Depth.{register_provider-SameDepth}
use euroscope_plugin_bridge.Registry.Notify.{
  Action, sets_global, clears_global, sets_aircraft, clears_aircraft, subscribes, unsubscribes,
  registers, unregisters, Script, returns, faults, does, is_pending, queue_pending, subscribe,
  unsubscribe, act, perform, run_callback, deliver, deliver_all, dispatch, dispatch_all,
  drop_faulted, count_delivery,
}

queue_pending-SameDepth : (r : Registry) (i a : ℕ) → SameDepth r (queue_pending r i a)
unfolding queue_pending
queue_pending-SameDepth r i a = elim (Bool-cases (is_pending i a r.pending)) [
  | inl q ↦ rw q refl
  | inr q ↦ rw q refl
]

subscribe-SameDepth :
    (r : Registry) (f : ℕ) (cb : Option ℕ) (user module_handle : ℕ) (path : Bytes) (out : Bool)
    → SameDepth r (subscribe true r f cb user module_handle path out).0
unfolding subscribe
subscribe-SameDepth r f none user module_handle path out = refl
subscribe-SameDepth r f (some cb) user module_handle path false = refl
subscribe-SameDepth r f (some cb) user module_handle path true = elim (Option-cases (field r f)) [
  | inl q ↦ rw (q, subscribe) refl
  | inr (fd, q) ↦ rw (q, subscribe) refl
]

unsubscribe-SameDepth : (r : Registry) (s : ℕ) → SameDepth r (unsubscribe true r s).0
unfolding unsubscribe
unsubscribe-SameDepth r s = elim (Option-cases (get_elem? r.subs s)) [
  | inl q ↦ rw (q, unsubscribe) refl
  | inr (sub, q) ↦ elim (Bool-cases sub.live) [
    | inl l ↦ rw (q, unsubscribe, l) refl
    | inr l ↦ rw (q, unsubscribe, l) refl
  ]
]

drop_faulted-SameDepth : (r : Registry) (index : ℕ) → SameDepth r (drop_faulted r index)
drop_faulted-SameDepth r index = elim (Option-cases (get_elem? r.subs index)) [
  | inl q ↦ rw (q, drop_faulted) refl
  | inr (sub, q) ↦ rw (q, drop_faulted) refl
]

if-SameDepth :
    (r x y : Registry) (b : Bool) → SameDepth r x → SameDepth r y → SameDepth r (if b then x else y)
if-SameDepth r x y true hx hy = hx
if-SameDepth r x y false hx hy = hy

module _ (module_is_loaded : ℕ → Bytes → Bool) (path_of : ℕ → Bytes) where
  act-SameDepth : (a : Action) (r : Registry) → SameDepth r (act module_is_loaded path_of a r).0
  unfolding act
  act-SameDepth (sets_global p f v) r =
      set_global-SameDepth queue_pending queue_pending-SameDepth r p f v
  act-SameDepth (clears_global p f) r =
      clear_global-SameDepth queue_pending queue_pending-SameDepth r p f
  act-SameDepth (sets_aircraft p a f v) r =
      set_aircraft-SameDepth queue_pending queue_pending-SameDepth r p a f v
  act-SameDepth (clears_aircraft p a f) r =
      clear_aircraft-SameDepth queue_pending queue_pending-SameDepth r p a f
  act-SameDepth (subscribes f cb user module_handle out) r =
      subscribe-SameDepth r f cb user module_handle (path_of module_handle) out
  act-SameDepth (unsubscribes s) r = unsubscribe-SameDepth r s
  act-SameDepth (registers d) r =
      register_provider-SameDepth queue_pending queue_pending-SameDepth module_is_loaded path_of r d
  act-SameDepth (unregisters p) r = unregister_provider-SameDepth r p

  perform-SameDepth :
      (s : Script) (r : Registry) → SameDepth r (perform module_is_loaded path_of s r).0
  unfolding perform
  perform-SameDepth returns r = refl
  perform-SameDepth faults r = refl
  perform-SameDepth (does a next) r =
      let (r', st) = act module_is_loaded path_of a r in
      perform-SameDepth (next r' st) r' ∙ act-SameDepth a r

  module _ (callback : ℕ → ℕ → ℕ → ℕ → Registry → Script) where
    run_callback-SameDepth :
        (r : Registry) (index : ℕ) (sub : SubscriptionDef) (i a : ℕ)
        → SameDepth r (run_callback module_is_loaded path_of callback r index sub i a)
    unfolding run_callback
    run_callback-SameDepth r index sub i a =
        let found = count_delivery r index sub in
        let script = callback sub.callback (i + 1) a sub.user found in
        elim (Bool-cases (perform module_is_loaded path_of script found).1) [
          | inl q ↦ rw q (perform-SameDepth script found)
          | inr q ↦ rw q (
              drop_faulted-SameDepth (perform module_is_loaded path_of script found).0 index
              ∙ perform-SameDepth script found)
        ]

    deliver-SameDepth :
        (r : Registry) (index i a : ℕ)
        → SameDepth r (deliver module_is_loaded path_of callback r index i a)
    unfolding deliver
    deliver-SameDepth r index i a = elim (Option-cases (get_elem? r.subs index)) [
      | inl q ↦ rw (q, deliver) refl
      | inr (sub, q) ↦
          rw (q, deliver)
            (if-SameDepth r r _ (not sub.live) refl (run_callback-SameDepth r index sub i a))
    ]

    deliver_all-SameDepth :
        (targets : List ℕ) (i a : ℕ) (r : Registry)
        → SameDepth r (deliver_all module_is_loaded path_of callback targets i a r)
    unfolding deliver_all
    deliver_all-SameDepth [] i a r = refl
    deliver_all-SameDepth (index ∷ targets) i a r =
        deliver_all-SameDepth targets i a _ ∙ deliver-SameDepth r index i a

    pub dispatch-SameDepth :
        (r : Registry) (i a : ℕ) → SameDepth r (dispatch module_is_loaded path_of callback r i a)
    unfolding dispatch
    dispatch-SameDepth r i a = elim (Option-cases (lookup i r.subs_by_field)) [
      | inl q ↦ rw (q, dispatch) refl
      | inr (targets, q) ↦
          (let deeper : Registry = record r { dispatch_depth = r.dispatch_depth + 1 } in
            let same = deliver_all-SameDepth targets i a deeper in
            rw (q, dispatch) (omega (arith, same)))
    ]

    pub dispatch_all-SameDepth :
        (batch : List (ℕ × ℕ)) (r : Registry)
        → SameDepth r (dispatch_all module_is_loaded path_of callback batch r)
    unfolding dispatch_all
    dispatch_all-SameDepth [] r = refl
    dispatch_all-SameDepth ((i, a) ∷ batch) r =
        dispatch_all-SameDepth batch _ ∙ dispatch-SameDepth r i a
