-- ===== src/Registry/Notify/Drained.antt =====
-- The rounds of a notification that does not come from a callback: Notify, DrainPending and Dispatch of
-- src/Registry.cpp, whatever the subscribers do.
use euroscope_plugin_bridge.Prelude.{
  ℕ, zero, suc, ◌+◌, ◌%◌, ◌^◌, ◌≡◌, ◌≢◌, ◌⊎◌, refl, sym, ap, subst, ◌∙◌, length, Bool, false, List,
  [], ◌∷◌, ltb, arith, le→ltb, inl, inr,
}
use euroscope_plugin_bridge.Prelude.Maps.{nat_eq}
use euroscope_plugin_bridge.Schema.{Bytes}
use euroscope_plugin_bridge.Registry.{Registry}
use euroscope_plugin_bridge.Registry.Depth.{SameDepth}
use euroscope_plugin_bridge.Registry.Notify.Depth.{dispatch-SameDepth, dispatch_all-SameDepth}
use euroscope_plugin_bridge.Registry.Notify.{
  Script, dispatch, dispatch_all, drain_rounds, drain_pending, notify, max_dispatch_rounds,
}

Events-cases :
    (events : List (ℕ × ℕ))
    → (events ≡ []) ⊎ ((e : ℕ × ℕ) × (rest : List (ℕ × ℕ)) × (events ≡ e ∷ rest))
Events-cases [] = inl refl
Events-cases (e ∷ rest) = inr (e, rest, refl)

-- What is left of a registry behind the last round: it as it is, if nothing is queued, or without what is
-- queued, which is counted.
pub data IsDrained (last out : Registry) : Type 0 where
  delivers : last.pending ≡ [] → out ≡ last → IsDrained last out
  sheds :
      last.pending ≢ []
      → out ≡ record last { dropped = (last.dropped + length last.pending) % 2 ^ 64; pending = [] }
      → IsDrained last out

IsDrained-empty : (last out : Registry) → IsDrained last out → out.pending ≡ []
IsDrained-empty last out (delivers empty e) = ap (λ r. r.pending) e ∙ empty
IsDrained-empty last out (sheds left e) = ap (λ r. r.pending) e

IsDrained-SameDepth : (last out : Registry) → IsDrained last out → SameDepth last out
IsDrained-SameDepth last out (delivers empty e) = ap (λ r. r.dispatch_depth) e
IsDrained-SameDepth last out (sheds left e) = ap (λ r. r.dispatch_depth) e

module _ (module_is_loaded : ℕ → Bytes → Bool) (path_of : ℕ → Bytes)
    (callback : ℕ → ℕ → ℕ → ℕ → Registry → Script) where
  -- A round: what is queued is dispatched, and what that queues is left.
  unfoldable pub one_round : Registry → Registry
  one_round r = dispatch_all module_is_loaded path_of callback r.pending (record r { pending = [] })

  unfoldable pub rounds : ℕ → Registry → Registry
  rounds zero r = r
  rounds (suc n) r = rounds n (one_round r)

  one_round-SameDepth : (r : Registry) → SameDepth r (one_round r)
  unfolding one_round
  one_round-SameDepth r =
      dispatch_all-SameDepth module_is_loaded path_of callback r.pending (record r { pending = [] })

  rounds-SameDepth : (n : ℕ) (r : Registry) → SameDepth r (rounds n r)
  unfolding rounds
  rounds-SameDepth zero r = refl
  rounds-SameDepth (suc n) r = rounds-SameDepth n (one_round r) ∙ one_round-SameDepth r

  -- A round with nothing queued changes nothing.
  rounds-idle : (n : ℕ) (r : Registry) → r.pending ≡ [] → rounds n r ≡ r
  unfolding rounds one_round dispatch_all
  rounds-idle zero r idle = refl
  rounds-idle (suc n) r idle =
      let same : one_round r ≡ r =
        ap
          (λ events.
            dispatch_all module_is_loaded path_of callback events (record r { pending = [] }))
          idle
        ∙ ap (λ events. record r { pending = events }) (sym idle) in
      ap (rounds n) same ∙ rounds-idle n r idle

  -- The loop is that many rounds, and sheds what is queued behind the last.
  drain_rounds-IsDrained :
      (n : ℕ) (r : Registry)
      → IsDrained (rounds n r) (drain_rounds module_is_loaded path_of callback n r)
  unfolding drain_rounds rounds one_round
  drain_rounds-IsDrained zero r = elim (Events-cases r.pending) [
    | inl q ↦ rw (q, drain_rounds) (delivers refl (ap (λ events. record r { pending = events }) q))
    | inr (e, rest, q) ↦ rw (q, drain_rounds) (sheds (λ left. cc left) refl)
  ]
  drain_rounds-IsDrained (suc n) r = elim (Events-cases r.pending) [
    | inl q ↦
        subst (λ last. IsDrained last (drain_rounds module_is_loaded path_of callback (suc n) r))
          (sym (rounds-idle (suc n) r q))
          (rw (q, drain_rounds) (delivers refl (ap (λ events. record r { pending = events }) q)))
    | inr (e, rest, q) ↦
        (let next =
            dispatch_all module_is_loaded path_of callback (e ∷ rest) (record r { pending = [] }) in
          rw (q, drain_rounds) (drain_rounds-IsDrained n next))
  ]

  -- A notification that does not come from a callback is dispatched, and then what the callbacks have
  -- queued meanwhile, in eight rounds: what each of them queues is dispatched in the next, and a round
  -- with nothing queued does nothing. If nothing is queued behind the eighth, that is all; else what is
  -- queued then is shed and its number added to the count of dropped events, which wraps at 2 ^ 64.
  -- Either way nothing is left queued and no dispatch is open, whatever the callbacks call (writes,
  -- subscriptions, registrations) and whether they fault.
  pub notify-IsDrained :
      (r : Registry) (i a : ℕ)
      → r.dispatch_depth ≡ 0
      → IsDrained
          (rounds 8 (dispatch module_is_loaded path_of callback r i a))
          (notify module_is_loaded path_of callback r i a)
        × ((notify module_is_loaded path_of callback r i a).pending ≡ [])
        × ((notify module_is_loaded path_of callback r i a).dispatch_depth ≡ 0)
  unfolding notify drain_pending
  notify-IsDrained r i a outside =
      let first = dispatch module_is_loaded path_of callback r i a in
      let drained = drain_rounds-IsDrained max_dispatch_rounds first in
      let test : ltb 0 r.dispatch_depth ≡ false =
        le→ltb 0 r.dispatch_depth (omega (arith, outside)) in
      let last = rounds-SameDepth 8 first in
      rw (test, notify)
        (
          drained,
          IsDrained-empty _ _ drained,
          IsDrained-SameDepth _ _ drained
              ∙ last
              ∙ dispatch-SameDepth module_is_loaded path_of callback r i a
              ∙ outside,
        )
