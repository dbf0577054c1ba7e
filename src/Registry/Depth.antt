-- ===== src/Registry/Depth.antt =====
-- The writes of global values in src/Registry.cpp leave m_dispatchDepth as it is.
use euroscope_plugin_bridge.Prelude.{
  ℕ, ◌-◌, ◌≡◌, ◌⊎◌, refl, ◌∙◌, true, Option, none, some, arith, Bool-cases, Option-cases, inl, inr,
}
use euroscope_plugin_bridge.Prelude.Maps.{lookup, nat_eq}
use euroscope_plugin_bridge.Status.{Status, ok}
use euroscope_plugin_bridge.Value.{Value, Slot, same_value}
use euroscope_plugin_bridge.Schema.{scope_global}
use euroscope_plugin_bridge.Registry.{
  Registry, Checked, passed, refused, check_write, slot_or, set_global, clear_global, write_global,
  clear_slot, queue_outbound, mark_state_dirty,
}

abbrev pub SameDepth : Registry → Registry → Type 0
SameDepth r r' = r'.dispatch_depth ≡ r.dispatch_depth

pub queue_outbound-SameDepth : (r : Registry) (i a : ℕ) → SameDepth r (queue_outbound r i a)
unfolding queue_outbound
queue_outbound-SameDepth r i a = ground arith

mark_state_dirty-SameDepth : (r : Registry) (i : ℕ) → SameDepth r (mark_state_dirty r i)
unfolding mark_state_dirty
mark_state_dirty-SameDepth r i = ground arith

pub Checked-cases : (c : Checked) → ((st : Status) × (c ≡ refused st)) ⊎ ((o : ℕ) × (c ≡ passed o))
Checked-cases (refused st) = inl (st, refl)
Checked-cases (passed o) = inr (o, refl)

-- A call behind the test of a handle.
pub if_ok-SameDepth :
    (r : Registry) (w : Registry × Status) (st : Status)
    → SameDepth r w.0
    → SameDepth r (elim st as (λ _. Registry × Status) [ ok ↦ w | st' ↦ (r, st') ]).0
if_ok-SameDepth r w ok h = h
if_ok-SameDepth r w st h = refl

module _ (notify : Registry → ℕ → ℕ → Registry)
    (notify-SameDepth : (r : Registry) (i a : ℕ) → SameDepth r (notify r i a)) where
  ends-SameDepth :
      (r : Registry) (i a : ℕ)
      → SameDepth r (notify (mark_state_dirty (queue_outbound r i a) i) i a)
  ends-SameDepth r i a =
      notify-SameDepth _ i a ∙ (mark_state_dirty-SameDepth _ i ∙ queue_outbound-SameDepth r i a)

  write_global-SameDepth :
      (r : Registry) (o i : ℕ) (v : Value) → SameDepth r (write_global notify r o i v).0
  unfolding write_global
  write_global-SameDepth r o i v = elim (Bool-cases (same_value (slot_or (lookup i r.globals)) v)) [
    | inl q ↦ rw q refl
    | inr q ↦ rw q (ends-SameDepth _ i 0)
  ]

  pub set_global-SameDepth :
      (r : Registry) (p : Option ℕ) (f : ℕ) (v : Option Value)
      → SameDepth r (set_global notify true r p f v).0
  unfolding set_global
  set_global-SameDepth r p f none =
      elim (Checked-cases (check_write true r p f scope_global none)) [
        | inl (st, q) ↦ rw (q, set_global) refl
        | inr (o, q) ↦ rw (q, set_global) refl
      ]
  set_global-SameDepth r p f (some v) =
      elim (Checked-cases (check_write true r p f scope_global (some v))) [
        | inl (st, q) ↦ rw (q, set_global) refl
        | inr (o, q) ↦ rw (q, set_global) (write_global-SameDepth r o (f - 1) v)
      ]

  clear_slot-SameDepth :
      (r : Registry) (o i : ℕ) (s : Slot) → SameDepth r (clear_slot notify r o i s).0
  unfolding clear_slot
  clear_slot-SameDepth r o i s = elim (Bool-cases s.assigned) [
    | inl q ↦ rw q (ends-SameDepth _ i 0)
    | inr q ↦ rw q refl
  ]

  pub clear_global-SameDepth :
      (r : Registry) (p : Option ℕ) (f : ℕ) → SameDepth r (clear_global notify true r p f).0
  unfolding clear_global
  clear_global-SameDepth r p f = elim (Checked-cases (check_write true r p f scope_global none)) [
    | inl (st, q) ↦ rw (q, clear_global) refl
    | inr (o, q) ↦ elim (Option-cases (lookup (f - 1) r.globals)) [
      | inl n ↦ rw (q, clear_global, n) refl
      | inr (s, n) ↦ rw (q, clear_global, n) (clear_slot-SameDepth r o (f - 1) s)
    ]
  ]
