-- ===== src/AircraftTable/Generations.antt =====
-- How the generations move: what one call of src/AircraftTable.cpp does to each slot's entry, as long as
-- the 32-bit generations do not wrap.
use euroscope_plugin_bridge.Prelude.{
  ℕ, ◌+◌, ◌≤◌, ◌<◌, ◌^◌, ◌≡◌, refl, ap, subst, true, false, List, [], ◌∷◌, ◌++◌, Option, none, some,
  arith, length, get_or, set, Option-cases, inl, inr, ◌⊎◌, length-set, length-append,
  get_or-set_self, get_or-set_ne, get_or-push, get_or-push_ne, Bool-cases,
}
use euroscope_plugin_bridge.Prelude.Maps.{lookup, bytes_key}
use native.Mathlib.Decide.{ℕ_discrete}
use euroscope_plugin_bridge.AircraftTable.{
  Bytes, Entry, Table, Fate, keep, retires, reclaims, fate, apply_fate, fresh_entry, entry_at,
  retire_entry, taken_entry, observe, observe_known, observe_new, retire, retire_slot, sweep,
}
use euroscope_plugin_bridge.AircraftTable.Invariant.{IsWf}
use euroscope_plugin_bridge.AircraftTable.Sweep.{sweep-entry, length-sweep, fate_reclaims_used}

-- An entry that was live and in use stays so under its generation, or its generation has gone up.
abbrev pub IsLoyal : Entry → Entry → Type 0
IsLoyal e e' =
    e.live ≡ true
    → e.used ≡ true
    → ((e'.generation ≡ e.generation) × (e'.live ≡ true) × (e'.used ≡ true))
      ⊎ (e.generation < e'.generation)

abbrev pub Succeeds : Entry → Entry → Type 0
Succeeds e e' =
    e.generation + 1 < 2 ^ 32
    → (e.generation ≤ e'.generation) × (e'.generation ≤ e.generation + 1) × IsLoyal e e'

-- One call: slots are never lost, at most one is added, at generation 1, and each entry succeeds itself.
pub record Advances (t t' : Table) : Type 0 where
  pub kept : length t.slots ≤ length t'.slots
  pub grown : length t'.slots ≤ length t.slots + 1
  pub fresh : (s : ℕ) → length t.slots ≤ s → s < length t'.slots → (entry_at t' s).generation ≡ 1
  pub succeeds : (s : ℕ) → s < length t.slots → Succeeds (entry_at t s) (entry_at t' s)

same-Succeeds : (e : Entry) → Succeeds e e
same-Succeeds e h = (omega arith, omega arith, λ l u. inl (refl, l, u))

retire-Succeeds : (e : Entry) → Succeeds e (retire_entry e)
retire-Succeeds e h = (omega arith, omega arith, λ l u. inr (omega arith))

pub same-Advances : (t : Table) → Advances t t
same-Advances t = record {
  kept = omega arith;
  grown = omega arith;
  fresh = λ s h k. absurd (omega arith);
  succeeds = λ s h. same-Succeeds (entry_at t s);
}

-- One slot is rewritten.
set-Advances :
    (t : Table) (slot : ℕ) (e : Entry) (free : List ℕ) (index : List (Bytes × ℕ))
    → slot < length t.slots
    → Succeeds (entry_at t slot) e
    → Advances t (record { slots = set t.slots slot e; free = free; index = index })
set-Advances t slot e free index h r = record {
  kept = omega (arith, length-set t.slots slot e);
  grown = omega (arith, length-set t.slots slot e);
  fresh = λ s a b. absurd (omega (arith, length-set t.slots slot e));
  succeeds = λ s a. elim (ℕ_discrete slot s) [
    | yes q ↦
        subst (λ x. Succeeds (entry_at t x) (get_or (set t.slots slot e) x fresh_entry)) q
          (rw (get_or-set_self t.slots slot e fresh_entry h) r)
    | no q ↦ rw (get_or-set_ne t.slots slot s e fresh_entry q) (same-Succeeds (entry_at t s))
  ];
}

observe_known-Advances :
    (t : Table) (slot now : ℕ) → slot < length t.slots → Advances t (observe_known t slot now).0
unfolding observe_known
observe_known-Advances t slot now h =
    set-Advances t slot _ t.free t.index h
      (λ g. (omega arith, omega arith, λ l u. inl (refl, refl, u)))

observe_new-Advances :
    (t : Table) (cs : Bytes) (now : ℕ) (free : List ℕ)
    → IsWf t
    → t.free ≡ free
    → length t.slots < 2 ^ 32
    → Advances t (observe_new t cs now free).0
unfolding observe_new
observe_new-Advances t cs now (slot ∷ free) w q small =
    let (h, u) = (rw q at w.unused).0 in
    set-Advances t slot _ free _ h (λ g. (omega arith, omega arith, λ l v. absurd (cc)))
observe_new-Advances t cs now [] w q small =
    let n = length-append t.slots (taken_entry cs 1 now ∷ []) in
    record {
      kept = omega (arith, n);
      grown = omega (arith, n);
      fresh = λ s a b.
          let e : length t.slots ≡ s = omega (arith, n) in
          subst
            (λ x. (get_or (t.slots ++ (taken_entry cs 1 now ∷ [])) x fresh_entry).generation ≡ 1) e
            (ap (λ x. x.generation) (get_or-push t.slots (taken_entry cs 1 now) fresh_entry));
      succeeds = λ s a.
          rw (get_or-push_ne t.slots (taken_entry cs 1 now) fresh_entry s (λ e. omega arith))
            (same-Succeeds (entry_at t s));
    }

pub observe-Advances :
    (t : Table) (cs : Option Bytes) (now : ℕ)
    → IsWf t
    → length t.slots < 2 ^ 32
    → Advances t (observe t cs now).0
unfolding observe
observe-Advances t none now w small = same-Advances t
observe-Advances t (some []) now w small = same-Advances t
observe-Advances t (some (c ∷ cs)) now w small = elim (Option-cases (lookup (c ∷ cs) t.index)) [
  | inl q ↦ rw (q, observe) (observe_new-Advances t (c ∷ cs) now t.free w refl small)
  | inr (slot, q) ↦
      rw (q, observe) (observe_known-Advances t slot now (w.indexed (c ∷ cs) slot q).0)
]

retire_slot-Advances :
    (t : Table) (slot : ℕ) → slot < length t.slots → Advances t (retire_slot t slot).0
unfolding retire_slot
retire_slot-Advances t slot h = elim (Bool-cases (entry_at t slot).live) [
  | inl l ↦ rw l (set-Advances t slot _ t.free t.index h (retire-Succeeds (entry_at t slot)))
  | inr l ↦ rw l (same-Advances t)
]

pub retire-Advances : (t : Table) (cs : Option Bytes) → IsWf t → Advances t (retire t cs).0
unfolding retire
retire-Advances t none w = same-Advances t
retire-Advances t (some []) w = same-Advances t
retire-Advances t (some (c ∷ cs)) w = elim (Option-cases (lookup (c ∷ cs) t.index)) [
  | inl q ↦ rw (q, retire) (same-Advances t)
  | inr (slot, q) ↦ rw (q, retire) (retire_slot-Advances t slot (w.indexed (c ∷ cs) slot q).0)
]

apply-Succeeds :
    (f : Fate) (e : Entry) → (f ≡ reclaims → e.live ≡ false) → Succeeds e (apply_fate f e)
apply-Succeeds keep e d = same-Succeeds e
apply-Succeeds retires e d = retire-Succeeds e
apply-Succeeds reclaims e d = λ h. (omega arith, omega arith, λ l u. absurd (cc (d refl)))

pub sweep-Advances : (t : Table) (now ttl grace : ℕ) → IsWf t → Advances t (sweep t now ttl grace).0
sweep-Advances t now ttl grace w = record {
  kept = omega (arith, length-sweep now ttl grace t w);
  grown = omega (arith, length-sweep now ttl grace t w);
  fresh = λ s a b. absurd (omega (arith, length-sweep now ttl grace t w));
  succeeds = λ s a. rw (sweep-entry now ttl grace t w s) (
      apply-Succeeds (fate now ttl grace (entry_at t s)) (entry_at t s)
        (λ r. (fate_reclaims_used now ttl grace (entry_at t s) r).1));
}
