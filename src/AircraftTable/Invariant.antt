-- ===== src/AircraftTable/Invariant.antt =====
-- The invariant of the table: the index and the used slots agree, the free list has the unused ones,
-- and only used slots are live. Kept by Observe and Retire.
use euroscope_plugin_bridge.Prelude.{
  ℕ, ◌<◌, ◌≡◌, ◌≢◌, refl, sym, ◌∙◌, subst, true, false, [], ◌∷◌, Option, none, some, length, get_or,
  set, All, All-imp, Distinct, get_or-set_self, get_or-set_ne, length-set, Option-cases, inl, inr,
  Bool-cases,
}
use euroscope_plugin_bridge.Prelude.Maps.{lookup, bytes_key}
use native.Mathlib.Decide.{ℕ_discrete}
use euroscope_plugin_bridge.AircraftTable.{
  Bytes, Entry, Table, fresh_entry, entry_at, observe_known, retire_slot, retire, empty_table,
}

pub record IsWf (t : Table) : Type 0 where
  pub indexed :
      (cs : Bytes) (s : ℕ)
      → lookup cs t.index ≡ some s
      → (s < length t.slots) × ((entry_at t s).used ≡ true) × ((entry_at t s).callsign ≡ cs)
  pub listed :
      (s : ℕ) → (entry_at t s).used ≡ true → lookup (entry_at t s).callsign t.index ≡ some s
  pub unused : All (λ s. (s < length t.slots) × ((entry_at t s).used ≡ false)) t.free
  pub distinct : Distinct t.free
  pub live_used : (s : ℕ) → (entry_at t s).live ≡ true → (entry_at t s).used ≡ true

pub empty-IsWf : IsWf empty_table
unfolding lookup
empty-IsWf = record {
  indexed = λ cs s e. cc;
  listed = λ s e. cc;
  unused = tt;
  distinct = tt;
  live_used = λ s e. cc;
}

-- An entry of a table in which one slot was written.
pub entry_at-set :
    (t : Table) (slot s : ℕ) (e : Entry) (P : Entry → Type 0)
    → slot < length t.slots
    → (slot ≡ s → P e)
    → (slot ≢ s → P (entry_at t s))
    → P (get_or (set t.slots slot e) s fresh_entry)
entry_at-set t slot s e P h here there = elim (ℕ_discrete slot s) [
  | yes q ↦ rw (← q, get_or-set_self t.slots slot e fresh_entry h) (here q)
  | no q ↦ rw (get_or-set_ne t.slots slot s e fresh_entry q) (there q)
]

module _ (t : Table) (slot : ℕ) (e : Entry) (w : IsWf t) (h : slot < length t.slots)
    (u : e.used ≡ (entry_at t slot).used) (c : e.callsign ≡ (entry_at t slot).callsign)
    (l : e.live ≡ true → e.used ≡ true) where
  abbrev rewritten : Table
  rewritten = record t { slots = set t.slots slot e }

  same_names :
      (s : ℕ)
      → ((entry_at rewritten s).used ≡ (entry_at t s).used)
        × ((entry_at rewritten s).callsign ≡ (entry_at t s).callsign)
  same_names s =
      entry_at-set t slot s e
        (λ x. (x.used ≡ (entry_at t s).used) × (x.callsign ≡ (entry_at t s).callsign)) h
        (λ q.
          subst (λ k. (e.used ≡ (entry_at t k).used) × (e.callsign ≡ (entry_at t k).callsign)) q
            (u, c))
        (λ q. (refl, refl))

  -- A write that leaves the names alone keeps the invariant.
  rename-IsWf : IsWf rewritten
  rename-IsWf = record {
    indexed = λ cs s q.
        let (a, b, d) = w.indexed cs s q in
        let (x, y) = same_names s in (rw (length-set t.slots slot e) a, x ∙ b, y ∙ d);
    listed = λ s q. let (x, y) = same_names s in rw y (w.listed s (sym x ∙ q));
    unused =
        All-imp t.free (λ s k. (rw (length-set t.slots slot e) k.0, (same_names s).0 ∙ k.1))
          w.unused;
    distinct = w.distinct;
    live_used = λ s.
        entry_at-set t slot s e (λ x. x.live ≡ true → x.used ≡ true) h (λ q. l)
          (λ q. w.live_used s);
  }

pub observe_known-IsWf :
    (t : Table) (cs : Bytes) (slot now : ℕ)
    → IsWf t
    → lookup cs t.index ≡ some slot
    → IsWf (observe_known t slot now).0
unfolding observe_known
observe_known-IsWf t cs slot now w q =
    let (h, u, c) = w.indexed cs slot q in rename-IsWf t slot _ w h refl refl (λ _. u)

pub retire_slot-IsWf :
    (t : Table) (cs : Bytes) (slot : ℕ)
    → IsWf t
    → lookup cs t.index ≡ some slot
    → IsWf (retire_slot t slot).0
unfolding retire_slot
retire_slot-IsWf t cs slot w q =
    let (h, u, c) = w.indexed cs slot q in
    elim (Bool-cases (entry_at t slot).live) [
      | inl v ↦ rw v (rename-IsWf t slot _ w h refl refl (λ _. u))
      | inr v ↦ rw v w
    ]

-- Retire keeps the invariant, on every branch.
pub retire-IsWf : (t : Table) (cs : Option Bytes) → IsWf t → IsWf (retire t cs).0
unfolding retire
retire-IsWf t none w = w
retire-IsWf t (some []) w = w
retire-IsWf t (some (c ∷ cs)) w = elim (Option-cases (lookup (c ∷ cs) t.index)) [
  | inl q ↦ rw (q, retire) w
  | inr (slot, q) ↦ rw (q, retire) (retire_slot-IsWf t (c ∷ cs) slot w q)
]
