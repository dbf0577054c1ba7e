-- ===== src/AircraftTable/Observe.antt =====
-- Observe of src/AircraftTable.cpp keeps the invariant.
use euroscope_plugin_bridge.Prelude.{
  ℕ, ◌≤◌, ◌<◌, ◌^◌, ◌%◌, ◌≡◌, ◌≢◌, refl, sym, ◌∙◌, ap, subst, true, false, List, [], ◌∷◌, ◌++◌,
  Option, none, some, arith, length, set, All, All-imp, All-both, Distinct, get_or-set_self,
  get_or-set_ne, get_or-push, get_or-push_ne, get_or_beyond, length-set, length-append,
  Option-cases, inl, inr, bytes_eq, bytes_eq_iff, bytes_eq_refl, Bool-cases,
}
use euroscope_plugin_bridge.Prelude.Maps.{lookup, emplace, bytes_key, lookup-emplace}
use native.Mathlib.Decide.{ℕ_discrete}
use euroscope_plugin_bridge.AircraftTable.{
  Bytes, Table, fresh_entry, entry_at, taken_entry, bump, observe_new, observe,
}
use euroscope_plugin_bridge.AircraftTable.Invariant.{IsWf, observe_known-IsWf}

-- A slot that no aircraft uses is given to a callsign that the table does not know.
module _ (t t' : Table) (cs : Bytes) (slot : ℕ) (w : IsWf t) (missing : lookup cs t.index ≡ none)
    (vacant : (entry_at t slot).used ≡ false) (named : (entry_at t' slot).callsign ≡ cs)
    (used : (entry_at t' slot).used ≡ true)
    (there : (s : ℕ) → slot ≢ s → entry_at t' s ≡ entry_at t s) (inside : slot < length t'.slots)
    (grows : length t.slots ≤ length t'.slots) (index : t'.index ≡ emplace cs slot t.index) where
  found : (k : Bytes) → bytes_eq cs k ≡ false → lookup k t'.index ≡ lookup k t.index
  found k d = rw (index, lookup-emplace cs k slot t.index missing, d)

  found_self : lookup cs t'.index ≡ some slot
  found_self = rw (index, lookup-emplace cs cs slot t.index missing, bytes_eq_refl cs)

  claim_indexed :
      (k : Bytes) (s : ℕ)
      → lookup k t'.index ≡ some s
      → (s < length t'.slots) × ((entry_at t' s).used ≡ true) × ((entry_at t' s).callsign ≡ k)
  claim_indexed k s q = elim (Bool-cases (bytes_eq cs k)) [
    | inl d ↦
        let e : cs ≡ k = (bytes_eq_iff cs k).0 d in
        let f : slot ≡ s = ground (arith, found_self, q, e) in
        subst
          (λ x.
            (x < length t'.slots) × ((entry_at t' x).used ≡ true) × ((entry_at t' x).callsign ≡ k))
          f (inside, used, named ∙ e)
    | inr d ↦
        let (a, b, c) = w.indexed k s (sym (found k d) ∙ q) in
        let other : slot ≢ s = λ f. ground (arith, vacant, b, ap (λ x. (entry_at t x).used) f) in
        rw (there s other) (omega arith, b, c)
  ]

  other_name : (k : Bytes) (s : ℕ) → lookup k t.index ≡ some s → bytes_eq cs k ≡ false
  other_name k s q = elim (Bool-cases (bytes_eq cs k)) [
    | inl d ↦ let e : cs ≡ k = (bytes_eq_iff cs k).0 d in ground (arith, missing, q, e)
    | inr d ↦ d
  ]

  claim_listed :
      (s : ℕ) → (entry_at t' s).used ≡ true → lookup (entry_at t' s).callsign t'.index ≡ some s
  claim_listed s q = elim (ℕ_discrete slot s) [
    | yes f ↦ subst (λ x. lookup (entry_at t' x).callsign t'.index ≡ some x) f (rw named found_self)
    | no f ↦
        let e = there s f in
        let known = w.listed s (sym (ap (λ x. x.used) e) ∙ q) in
        rw e (found (entry_at t s).callsign (other_name _ s known) ∙ known)
  ]

  claim_live : (s : ℕ) → (entry_at t' s).live ≡ true → (entry_at t' s).used ≡ true
  claim_live s = elim (ℕ_discrete slot s) [
    | yes f ↦ λ _. subst (λ x. (entry_at t' x).used ≡ true) f used
    | no f ↦ rw (there s f) (w.live_used s)
  ]

observe_new_reuses :
    (t : Table) (cs : Bytes) (now slot : ℕ) (free : List ℕ)
    → IsWf t
    → lookup cs t.index ≡ none
    → t.free ≡ slot ∷ free
    → IsWf (observe_new t cs now (slot ∷ free)).0
unfolding observe_new
observe_new_reuses t cs now slot free w missing q = record {
  indexed = claim_indexed t t' cs slot w missing vacant.1 named used there inside grows refl;
  listed = claim_listed t t' cs slot w missing vacant.1 named used there inside grows refl;
  unused = All-imp free still (All-both (λ s. slot ≢ s) Vacant free distinct.0 rest);
  distinct = distinct.1;
  live_used = claim_live t t' cs slot w missing vacant.1 named used there inside grows refl;
}
  where
    gen : ℕ
    gen = bump (entry_at t slot).generation

    t' : Table
    t' = record {
      slots = set t.slots slot (taken_entry cs gen now);
      free = free;
      index = emplace cs slot t.index;
    }

    unused : All (λ s. (s < length t.slots) × ((entry_at t s).used ≡ false)) (slot ∷ free)
    unused = rw q at w.unused

    vacant : (slot < length t.slots) × ((entry_at t slot).used ≡ false)
    vacant = unused.0

    Vacant : ℕ → Type 0
    Vacant s = (s < length t.slots) × ((entry_at t s).used ≡ false)

    rest : All Vacant free
    rest = unused.1

    distinct : Distinct (slot ∷ free)
    distinct = rw q at w.distinct

    written : entry_at t' slot ≡ taken_entry cs gen now
    written = get_or-set_self t.slots slot _ fresh_entry vacant.0

    named : (entry_at t' slot).callsign ≡ cs
    named = ap (λ e. e.callsign) written

    used : (entry_at t' slot).used ≡ true
    used = ap (λ e. e.used) written

    there : (s : ℕ) → slot ≢ s → entry_at t' s ≡ entry_at t s
    there s f = get_or-set_ne t.slots slot s _ fresh_entry f

    inside : slot < length t'.slots
    inside = rw (length-set t.slots slot (taken_entry cs gen now)) vacant.0

    grows : length t.slots ≤ length t'.slots
    grows = omega (arith, length-set t.slots slot (taken_entry cs gen now))

    still : (s : ℕ) → (slot ≢ s) × Vacant s → (s < length t'.slots) × ((entry_at t' s).used ≡ false)
    still s (f, v) = (omega (arith, v.0, grows), rw (there s f) v.1)

observe_new_grows :
    (t : Table) (cs : Bytes) (now : ℕ)
    → IsWf t
    → lookup cs t.index ≡ none
    → t.free ≡ []
    → length t.slots < 2 ^ 32
    → IsWf (observe_new t cs now []).0
unfolding observe_new
observe_new_grows t cs now w missing q small = rw e (record {
  indexed = claim_indexed t t' cs slot w missing vacant named used there inside grows refl;
  listed = claim_listed t t' cs slot w missing vacant named used there inside grows refl;
  unused = rw q tt;
  distinct = w.distinct;
  live_used = claim_live t t' cs slot w missing vacant named used there inside grows refl;
})
  where
    slot : ℕ
    slot = length t.slots

    e : length t.slots % 2 ^ 32 ≡ slot
    e = omega arith

    t' : Table
    t' = record t {
      slots = t.slots ++ (taken_entry cs 1 now ∷ []);
      index = emplace cs slot t.index;
    }

    vacant : (entry_at t slot).used ≡ false
    vacant = ap (λ x. x.used) (get_or_beyond t.slots slot fresh_entry (omega arith))

    written : entry_at t' slot ≡ taken_entry cs 1 now
    written = get_or-push t.slots (taken_entry cs 1 now) fresh_entry

    named : (entry_at t' slot).callsign ≡ cs
    named = ap (λ x. x.callsign) written

    used : (entry_at t' slot).used ≡ true
    used = ap (λ x. x.used) written

    there : (s : ℕ) → slot ≢ s → entry_at t' s ≡ entry_at t s
    there s f = get_or-push_ne t.slots (taken_entry cs 1 now) fresh_entry s f

    inside : slot < length t'.slots
    inside = omega (arith, length-append t.slots (taken_entry cs 1 now ∷ []))

    grows : length t.slots ≤ length t'.slots
    grows = omega (arith, inside)

observe_new-IsWf :
    (t : Table) (cs : Bytes) (now : ℕ) (free : List ℕ)
    → IsWf t
    → lookup cs t.index ≡ none
    → t.free ≡ free
    → length t.slots < 2 ^ 32
    → IsWf (observe_new t cs now free).0
observe_new-IsWf t cs now [] w m q small = observe_new_grows t cs now w m q small
observe_new-IsWf t cs now (slot ∷ free) w m q small = observe_new_reuses t cs now slot free w m q

-- Observe keeps the invariant, on every branch, while there are fewer than 2 ^ 32 slots.
pub observe-IsWf :
    (t : Table) (cs : Option Bytes) (now : ℕ)
    → IsWf t
    → length t.slots < 2 ^ 32
    → IsWf (observe t cs now).0
unfolding observe
observe-IsWf t none now w small = w
observe-IsWf t (some []) now w small = w
observe-IsWf t (some (c ∷ cs)) now w small = elim (Option-cases (lookup (c ∷ cs) t.index)) [
  | inl q ↦ rw (q, observe) (observe_new-IsWf t (c ∷ cs) now t.free w q refl small)
  | inr (slot, q) ↦ rw (q, observe) (observe_known-IsWf t (c ∷ cs) slot now w q)
]
