-- ===== src/AircraftTable/Resolve.antt =====
-- The table as a map from callsigns to handles: what each call of src/AircraftTable.cpp changes of what
-- Resolve answers.
use euroscope_plugin_bridge.Prelude.{
  ℕ, ◌<◌, ◌^◌, ◌%◌, ◌≡◌, ◌≢◌, refl, sym, ◌∙◌, ap, Bool, true, false, not, ◌||◌, List, [], ◌∷◌, ◌++◌,
  none, some, arith, length, set, Option-cases, inl, inr, if◌then◌else◌, leb, bytes_eq,
  bytes_eq_iff, bytes_eq_refl, Bool-cases, get_or-set_self, get_or-set_ne, get_or-push,
  get_or-push_ne, get_or_beyond,
}
use euroscope_plugin_bridge.Prelude.Maps.{lookup, emplace, bytes_key, lookup-emplace}
use euroscope_plugin_bridge.Status.{Status, ok, unknown_aircraft}
use euroscope_plugin_bridge.AircraftTable.{
  Bytes, Entry, Table, fresh_entry, entry_at, taken_entry, retire_entry, bump, observe,
  observe_known, observe_new, retire, retire_slot, resolve, handle, aircraft_none, fate, apply_fate,
  age, reclaims,
}
use euroscope_plugin_bridge.AircraftTable.Invariant.{IsWf}

-- A change at the slot of one callsign only.
record Touches (t t' : Table) (cs : Bytes) (slot : ℕ) : Type 0 where
  mine : lookup cs t'.index ≡ some slot
  others : (k : Bytes) → bytes_eq cs k ≡ false → lookup k t'.index ≡ lookup k t.index
  there : (s : ℕ) → slot ≢ s → entry_at t' s ≡ entry_at t s
  apart : (k : Bytes) (s : ℕ) → bytes_eq cs k ≡ false → lookup k t.index ≡ some s → slot ≢ s

abbrev pub unknown : Status × ℕ
unknown = (unknown_aircraft, aircraft_none)

abbrev pub answer : Entry → ℕ → Status × ℕ
answer e slot = if not e.used || not e.live then unknown else (ok, handle slot e.generation)

pub resolve-some :
    (t : Table) (k : Bytes) (s : ℕ)
    → lookup k t.index ≡ some s
    → resolve t (some k) ≡ answer (entry_at t s) s
unfolding resolve
resolve-some t k s q = rw (q, resolve)

pub resolve-none : (t : Table) (k : Bytes) → lookup k t.index ≡ none → resolve t (some k) ≡ unknown
unfolding resolve
resolve-none t k q = rw (q, resolve)

resolve_other :
    (t t' : Table) (cs : Bytes) (slot : ℕ)
    → Touches t t' cs slot
    → (k : Bytes) → bytes_eq cs k ≡ false
    → resolve t' (some k) ≡ resolve t (some k)
resolve_other t t' cs slot c k d = elim (Option-cases (lookup k t.index)) [
  | inl q ↦ resolve-none t' k (c.others k d ∙ q) ∙ sym (resolve-none t k q)
  | inr (s, q) ↦
      resolve-some t' k s (c.others k d ∙ q)
      ∙ ap (λ e. answer e s) (c.there s (c.apart k s d q))
      ∙ sym (resolve-some t k s q)
]

-- What is answered after a change that leaves `a` at the callsign.
resolve_touched :
    (t t' : Table) (cs : Bytes) (slot : ℕ) (a : Status × ℕ)
    → Touches t t' cs slot
    → answer (entry_at t' slot) slot ≡ a
    → (k : Bytes) → resolve t' (some k) ≡ (if bytes_eq cs k then a else resolve t (some k))
resolve_touched t t' cs slot a c e k = elim (Bool-cases (bytes_eq cs k)) [
  | inl d ↦ rw d (
      ap (λ x. resolve t' (some x)) (sym ((bytes_eq_iff cs k).0 d))
      ∙ resolve-some t' cs slot c.mine
      ∙ e)
  | inr d ↦ rw d (resolve_other t t' cs slot c k d)
]

set-Touches :
    (t : Table) (cs : Bytes) (slot : ℕ) (e : Entry)
    → IsWf t
    → lookup cs t.index ≡ some slot
    → Touches t (record t { slots = set t.slots slot e }) cs slot
set-Touches t cs slot e w q = record {
  mine = q;
  others = λ k d. refl;
  there = λ s f. get_or-set_ne t.slots slot s e fresh_entry f;
  apart = λ k s d p f.
      let (_, _, own) = w.indexed cs slot q in
      let (_, _, its) = w.indexed k s p in
      cc (d, bytes_eq_refl cs, own, its, ap (λ x. (entry_at t x).callsign) f);
}

-- A slot that was not in use is given to a new callsign.
claim-Touches :
    (t t' : Table) (cs : Bytes) (slot : ℕ)
    → IsWf t
    → lookup cs t.index ≡ none
    → (entry_at t slot).used ≡ false
    → t'.index ≡ emplace cs slot t.index
    → ((s : ℕ) → slot ≢ s → entry_at t' s ≡ entry_at t s)
    → Touches t t' cs slot
claim-Touches t t' cs slot w q v i there = record {
  mine = rw (i, lookup-emplace cs cs slot t.index q, bytes_eq_refl cs);
  others = λ k d. rw (i, lookup-emplace cs k slot t.index q, d);
  there = there;
  apart =
      λ k s d p f. let (_, u, _) = w.indexed k s p in cc (u, v, ap (λ x. (entry_at t x).used) f);
}

observe_new-resolve :
    (t : Table) (cs : Bytes) (now : ℕ) (free : List ℕ)
    → IsWf t
    → length t.slots < 2 ^ 32
    → lookup cs t.index ≡ none
    → t.free ≡ free
    → (k : Bytes)
    → resolve (observe_new t cs now free).0 (some k)
      ≡ (if bytes_eq cs k then (ok, (observe_new t cs now free).1) else resolve t (some k))
unfolding observe_new
observe_new-resolve t cs now (slot ∷ free) w small q f =
    let (inside, vacant) = (rw f at w.unused).0 in
    let gen = bump (entry_at t slot).generation in
    let e = taken_entry cs gen now in
    let t' : Table = record {
      slots = set t.slots slot e;
      free = free;
      index = emplace cs slot t.index;
    } in
    resolve_touched t t' cs slot (ok, handle slot gen)
      (claim-Touches t t' cs slot w q vacant refl
        (λ s d. get_or-set_ne t.slots slot s e fresh_entry d))
      (ap (λ x. answer x slot) (get_or-set_self t.slots slot e fresh_entry inside))
observe_new-resolve t cs now [] w small q f =
    let slot = length t.slots in
    let m : slot % 2 ^ 32 ≡ slot = omega arith in
    let e = taken_entry cs 1 now in
    let t' : Table = record t { slots = t.slots ++ (e ∷ []); index = emplace cs slot t.index } in
    let vacant = ap (λ x. x.used) (get_or_beyond t.slots slot fresh_entry (omega arith)) in
    rw m (
      resolve_touched t t' cs slot (ok, handle slot 1)
        (claim-Touches t t' cs slot w q vacant refl
          (λ s d. get_or-push_ne t.slots e fresh_entry s d))
        (ap (λ x. answer x slot) (get_or-push t.slots e fresh_entry)))

observe_known-resolve :
    (t : Table) (cs : Bytes) (slot now : ℕ)
    → IsWf t
    → lookup cs t.index ≡ some slot
    → (k : Bytes)
    → resolve (observe_known t slot now).0 (some k)
      ≡ (if bytes_eq cs k then (ok, (observe_known t slot now).1) else resolve t (some k))
unfolding observe_known
observe_known-resolve t cs slot now w q =
    let (inside, used, _) = w.indexed cs slot q in
    let e = entry_at t slot in
    let first = if e.live then e.first_seen else now in
    let e' : Entry = record e { live = true; first_seen = first; last_seen = now } in
    resolve_touched t _ cs slot _ (set-Touches t cs slot e' w q)
      (ap (λ x. answer x slot) (get_or-set_self t.slots slot e' fresh_entry inside) ∙ rw used)

-- After a callsign is observed it resolves to the handle that Observe returned, and every other
-- callsign resolves as before.
pub resolve-observe :
    (t : Table) (c : ℕ) (cs k : Bytes) (now : ℕ)
    → IsWf t
    → length t.slots < 2 ^ 32
    → resolve (observe t (some (c ∷ cs)) now).0 (some k) ≡ (
        if bytes_eq (c ∷ cs) k then (ok, (observe t (some (c ∷ cs)) now).1) else resolve t (some k))
unfolding observe
resolve-observe t c cs k now w small = elim (Option-cases (lookup (c ∷ cs) t.index)) [
  | inl q ↦ rw (q, observe) (observe_new-resolve t (c ∷ cs) now t.free w small q refl k)
  | inr (slot, q) ↦ rw (q, observe) (observe_known-resolve t (c ∷ cs) slot now w q k)
]

unknown_if :
    (t : Table) (cs k : Bytes)
    → resolve t (some cs) ≡ unknown
    → resolve t (some k) ≡ (if bytes_eq cs k then unknown else resolve t (some k))
unknown_if t cs k q = elim (Bool-cases (bytes_eq cs k)) [
  | inl d ↦ rw d (rw ((bytes_eq_iff cs k).0 d) at q)
  | inr d ↦ rw d
]

retire_slot-resolve :
    (t : Table) (cs : Bytes) (slot : ℕ)
    → IsWf t
    → lookup cs t.index ≡ some slot
    → (k : Bytes)
    → resolve (retire_slot t slot).0 (some k)
      ≡ (if bytes_eq cs k then unknown else resolve t (some k))
unfolding retire_slot
retire_slot-resolve t cs slot w q k =
    let (inside, used, _) = w.indexed cs slot q in
    elim (Bool-cases (entry_at t slot).live) [
      | inl l ↦ rw l (
          resolve_touched t _ cs slot unknown
            (set-Touches t cs slot (retire_entry (entry_at t slot)) w q)
            (ap (λ x. answer x slot) (get_or-set_self t.slots slot _ fresh_entry inside) ∙ rw used)
            k)
      | inr l ↦ rw l (unknown_if t cs k (resolve-some t cs slot q ∙ rw (used, l)))
    ]

-- After a callsign is retired it does not resolve, and every other callsign resolves as before.
pub resolve-retire :
    (t : Table) (c : ℕ) (cs k : Bytes)
    → IsWf t
    → resolve (retire t (some (c ∷ cs))).0 (some k)
      ≡ (if bytes_eq (c ∷ cs) k then (unknown_aircraft, aircraft_none) else resolve t (some k))
unfolding retire
resolve-retire t c cs k w = elim (Option-cases (lookup (c ∷ cs) t.index)) [
  | inl q ↦ rw (q, retire) (unknown_if t (c ∷ cs) k (resolve-none t (c ∷ cs) q))
  | inr (slot, q) ↦ rw (q, retire) (retire_slot-resolve t (c ∷ cs) slot w q k)
]

-- The callsign's aircraft has not been seen for the time to live.
abbrev pub is_expired : Table → ℕ → ℕ → Bytes → Bool
is_expired t now ttl k = elim (lookup k t.index) [
  | none ↦ false
  | some s ↦ leb ttl (age now (entry_at t s))
]

pub answer_swept :
    (now ttl grace : ℕ) (e : Entry) (s : ℕ)
    → e.used ≡ true
    → fate now ttl grace e ≢ reclaims
    → answer (apply_fate (fate now ttl grace e) e) s
      ≡ (if leb ttl (age now e) then unknown else answer e s)
unfolding fate
answer_swept now ttl grace e s u h = ground arith

pub answer_reclaimed :
    (now ttl grace : ℕ) (e : Entry) (s : ℕ) → fate now ttl grace e ≡ reclaims → answer e s ≡ unknown
unfolding fate
answer_reclaimed now ttl grace e s h = ground arith
