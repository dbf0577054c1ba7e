-- ===== src/AircraftTable/Lifetime.antt =====
-- The life of an aircraft in src/AircraftTable.cpp: sight, time to live, reconnection.
use euroscope_plugin_bridge.Prelude.{
  ℕ, ◌+◌, ◌≤◌, ◌<◌, ◌^◌, ◌%◌, ◌≡◌, ◌≢◌, refl, sym, ◌∙◌, ap, true, false, ◌∷◌, some, arith, length,
  set, Option-cases, inl, inr, ◌⊎◌, if◌then◌else◌, le→ltb, get_or-set_self, length-set,
}
use euroscope_plugin_bridge.Prelude.Maps.{lookup, bytes_key}
use euroscope_plugin_bridge.Status.{ok, unknown_aircraft}
use euroscope_plugin_bridge.AircraftTable.{
  Bytes, Entry, Table, fresh_entry, entry_at, bump, retire_entry, observe, observe_known, retire,
  retire_slot, sweep, resolve, handle, slot_of, generation_of, aircraft_none, fate, validate,
  reclaims, callsign_of, copy_callsign, Fate, keep, retires,
}
use euroscope_plugin_bridge.AircraftTable.History.{IsAged, ok-validate}
use euroscope_plugin_bridge.AircraftTable.Invariant.{IsWf}
use euroscope_plugin_bridge.AircraftTable.Sweep.{sweep-entry, sweep-lookup, not_gone, entry_gone}
use euroscope_plugin_bridge.AircraftTable.Resolve.{
  resolve-some, resolve-none, is_expired, answer, answer_swept, answer_reclaimed,
}

Fate-cases : (f : Fate) → (f ≡ reclaims) ⊎ (f ≢ reclaims)
Fate-cases reclaims = inl refl
Fate-cases keep = inr (λ e. cc)
Fate-cases retires = inr (λ e. cc)

-- After a sweep a callsign resolves as before, unless its aircraft has not been seen for the time to
-- live: then it does not resolve. Reclaiming the slots of dead aircraft changes no answer.
pub resolve-sweep :
    (t : Table) (now ttl grace : ℕ) (k : Bytes)
    → IsWf t
    → resolve (sweep t now ttl grace).0 (some k)
      ≡ (if is_expired t now ttl k then (unknown_aircraft, aircraft_none) else resolve t (some k))
resolve-sweep t now ttl grace k w =
    let after = (sweep t now ttl grace).0 in
    elim (Option-cases (lookup k t.index)) [
      | inl q ↦
          rw (q, is_expired)
            (resolve-none after k
                (sweep-lookup now ttl grace t w k ∙ rw (q, is_expired) (ground arith))
              ∙ sym (resolve-none t k q))
      | inr (s, q) ↦ elim (Fate-cases (fate now ttl grace (entry_at t s))) [
        | inl r ↦
            let g = entry_gone now ttl grace k t.slots s r (w.indexed k s q).2 in
            rw (q, is_expired)
              (resolve-none after k (sweep-lookup now ttl grace t w k ∙ rw g)
                ∙ rw (resolve-some t k s q ∙ answer_reclaimed now ttl grace (entry_at t s) s r)
                    (ground arith))
        | inr r ↦
            let g = not_gone now ttl grace t w k s q r in
            rw (q, is_expired)
              (resolve-some after k s (sweep-lookup now ttl grace t w k ∙ rw g q)
                ∙ ap (λ e. answer e s) (sweep-entry now ttl grace t w s)
                ∙ answer_swept now ttl grace (entry_at t s) s (w.indexed k s q).1 r
                ∙ rw (resolve-some t k s q))
      ]
    ]

handle_parts :
    (slot gen : ℕ)
    → slot < 2 ^ 32
    → gen < 2 ^ 32
    → (slot_of (handle slot gen) ≡ slot) × (generation_of (handle slot gen) ≡ gen)
unfolding handle slot_of generation_of
handle_parts slot gen hs hg = omega arith

handle-ne_none : (slot gen : ℕ) → 1 ≤ gen → handle slot gen ≢ aircraft_none
unfolding handle
handle-ne_none slot gen h = omega arith

-- Where a callsign that resolves has its entry.
record Seen (t : Table) (k : Bytes) (h : ℕ) : Type 0 where
  slot : ℕ
  at_slot : lookup k t.index ≡ some slot
  inside : slot < length t.slots
  named : (entry_at t slot).callsign ≡ k
  used : (entry_at t slot).used ≡ true
  live : (entry_at t slot).live ≡ true
  is_handle : h ≡ handle slot (entry_at t slot).generation

resolve-Seen : (t : Table) (k : Bytes) (h : ℕ) → IsWf t → resolve t (some k) ≡ (ok, h) → Seen t k h
resolve-Seen t k h w e = elim (Option-cases (lookup k t.index)) [
  | inl q ↦ absurd (cc (e, resolve-none t k q))
  | inr (s, q) ↦
      let (inside, used, named) = w.indexed k s q in
      let a : answer (entry_at t s) s ≡ (ok, h) = sym (resolve-some t k s q) ∙ e in
      record {
        slot = s;
        at_slot = q;
        inside = inside;
        named = named;
        used = used;
        live = ground arith;
        is_handle = ground arith;
      }
]

copied :
    (t : Table) (h : ℕ) (k : Bytes) (have : ℕ)
    → (entry_at t (slot_of h)).callsign ≡ k
    → length k + 1 ≤ have
    → have < 2 ^ 32
    → copy_callsign t h (some have) true ≡ (ok, some (length k + 1), some k)
unfolding copy_callsign
copied t h k have c room fits =
    let m : (length k + 1) % 2 ^ 32 ≡ length k + 1 = omega arith in
    rw (c, m, le→ltb have (length k + 1) room)

-- The handle that a visible callsign resolves to is valid, and CallsignOf gives that callsign for it in
-- a buffer that is large enough. The table is one after `n` calls.
pub resolve-valid :
    (n : ℕ) (t : Table) (k : Bytes) (h have : ℕ)
    → IsAged n t
    → n + 1 < 2 ^ 32
    → resolve t (some k) ≡ (ok, h)
    → length k + 1 ≤ have
    → have < 2 ^ 32
    → (validate t h ≡ ok) × (callsign_of t h (some have) true ≡ (ok, some (length k + 1), some k))
unfolding callsign_of copy_callsign
resolve-valid n t k h have a small e room fits =
    let s = resolve-Seen t k h a.wf e in
    let (lo, hi) = a.generations s.slot s.inside in
    let (p, g) =
      handle_parts s.slot (entry_at t s.slot).generation (omega (arith, a.slots, s.inside))
        (omega arith) in
    let z = handle-ne_none s.slot (entry_at t s.slot).generation lo in
    let so : slot_of h ≡ s.slot = ap slot_of s.is_handle ∙ p in
    let go : generation_of h ≡ (entry_at t s.slot).generation = ap generation_of s.is_handle ∙ g in
    let v =
      ok-validate h t (rw so s.inside) (rw so s.used) (rw so s.live) (rw so (sym go))
        (λ q. z (sym s.is_handle ∙ q)) in
    (v, rw (v, callsign_of) (copied t h k have (rw so s.named) room fits))

retire_known :
    (t : Table) (c : ℕ) (cs : Bytes) (slot : ℕ)
    → lookup (c ∷ cs) t.index ≡ some slot
    → (entry_at t slot).live ≡ true
    → retire t (some (c ∷ cs))
      ≡ (record t { slots = set t.slots slot (retire_entry (entry_at t slot)) }, some slot)
unfolding retire retire_slot
retire_known t c cs slot q l = rw (q, retire) (rw l)

observe_found :
    (t : Table) (c : ℕ) (cs : Bytes) (slot now : ℕ)
    → lookup (c ∷ cs) t.index ≡ some slot
    → observe t (some (c ∷ cs)) now ≡ observe_known t slot now
unfolding observe
observe_found t c cs slot now q = rw (q, observe)

observe_known_dead :
    (t : Table) (slot now : ℕ) (e : Entry)
    → slot < length t.slots
    → e.live ≡ false
    → let t' = record t { slots = set t.slots slot e } in
      ((observe_known t' slot now).1 ≡ handle slot e.generation)
      × ((entry_at (observe_known t' slot now).0 slot).first_seen ≡ now)
unfolding observe_known
observe_known_dead t slot now e inside d = rw (get_or-set_self t.slots slot e fresh_entry inside) (
  refl,
  rw
      (get_or-set_self (set t.slots slot e) slot _ fresh_entry
        (rw (length-set t.slots slot e) inside))
      (rw d),
)

-- A callsign that disconnects and is seen again keeps its slot, under a handle of the next generation,
-- and its time of first sight starts anew. The table is one after `n` calls.
pub observe-retire :
    (n : ℕ) (t : Table) (c : ℕ) (cs : Bytes) (h now : ℕ)
    → IsAged n t
    → n + 2 < 2 ^ 32
    → resolve t (some (c ∷ cs)) ≡ (ok, h)
    → let t' = (retire t (some (c ∷ cs))).0 in
      let again = observe t' (some (c ∷ cs)) now in
      ((retire t (some (c ∷ cs))).1 ≡ some (slot_of h))
      × (again.1 ≡ handle (slot_of h) (generation_of h + 1))
      × ((entry_at again.0 (slot_of h)).first_seen ≡ now)
observe-retire n t c cs h now a small e =
    let s = resolve-Seen t (c ∷ cs) h a.wf e in
    let (lo, hi) = a.generations s.slot s.inside in
    let (p, g) =
      handle_parts s.slot (entry_at t s.slot).generation (omega (arith, a.slots, s.inside))
        (omega arith) in
    let so : slot_of h ≡ s.slot = ap slot_of s.is_handle ∙ p in
    let go : generation_of h ≡ (entry_at t s.slot).generation = ap generation_of s.is_handle ∙ g in
    let e' = retire_entry (entry_at t s.slot) in
    let t' : Table = record t { slots = set t.slots s.slot e' } in
    let (hd, first) = observe_known_dead t s.slot now e' s.inside refl in
    let m : bump (entry_at t s.slot).generation ≡ (entry_at t s.slot).generation + 1 =
      omega arith in
    rw
      (
        retire_known t c cs s.slot s.at_slot s.live,
        observe_found t' c cs s.slot now s.at_slot,
        so,
        go,
      )
      (refl, hd ∙ rw m, first)
