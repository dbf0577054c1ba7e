-- ===== src/AircraftTable/Sweep.antt =====
-- Sweep of src/AircraftTable.cpp: what the loop does to each entry, to the index and to the free list,
-- and that it keeps the invariant.
use euroscope_plugin_bridge.Prelude.{
  ℕ, zero, suc, ◌+◌, ◌-◌, ◌≤◌, ◌<◌, ◌≡◌, ◌≢◌, refl, sym, ◌∙◌, ap, subst, Bool, true, false, ◌||◌,
  List, [], ◌∷◌, none, some, arith, length, get_or, All, All-imp, Distinct, inl, inr, if◌then◌else◌,
  bytes_eq, bytes_eq_iff, Bool-cases,
}
use euroscope_plugin_bridge.Prelude.Maps.{lookup, bytes_key, lookup-erase}
use mathlib.Core.Option.{some-injective}
use euroscope_plugin_bridge.AircraftTable.{
  Bytes, Entry, Table, Fate, keep, retires, reclaims, fate, apply_fate, fresh_entry, entry_at,
  sweep_round, sweep_loop, sweep,
}
use euroscope_plugin_bridge.AircraftTable.Invariant.{IsWf}

apply_kept :
    (f : Fate) (e : Entry)
    → f ≢ reclaims
    → ((apply_fate f e).used ≡ e.used) × ((apply_fate f e).callsign ≡ e.callsign)
apply_kept keep e h = (refl, refl)
apply_kept retires e h = (refl, refl)
apply_kept reclaims e h = absurd (h refl)

-- An entry that is in use after a round was in use under the same name, and was not reclaimed.
apply_survivor :
    (f : Fate) (e : Entry)
    → (apply_fate f e).used ≡ true
    → (e.used ≡ true) × ((apply_fate f e).callsign ≡ e.callsign) × (f ≢ reclaims)
apply_survivor keep e h = (h, refl, λ q. cc)
apply_survivor retires e h = (h, refl, λ q. cc)
apply_survivor reclaims e h = absurd (cc)

live_round :
    (f : Fate) (e : Entry)
    → (e.live ≡ true → e.used ≡ true)
    → (f ≡ reclaims → e.live ≡ false)
    → (apply_fate f e).live ≡ true
    → (apply_fate f e).used ≡ true
live_round keep e h k q = h q
live_round retires e h k q = cc
live_round reclaims e h k q = cc (k refl)

module _ (now ttl grace : ℕ) where
  -- What the sweep makes of an entry.
  abbrev pub swept : Entry → Entry
  swept e = apply_fate (fate now ttl grace e) e

  pub fate_unused : (e : Entry) → e.used ≡ false → fate now ttl grace e ≡ keep
  unfolding fate
  fate_unused e h = rw h

  pub fate_reclaims_used :
      (e : Entry) → fate now ttl grace e ≡ reclaims → (e.used ≡ true) × (e.live ≡ false)
  unfolding fate
  fate_reclaims_used e h = ground arith

  length-sweep_loop :
      (k : ℕ) (es : List Entry) (free : List ℕ) (index : List (Bytes × ℕ))
      → length (sweep_loop now ttl grace k es free index).entries ≡ length es
  unfolding sweep_loop
  length-sweep_loop k [] free index = refl
  length-sweep_loop k (e ∷ es) free index = ap suc (length-sweep_loop (k + 1) es _ _)

  sweep_loop-entry :
      (k : ℕ) (es : List Entry) (free : List ℕ) (index : List (Bytes × ℕ)) (i : ℕ)
      → get_or (sweep_loop now ttl grace k es free index).entries i fresh_entry
        ≡ swept (get_or es i fresh_entry)
  unfolding sweep_loop
  sweep_loop-entry k [] free index i = unfold fate in refl
  sweep_loop-entry k (e ∷ es) free index zero = refl
  sweep_loop-entry k (e ∷ es) free index (suc i) = sweep_loop-entry (k + 1) es _ _ i

  -- Some entry of this callsign is reclaimed.
  abbrev pub gone_with : Fate → Bytes → Entry → Bool
  gone_with reclaims cs e = bytes_eq e.callsign cs
  gone_with keep cs e = false
  gone_with retires cs e = false

  pub gone : Bytes → List Entry → Bool
  gone cs [] = false
  gone cs (e ∷ es) = gone_with (fate now ttl grace e) cs e || gone cs es

  round_index :
      (f : Fate) (k : ℕ) (e : Entry) (free : List ℕ) (index : List (Bytes × ℕ)) (cs : Bytes)
      → lookup cs (sweep_round f k e free index).1
        ≡ (if gone_with f cs e then none else lookup cs index)
  unfolding sweep_round
  round_index keep k e free index cs = refl
  round_index retires k e free index cs = refl
  round_index reclaims k e free index cs = lookup-erase e.callsign cs index

  sweep_loop-index :
      (k : ℕ) (es : List Entry) (free : List ℕ) (index : List (Bytes × ℕ)) (cs : Bytes)
      → lookup cs (sweep_loop now ttl grace k es free index).index
        ≡ (if gone cs es then none else lookup cs index)
  unfolding sweep_loop gone
  sweep_loop-index k [] free index cs = refl
  sweep_loop-index k (e ∷ es) free index cs =
      let f = fate now ttl grace e in
      sweep_loop-index (k + 1) es _ _ cs ∙ rw (round_index f k e free index cs) (ground arith)

  gone_with-true :
      (f : Fate) (cs : Bytes) (e : Entry)
      → gone_with f cs e ≡ true
      → (f ≡ reclaims) × (e.callsign ≡ cs)
  gone_with-true keep cs e h = cc
  gone_with-true retires cs e h = cc
  gone_with-true reclaims cs e h = (refl, (bytes_eq_iff e.callsign cs).0 h)

  pub gone_entry :
      (cs : Bytes) (es : List Entry)
      → gone cs es ≡ true
      → (i : ℕ) × ((fate now ttl grace (get_or es i fresh_entry) ≡ reclaims)
          × ((get_or es i fresh_entry).callsign ≡ cs))
  unfolding gone
  gone_entry cs [] h = absurd (cc)
  gone_entry cs (e ∷ es) h = elim (Bool-cases (gone cs es)) [
    | inl r ↦ let (i, (a, b)) = gone_entry cs es r in (suc i, (a, b))
    | inr r ↦ (0, gone_with-true (fate now ttl grace e) cs e (ground arith))
  ]

  pub entry_gone :
      (cs : Bytes) (es : List Entry) (i : ℕ)
      → fate now ttl grace (get_or es i fresh_entry) ≡ reclaims
      → (get_or es i fresh_entry).callsign ≡ cs
      → gone cs es ≡ true
  unfolding gone
  entry_gone cs [] i h c = absurd (cc (h, fate_unused fresh_entry refl))
  entry_gone cs (e ∷ es) zero h c = rw (h, (bytes_eq_iff e.callsign cs).1 c)
  entry_gone cs (e ∷ es) (suc i) h c = ground (arith, entry_gone cs es i h c)

  -- A free slot from `k` on is not in use.
  abbrev Clear : ℕ → List Entry → ℕ → Type 0
  Clear k es x = k ≤ x → (get_or es (x - k) fresh_entry).used ≡ false

  Clear-next :
      (k : ℕ) (e : Entry) (es : List Entry) (x : ℕ) → Clear k (e ∷ es) x → Clear (k + 1) es x
  Clear-next k e es x h le =
      let d : x - k ≡ suc (x - (k + 1)) = omega arith in rw d at (h (omega arith))

  round_free :
      (f : Fate) (k : ℕ) (e : Entry) (es : List Entry) (free : List ℕ) (index : List (Bytes × ℕ))
      → f ≡ fate now ttl grace e
      → Distinct free
      → All (Clear k (e ∷ es)) free
      → Distinct (sweep_round f k e free index).0
        × All (Clear (k + 1) es) (sweep_round f k e free index).0
  unfolding sweep_round
  round_free keep k e es free index q d c = (d, All-imp free (Clear-next k e es) c)
  round_free retires k e es free index q d c = (d, All-imp free (Clear-next k e es) c)
  round_free reclaims k e es free index q d c =
      ((All-imp free apart c, d), (λ le. absurd (omega arith), All-imp free (Clear-next k e es) c))
    where
      apart : (x : ℕ) → Clear k (e ∷ es) x → k ≢ x
      apart x h same =
          let z : x - k ≡ 0 = omega arith in
          let clear : e.used ≡ false = rw z at (h (omega arith)) in
          let used = (fate_reclaims_used e (sym q)).0 in cc

  sweep_loop-Distinct :
      (k : ℕ) (es : List Entry) (free : List ℕ) (index : List (Bytes × ℕ))
      → Distinct free
      → All (Clear k es) free
      → Distinct (sweep_loop now ttl grace k es free index).free
  unfolding sweep_loop
  sweep_loop-Distinct k [] free index d c = d
  sweep_loop-Distinct k (e ∷ es) free index d c =
      let r = round_free (fate now ttl grace e) k e es free index refl d c in
      sweep_loop-Distinct (k + 1) es _ _ r.0 r.1

  round_free-All :
      (Q : ℕ → Type 0) (f : Fate) (k : ℕ) (e : Entry) (free : List ℕ) (index : List (Bytes × ℕ))
      → All Q free
      → (f ≡ reclaims → Q k)
      → All Q (sweep_round f k e free index).0
  unfolding sweep_round
  round_free-All Q keep k e free index a h = a
  round_free-All Q retires k e free index a h = a
  round_free-All Q reclaims k e free index a h = (h refl, a)

  -- What holds of the free slots and of each reclaimed slot holds of the free slots afterwards.
  sweep_loop-free :
      (Q : ℕ → Type 0) (k : ℕ) (es : List Entry) (free : List ℕ) (index : List (Bytes × ℕ))
      → All Q free
      → ((i : ℕ) → fate now ttl grace (get_or es i fresh_entry) ≡ reclaims → Q (i + k))
      → All Q (sweep_loop now ttl grace k es free index).free
  unfolding sweep_loop
  sweep_loop-free Q k [] free index a h = a
  sweep_loop-free Q k (e ∷ es) free index a h =
      sweep_loop-free Q (k + 1) es _ _
        (round_free-All Q (fate now ttl grace e) k e free index a
          (λ r. let z : 0 + k ≡ k = omega arith in rw z at (h 0 r)))
        (λ i r. let z : suc i + k ≡ i + (k + 1) = omega arith in rw z at (h (suc i) r))

  module _ (t : Table) (w : IsWf t) where
    abbrev pub after_sweep : Table
    after_sweep = (sweep t now ttl grace).0

    pub length-sweep : length after_sweep.slots ≡ length t.slots
    unfolding sweep
    length-sweep = length-sweep_loop 0 t.slots t.free t.index

    pub sweep-entry : (s : ℕ) → entry_at after_sweep s ≡ swept (entry_at t s)
    unfolding sweep
    sweep-entry s = sweep_loop-entry 0 t.slots t.free t.index s

    -- A callsign is found afterwards exactly if it was found and its entry is not reclaimed.
    pub sweep-lookup :
        (cs : Bytes)
        → lookup cs after_sweep.index ≡ (if gone cs t.slots then none else lookup cs t.index)
    unfolding sweep
    sweep-lookup cs = sweep_loop-index 0 t.slots t.free t.index cs

    pub not_gone :
        (cs : Bytes) (s : ℕ)
        → lookup cs t.index ≡ some s
        → fate now ttl grace (entry_at t s) ≢ reclaims
        → gone cs t.slots ≡ false
    not_gone cs s q h = elim (Bool-cases (gone cs t.slots)) [
      | inr r ↦ r
      | inl r ↦
          let (i, (a, b)) = gone_entry cs t.slots r in
          let listed = w.listed i (fate_reclaims_used (entry_at t i) a).0 in
          let same : some i ≡ some s = sym listed ∙ ap (λ x. lookup x t.index) b ∙ q in
          absurd (
            h (
              subst (λ x. fate now ttl grace (entry_at t x) ≡ reclaims) (some-injective _ _ same)
                a))
    ]

    indexed_after :
        (cs : Bytes) (s : ℕ)
        → lookup cs after_sweep.index ≡ some s
        → (lookup cs t.index ≡ some s) × (fate now ttl grace (entry_at t s) ≢ reclaims)
    indexed_after cs s q = elim (Bool-cases (gone cs t.slots)) [
      | inl r ↦ absurd (cc (q, sweep-lookup cs, r))
      | inr r ↦
          let e : lookup cs t.index ≡ some s = cc (q, sweep-lookup cs, r) in
          (e, λ f. cc (r, entry_gone cs t.slots s f (w.indexed cs s e).2))
    ]

    live_after : (s : ℕ) → (swept (entry_at t s)).live ≡ true → (swept (entry_at t s)).used ≡ true
    live_after s =
        live_round (fate now ttl grace (entry_at t s)) (entry_at t s) (w.live_used s)
          (λ r. (fate_reclaims_used (entry_at t s) r).1)

    abbrev Vacated : ℕ → Type 0
    Vacated s = (s < length t.slots) × ((swept (entry_at t s)).used ≡ false)

    unused-Vacated : (s : ℕ) → (s < length t.slots) × ((entry_at t s).used ≡ false) → Vacated s
    unused-Vacated s v = (v.0, rw (fate_unused (entry_at t s) v.1) v.1)

    reclaimed-Vacated : (s : ℕ) → fate now ttl grace (entry_at t s) ≡ reclaims → Vacated s
    reclaimed-Vacated s r =
        let u = (fate_reclaims_used (entry_at t s) r).0 in
        ((w.indexed (entry_at t s).callsign s (w.listed s u)).0, rw r refl)

    vacated : All Vacated after_sweep.free
    unfolding sweep
    vacated =
        sweep_loop-free Vacated 0 t.slots t.free t.index (All-imp t.free unused-Vacated w.unused)
          (λ i r. let z : i + 0 ≡ i = omega arith in rw z (reclaimed-Vacated i r))

    sweep-Distinct : Distinct after_sweep.free
    unfolding sweep
    sweep-Distinct =
        sweep_loop-Distinct 0 t.slots t.free t.index w.distinct
          (All-imp t.free (λ x v le. let z : x - 0 ≡ x = omega arith in rw z v.1) w.unused)

    sweep_unused :
        All
          (λ s. (s < length after_sweep.slots) × ((entry_at after_sweep s).used ≡ false))
          after_sweep.free
    sweep_unused = All-imp after_sweep.free (λ s v. rw (length-sweep, sweep-entry s) v) vacated

    -- Sweep keeps the invariant.
    pub sweep-IsWf : IsWf after_sweep
    sweep-IsWf = record {
      indexed = λ cs s q.
          let (e, f) = indexed_after cs s q in
          let (a, b, c) = w.indexed cs s e in
          let (u, n) = apply_kept (fate now ttl grace (entry_at t s)) (entry_at t s) f in
          rw (sweep-entry s, length-sweep) (a, u ∙ b, n ∙ c);
      listed = λ s q.
          let (u, n, f) =
            apply_survivor (fate now ttl grace (entry_at t s)) (entry_at t s)
              (rw (sweep-entry s) at q) in
          let e = w.listed s u in
          rw
            (
              sweep-entry s,
              n,
              sweep-lookup (entry_at t s).callsign,
              not_gone (entry_at t s).callsign s e f,
            )
            e;
      unused = sweep_unused;
      distinct = sweep-Distinct;
      live_used = λ s. rw (sweep-entry s) (live_after s);
    }
