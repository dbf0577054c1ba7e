-- ===== src/AircraftTable/History.antt =====
-- Histories of the table: the calls that the registry makes of src/AircraftTable.cpp, in any order.
use euroscope_plugin_bridge.Prelude.{
  ℕ, suc, ◌+◌, ◌≤◌, ◌<◌, ◌^◌, ◌≡◌, ◌≢◌, ◌∙◌, true, List, [], ◌∷◌, Option, arith, length, inl, inr,
}
use native.Mathlib.Decide.{dec_lt}
use euroscope_plugin_bridge.Status.{ok}
use euroscope_plugin_bridge.AircraftTable.{
  Bytes, Table, entry_at, empty_table, observe, retire, sweep, validate, slot_of, generation_of,
  aircraft_none,
}
use euroscope_plugin_bridge.AircraftTable.Invariant.{IsWf, empty-IsWf, retire-IsWf}
use euroscope_plugin_bridge.AircraftTable.Observe.{observe-IsWf}
use euroscope_plugin_bridge.AircraftTable.Sweep.{sweep-IsWf}
use euroscope_plugin_bridge.AircraftTable.Generations.{
  Advances, observe-Advances, retire-Advances, sweep-Advances,
}

-- The calls that change the table.
pub data Call : Type 0 where
  observes : Option Bytes → ℕ → Call
  retires : Option Bytes → Call
  sweeps : ℕ → ℕ → ℕ → Call

unfoldable pub call : Table → Call → Table
call t (observes cs now) = (observe t cs now).0
call t (retires cs) = (retire t cs).0
call t (sweeps now ttl grace) = (sweep t now ttl grace).0

unfoldable pub run : Table → List Call → Table
run t [] = t
run t (c ∷ cs) = run (call t c) cs

call-IsWf : (t : Table) (c : Call) → IsWf t → length t.slots < 2 ^ 32 → IsWf (call t c)
unfolding call
call-IsWf t (observes cs now) w small = observe-IsWf t cs now w small
call-IsWf t (retires cs) w small = retire-IsWf t cs w
call-IsWf t (sweeps now ttl grace) w small = sweep-IsWf now ttl grace t w

call-Advances : (t : Table) (c : Call) → IsWf t → length t.slots < 2 ^ 32 → Advances t (call t c)
unfolding call
call-Advances t (observes cs now) w small = observe-Advances t cs now w small
call-Advances t (retires cs) w small = retire-Advances t cs w
call-Advances t (sweeps now ttl grace) w small = sweep-Advances t now ttl grace w

-- After `n` calls: at most `n` slots, and generations from 1 to `n + 1`.
pub record IsAged (n : ℕ) (t : Table) : Type 0 where
  pub wf : IsWf t
  pub slots : length t.slots ≤ n
  pub generations :
      (s : ℕ)
      → s < length t.slots
      → (1 ≤ (entry_at t s).generation) × ((entry_at t s).generation ≤ n + 1)

empty-IsAged : IsAged 0 empty_table
empty-IsAged = record {
  wf = empty-IsWf;
  slots = omega arith;
  generations = λ s h. absurd (omega arith);
}

pub call-IsAged :
    (n : ℕ) (t : Table) (c : Call) → n + 2 < 2 ^ 32 → IsAged n t → IsAged (suc n) (call t c)
call-IsAged n t c small a =
    let adv = call-Advances t c a.wf (omega (arith, a.slots)) in
    record {
      wf = call-IsWf t c a.wf (omega (arith, a.slots));
      slots = omega (arith, a.slots, adv.grown);
      generations = λ s h. elim (dec_lt s (length t.slots)) [
        | yes q ↦
            let (lo, hi) = a.generations s q in
            let (up, down, _) = adv.succeeds s q (omega arith) in (omega arith, omega arith)
        | no q ↦ let e = adv.fresh s (omega arith) h in (omega arith, omega arith)
      ];
    }

run-IsAged :
    (n : ℕ) (t : Table) (cs : List Call)
    → n + length cs + 1 < 2 ^ 32
    → IsAged n t
    → IsAged (n + length cs) (run t cs)
unfolding run
run-IsAged n t [] small a = let e : n + 0 ≡ n = omega arith in rw e a
run-IsAged n t (c ∷ cs) small a =
    let e : n + suc (length cs) ≡ suc n + length cs = omega arith in
    rw e (run-IsAged (suc n) (call t c) cs (omega arith) (call-IsAged n t c (omega arith) a))

-- The invariant holds after any history of fewer than 2 ^ 32 - 1 calls, and every slot's generation is
-- at least 1, so that no handle is ESB_AIRCRAFT_NONE.
pub run-empty_table-IsAged :
    (cs : List Call) → length cs + 1 < 2 ^ 32 → IsAged (length cs) (run empty_table cs)
run-empty_table-IsAged cs small =
    let e : 0 + length cs ≡ length cs = omega arith in
    rw e at (run-IsAged 0 empty_table cs (omega arith) empty-IsAged)

-- The slot of the handle has moved on to a later generation.
abbrev IsPast : ℕ → Table → Type 0
IsPast h t = (slot_of h < length t.slots) × (generation_of h < (entry_at t (slot_of h)).generation)

call-IsPast :
    (n h : ℕ) (t : Table) (c : Call)
    → n + 2 < 2 ^ 32
    → IsAged n t
    → IsPast h t
    → IsPast h (call t c)
call-IsPast n h t c small a p =
    let adv = call-Advances t c a.wf (omega (arith, a.slots)) in
    let (lo, hi) = a.generations (slot_of h) p.0 in
    let (up, _, _) = adv.succeeds (slot_of h) p.0 (omega arith) in
    (omega (arith, adv.kept, p.0), omega (arith, p.1))

run-IsPast :
    (n h : ℕ) (t : Table) (cs : List Call)
    → n + length cs + 1 < 2 ^ 32
    → IsAged n t
    → IsPast h t
    → IsPast h (run t cs)
unfolding run
run-IsPast n h t [] small a p = p
run-IsPast n h t (c ∷ cs) small a p =
    run-IsPast (suc n) h (call t c) cs (omega arith) (call-IsAged n t c (omega arith) a)
      (call-IsPast n h t c (omega arith) a p)

past-invalid : (h : ℕ) (t : Table) → IsPast h t → validate t h ≢ ok
unfolding validate
past-invalid h t p e = ground arith

pub validate_ok :
    (h : ℕ) (t : Table)
    → validate t h ≡ ok
    → (slot_of h < length t.slots)
      × ((entry_at t (slot_of h)).used ≡ true)
      × ((entry_at t (slot_of h)).live ≡ true)
      × ((entry_at t (slot_of h)).generation ≡ generation_of h)
      × (h ≢ aircraft_none)
unfolding validate
validate_ok h t e = ground arith

pub ok-validate :
    (h : ℕ) (t : Table)
    → slot_of h < length t.slots
    → (entry_at t (slot_of h)).used ≡ true
    → (entry_at t (slot_of h)).live ≡ true
    → (entry_at t (slot_of h)).generation ≡ generation_of h
    → h ≢ aircraft_none
    → validate t h ≡ ok
unfolding validate
ok-validate h t a u l g z = ground arith

-- A handle that a call made invalid has been left behind by its slot.
invalidated-IsPast :
    (n h : ℕ) (t : Table) (c : Call)
    → n + 2 < 2 ^ 32
    → IsAged n t
    → validate t h ≡ ok
    → validate (call t c) h ≢ ok
    → IsPast h (call t c)
invalidated-IsPast n h t c small a v d =
    let (inside, u, l, g, z) = validate_ok h t v in
    let adv = call-Advances t c a.wf (omega (arith, a.slots)) in
    let (lo, hi) = a.generations (slot_of h) inside in
    let (up, _, loyal) = adv.succeeds (slot_of h) inside (omega arith) in
    let stays : slot_of h < length (call t c).slots = omega (arith, adv.kept) in
    elim (loyal l u) [
      | inl (g', l', u') ↦ absurd (d (ok-validate h (call t c) stays u' l' (g' ∙ g) z))
      | inr past ↦ (stays, omega (arith, past, g))
    ]

-- A handle that was valid, and that any one call has made invalid (a disconnect, a sweep), stays
-- invalid through every later sequence of calls: whoever takes the slot or the callsign next, the
-- handle never names them. The history starts at the empty table and has fewer than 2 ^ 32 - 2 calls.
pub stale_forever :
    (before after : List Call) (c : Call) (h : ℕ)
    → length before + length after + 2 < 2 ^ 32
    → validate (run empty_table before) h ≡ ok
    → validate (call (run empty_table before) c) h ≢ ok
    → validate (run (call (run empty_table before) c) after) h ≢ ok
stale_forever before after c h small v d =
    let n = length before in
    let t = run empty_table before in
    let a = run-empty_table-IsAged before (omega arith) in
    let p = invalidated-IsPast n h t c (omega arith) a v d in
    past-invalid h (run (call t c) after)
      (run-IsPast (suc n) h (call t c) after (omega arith) (call-IsAged n t c (omega arith) a) p)
