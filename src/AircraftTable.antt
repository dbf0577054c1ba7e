-- ===== src/AircraftTable.antt =====
-- src/AircraftTable.h and src/AircraftTable.cpp: generational handles for aircraft.
-- A callsign is the bytes of its C string, `none` a null pointer. A slot, a generation and a time are
-- numbers: a slot and a generation are kept below 2 ^ 32, a time below 2 ^ 64. The vector of free slots
-- is a stack whose back is the head of the list.
pub mod Invariant
pub mod Observe
pub mod Sweep
pub mod Generations
pub mod History
pub mod Resolve
pub mod Lifetime
pub mod Unborn
mod Tests
use euroscope_plugin_bridge.Prelude.{
  ℕ, zero, suc, ◌+◌, ◌-◌, ◌*◌, ◌/◌, ◌%◌, ◌^◌, ◌<◌, ◌≡◌, Bool, true, false, not, ◌&&◌, ◌||◌, List,
  [], ◌∷◌, ◌++◌, Option, none, some, ltb, leb, ◌==◌, if◌then◌else◌, length, get_or, set,
}
use euroscope_plugin_bridge.Status.{
  Status, ok, unknown_aircraft, stale_aircraft, buffer_too_small, invalid_arg,
}
use euroscope_plugin_bridge.Prelude.Maps.{lookup, emplace, erase, bytes_key}

abbrev pub Bytes : Type 0
Bytes = List ℕ

-- ESB_AIRCRAFT_NONE
abbrev pub aircraft_none : ℕ
aircraft_none = 0

unfoldable pub slot_of : ℕ → ℕ
slot_of h = h % 2 ^ 32

unfoldable pub generation_of : ℕ → ℕ
generation_of h = h / 2 ^ 32 % 2 ^ 32

-- `(gen << 32) | slot` on two 32-bit numbers.
pub handle : ℕ → ℕ → ℕ
handle slot gen = gen * 2 ^ 32 + slot

pub record Entry : Type 0 where
  pub callsign : Bytes
  pub generation : ℕ
  pub used : Bool
  pub live : Bool
  pub first_seen : ℕ
  pub last_seen : ℕ

-- What `Entry e;` holds.
abbrev pub fresh_entry : Entry
fresh_entry = record {
  callsign = [];
  generation = 0;
  used = false;
  live = false;
  first_seen = 0;
  last_seen = 0;
}

pub record Table : Type 0 where
  pub slots : List Entry
  pub free : List ℕ
  pub index : List (Bytes × ℕ)

abbrev pub empty_table : Table
empty_table = record { slots = []; free = []; index = [] }

-- `++e.generation` on a uint32_t.
abbrev pub bump : ℕ → ℕ
bump gen = (gen + 1) % 2 ^ 32

abbrev pub entry_at : Table → ℕ → Entry
entry_at t slot = get_or t.slots slot fresh_entry

-- A callsign that is known: the slot comes back to life if it was retired.
pub observe_known : Table → ℕ → ℕ → Table × ℕ
observe_known t slot now =
    let e = entry_at t slot in
    let first = if e.live then e.first_seen else now in
    let e' = record e { live = true; first_seen = first; last_seen = now } in
    (record t { slots = set t.slots slot e' }, handle slot e.generation)

abbrev pub taken_entry : Bytes → ℕ → ℕ → Entry
taken_entry cs gen now = record {
  callsign = cs;
  generation = gen;
  used = true;
  live = true;
  first_seen = now;
  last_seen = now;
}

-- A callsign that is not known: the last reclaimed slot, or a new one.
pub observe_new : Table → Bytes → ℕ → List ℕ → Table × ℕ
observe_new t cs now (slot ∷ free) =
    let gen = bump (entry_at t slot).generation in
    (
      record {
        slots = set t.slots slot (taken_entry cs gen now);
        free = free;
        index = emplace cs slot t.index;
      },
      handle slot gen,
    )
observe_new t cs now [] =
    let slot = length t.slots % 2 ^ 32 in
    (
      record t { slots = t.slots ++ (taken_entry cs 1 now ∷ []); index = emplace cs slot t.index },
      handle slot 1,
    )

pub observe : Table → Option Bytes → ℕ → Table × ℕ
observe t none now = (t, aircraft_none)
observe t (some []) now = (t, aircraft_none)
observe t (some (c ∷ cs)) now = elim (lookup (c ∷ cs) t.index) [
  | some slot ↦ observe_known t slot now
  | none ↦ observe_new t (c ∷ cs) now t.free
]

-- The slot is marked dead and its generation goes up.
abbrev pub retire_entry : Entry → Entry
retire_entry e = record e { live = false; generation = bump e.generation }

unfoldable pub retire_slot : Table → ℕ → Table × Option ℕ
retire_slot t slot =
    let e = entry_at t slot in
    if e.live
    then (record t { slots = set t.slots slot (retire_entry e) }, some slot)
    else (t, none)

-- The slot is `*outSlot`; `none` is `false`.
unfoldable pub retire : Table → Option Bytes → Table × Option ℕ
retire t none = (t, none)
retire t (some []) = (t, none)
retire t (some (c ∷ cs)) = elim (lookup (c ∷ cs) t.index) [
  | none ↦ (t, none)
  | some slot ↦ retire_slot t slot
]

-- SweepResult, with the part of the table that the loop has rebuilt.
pub record Swept : Type 0 where
  pub entries : List Entry
  pub free : List ℕ
  pub index : List (Bytes × ℕ)
  pub retired : List ℕ
  pub reclaimed : ℕ

-- Never below 0, also if the clock has not advanced.
pub age : ℕ → Entry → ℕ
age now e = if ltb e.last_seen now then now - e.last_seen else 0

pub data Fate : Type 0 where
  keep retires reclaims : Fate

-- The branches of the loop body. `ttlMs + graceMs` is a sum of two uint64_t.
pub fate : ℕ → ℕ → ℕ → Entry → Fate
fate now ttl grace e =
    if not e.used
    then keep
    else (if e.live
        then (if leb ttl (age now e) then retires else keep)
        else (if leb ((ttl + grace) % 2 ^ 64) (age now e) then reclaims else keep))

abbrev pub reclaim_entry : Entry → Entry
reclaim_entry e = record e { callsign = []; used = false }

abbrev pub apply_fate : Fate → Entry → Entry
apply_fate keep e = e
apply_fate retires e = retire_entry e
apply_fate reclaims e = reclaim_entry e

-- One round of the loop: the slot's entry is rewritten, and the free list and the index with it.
pub sweep_round : Fate → ℕ → Entry → List ℕ → List (Bytes × ℕ) → List ℕ × List (Bytes × ℕ)
sweep_round keep slot e free index = (free, index)
sweep_round retires slot e free index = (free, index)
sweep_round reclaims slot e free index = (slot ∷ free, erase e.callsign index)

abbrev pub retired_here : Fate → ℕ → List ℕ
retired_here retires slot = slot ∷ []
retired_here keep slot = []
retired_here reclaims slot = []

abbrev pub reclaimed_here : Fate → ℕ
reclaimed_here reclaims = 1
reclaimed_here keep = 0
reclaimed_here retires = 0

-- `for (slot = 0; slot < m_slots.size(); ++slot)` from `slot` on.
pub sweep_loop : ℕ → ℕ → ℕ → ℕ → List Entry → List ℕ → List (Bytes × ℕ) → Swept
sweep_loop now ttl grace slot [] free index = record {
  entries = [];
  free = free;
  index = index;
  retired = [];
  reclaimed = 0;
}
sweep_loop now ttl grace slot (e ∷ es) free index =
    let f = fate now ttl grace e in
    let (free', index') = sweep_round f slot e free index in
    let rest = sweep_loop now ttl grace (slot + 1) es free' index' in
    record rest {
      entries = apply_fate f e ∷ rest.entries;
      retired = retired_here f slot ++ rest.retired;
      reclaimed = reclaimed_here f + rest.reclaimed;
    }

-- The table, the retired slots in order and the number of reclaimed ones.
pub sweep : Table → ℕ → ℕ → ℕ → Table × List ℕ × ℕ
sweep t now ttl grace =
    let s = sweep_loop now ttl grace 0 t.slots t.free t.index in
    (record { slots = s.entries; free = s.free; index = s.index }, s.retired, s.reclaimed)

-- Resolve for an `out` that is there: `*out` is the handle with `ok`.
pub resolve : Table → Option Bytes → Status × ℕ
resolve t none = (invalid_arg, aircraft_none)
resolve t (some cs) = elim (lookup cs t.index) [
  | none ↦ (unknown_aircraft, aircraft_none)
  | some slot ↦
      (let e = entry_at t slot in
        if not e.used || not e.live
        then (unknown_aircraft, aircraft_none)
        else (ok, handle slot e.generation))
]

pub resolve_to : Table → Option Bytes → Bool → Status × ℕ
resolve_to t callsign out = if not out then (invalid_arg, aircraft_none) else resolve t callsign

unfoldable pub validate : Table → ℕ → Status
validate t h =
    let slot = slot_of h in
    let e = entry_at t slot in
    if (h == aircraft_none) || leb (length t.slots) slot
    then unknown_aircraft
    else (if not e.used || (not e.live || not (e.generation == generation_of h))
        then stale_aircraft
        else ok)

-- The caller's size of the buffer, or no pointer to one, and whether there is a buffer: the status, the
-- size that is needed, and the callsign that is copied.
pub copy_callsign : Table → ℕ → Option ℕ → Bool → Status × Option ℕ × Option Bytes
copy_callsign t h none buf = (invalid_arg, none, none)
copy_callsign t h (some have) buf =
    let cs = (entry_at t (slot_of h)).callsign in
    let need = (length cs + 1) % 2 ^ 32 in
    if not buf || ltb have need
    then (buffer_too_small, some need, none)
    else (ok, some need, some cs)

pub callsign_of : Table → ℕ → Option ℕ → Bool → Status × Option ℕ × Option Bytes
callsign_of t h io_bytes buf = elim (validate t h) [
  | ok ↦ copy_callsign t h io_bytes buf
  | st ↦ (st, io_bytes, none)
]

pub live_count : List Entry → ℕ
live_count [] = 0
live_count (e ∷ es) = (if e.used && e.live then 1 else 0) + live_count es
