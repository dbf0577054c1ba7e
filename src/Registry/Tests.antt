-- ===== src/Registry/Tests.antt =====
-- A registry with one provider, and the theorems at it.
use euroscope_plugin_bridge.Prelude.{
  inl, inr, Bool-cases, ℕ, ◌*◌, ◌^◌, ◌≤◌, ◌≡◌, ◌≢◌, ◌⊎◌, Bool, ap, refl, true, false, List, [], ◌∷◌,
  none, some, arith, sym, ◌∙◌, bytes_eq, bytes_eq_iff,
}
use euroscope_plugin_bridge.Prelude.Maps.{lookup, nat_eq, bytes_key}
use euroscope_plugin_bridge.Status.{ok, no_provider}
use euroscope_plugin_bridge.Value.{Value, t_i64, t_str, is_scalar, same_value, valid_type}
use euroscope_plugin_bridge.Value.Read.{IsGiven, buffer_needed, delivered, delivered_length}
use euroscope_plugin_bridge.Schema.{
  Bytes, FieldDef, fresh_field, ProviderDef, fresh_provider, SubscriptionDef, scope_global,
  scope_aircraft, is_sync,
}
use euroscope_plugin_bridge.AircraftTable.{
  Table, Entry, slot_of, generation_of, validate, retire, retire_slot,
}
use euroscope_plugin_bridge.Registry.{
  Registry, set_global, write_global, check_write, check_field, check_value, owner, field,
  field_def, queue_outbound, sync_eligible,
}
use euroscope_plugin_bridge.Registry.Read.{get_global, get_aircraft}
use euroscope_plugin_bridge.Registry.Indexed.{IsIndexed, IsIndexed-same}
use euroscope_plugin_bridge.Registry.Aircraft.{
  set_aircraft, clear_aircraft, write_aircraft, put_value,
}
use euroscope_plugin_bridge.Registry.Aircraft.Owner.{set_aircraft-IsOwner}
use euroscope_plugin_bridge.Registry.Aircraft.Kept.{
  set_aircraft-IsIndexed, clear_aircraft-IsIndexed,
}
use euroscope_plugin_bridge.Registry.Drop.{
  unregister_provider, unregister_owned, drop_provider_values, drop_each, drop_field_values,
  retire_aircraft, observe_aircraft,
}
use euroscope_plugin_bridge.Registry.Drop.Indexed.{get_aircraft-retire_aircraft}
use euroscope_plugin_bridge.Registry.Drop.Unregistered.{unregister_provider-no_provider}
use euroscope_plugin_bridge.Registry.Discovery.{resolve, before_slash, live_provider}
use euroscope_plugin_bridge.Registry.Discovery.Resolved.{IsFieldIndex, IsResolved, resolve-field}
use euroscope_plugin_bridge.Registry.Notify.{
  queue_pending, is_pending, dispatch, notify, Script, does, returns, sets_global,
}
use euroscope_plugin_bridge.Registry.Notify.Drained.{IsDrained, rounds, notify-IsDrained}
use euroscope_plugin_bridge.Registry.Writes.{Denied, IsOwner, set_global-IsOwner}
use euroscope_plugin_bridge.Registry.Globals.{Keeps, get_global-set_global}

abbrev pub cdm : Bytes
cdm = b'c' ∷ b'd' ∷ b'm' ∷ []

abbrev afr : Bytes
afr = b'A' ∷ b'F' ∷ b'R' ∷ []

abbrev cdm_provider : ProviderDef
cdm_provider = record fresh_provider { id = cdm; fields = 0 ∷ 1 ∷ []; revision = 1; live = true }

-- Field 1 is a global string that is shared, field 2 a number of an aircraft.
abbrev cdm_fields : List FieldDef
cdm_fields =
    record fresh_field { type = t_str; scope = scope_global; flags = 3; max_bytes = 8 }
    ∷ record fresh_field { type = t_i64; scope = scope_aircraft }
    ∷ []

abbrev seen : Entry
seen = record {
  callsign = afr;
  generation = 1;
  used = true;
  live = true;
  first_seen = 5;
  last_seen = 5;
}

abbrev subscriber : SubscriptionDef
subscriber = record {
  field_index = 0;
  callback = 9;
  user = 0;
  module_handle = 0;
  module_path = [];
  live = true;
  delivered = 0;
}

abbrev pub start : Registry
start = record {
  clock = 1;
  providers = cdm_provider ∷ [];
  fields = cdm_fields;
  provider_index = (cdm, 0) ∷ [];
  field_index = [];
  globals = [];
  aircraft = [];
  slot_fields = [];
  subs = subscriber ∷ [];
  subs_by_field = (0, 0 ∷ []) ∷ [];
  dispatch_depth = 0;
  pending = [];
  dispatched = 0;
  dropped = 0;
  state_dirty = false;
  outbox = [];
  relay = some (record { enabled = true; providers = cdm ∷ []; publish_hz = 4; max_keys = 500 });
  remote = [];
  peers = [];
  pending_remote = [];
  relay_rejected = 0;
  last_outbox_ms = 0;
  staged = [];
  table = record { slots = seen ∷ []; free = []; index = (afr, 0) ∷ [] };
  ttl = 900000;
  grace = 300000;
  state_path = b's' ∷ [];
  last_state_flush_ms = 0;
  last_module_check_ms = 0;
  last_aircraft_sweep_ms = 0;
  shutting_down = false;
}

abbrev text : Value
text = record { type = t_str; bytes = 2; i64 = 0; f64 = 0; b = 0; ptr = some (b'O' ∷ b'K' ∷ []) }

abbrev pub number : Value
number = record { type = t_i64; bytes = 8; i64 = 1430; f64 = 0; b = 0; ptr = none }

abbrev afr_handle : ℕ
afr_handle = 1 * 2 ^ 32

text-IsGiven : IsGiven text
unfolding valid_type
text-IsGiven = record { valid = refl; sized = inr (refl, omega arith) }

text_fits : buffer_needed text ≤ 2
unfolding buffer_needed is_scalar
text_fits = omega arith

number-IsGiven : IsGiven number
unfolding valid_type is_scalar
number-IsGiven = record { valid = refl; sized = inl refl }

number_fits : buffer_needed number ≤ 0
unfolding buffer_needed is_scalar
number_fits = omega arith

queue_pending-Keeps : (r : Registry) (i a : ℕ) → Keeps r (queue_pending r i a)
unfolding queue_pending
queue_pending-Keeps r i a = record {
  same_globals = ground arith;
  same_fields = ground arith;
  same_providers = ground arith;
}

queue_pending-IsIndexed : (r : Registry) (i a : ℕ) → IsIndexed r → IsIndexed (queue_pending r i a)
unfolding queue_pending
queue_pending-IsIndexed r i a h =
    IsIndexed-same r (queue_pending r i a) (ground arith) (ground arith) h

start-IsIndexed : IsIndexed start
unfolding lookup
start-IsIndexed = record { listed = λ i slot s bound held. absurd (cc (held)) }

-- A stranger.
set_global-IsOwner_example :
    Denied start (set_global queue_pending true start (some 4) 1 (some text))
    ⊎ IsOwner start (some 4) 1 scope_global
set_global-IsOwner_example = set_global-IsOwner queue_pending true start (some 4) 1 (some text)

-- A handle of an earlier generation.
set_aircraft-IsOwner_example :
    Denied start (set_aircraft queue_pending true start (some 0) 0 2 (some number))
    ⊎ (IsOwner start (some 0) 2 scope_aircraft × (validate start.table 0 ≡ ok))
set_aircraft-IsOwner_example = set_aircraft-IsOwner queue_pending true start (some 0) 0 2 number

text_set : (set_global queue_pending true start (some 0) 1 (some text)).1 ≡ ok
unfolding set_global write_global check_write check_field check_value owner field is_scalar
    same_value lookup
text_set = refl

get_global-set_global_run :
    get_global true
      (set_global queue_pending true start (some 0) 1 (some text)).0
      1
      number
      (some 2)
      true
    ≡ (ok, delivered text number, some (delivered_length text 2))
get_global-set_global_run =
    get_global-set_global queue_pending queue_pending-Keeps start (some 0) 1 text number 2
      text-IsGiven text_fits text_set

-- A number, as a plugin passes it: eight bytes and no pointer.
abbrev counting : Registry
counting = record start { fields = record fresh_field { type = t_i64; scope = scope_global } ∷ [] }

number_set : (set_global queue_pending true counting (some 0) 1 (some number)).1 ≡ ok
unfolding set_global write_global check_write check_field check_value owner field is_scalar
    same_value lookup
number_set = refl

get_global-set_global_example :
    get_global true
      (set_global queue_pending true counting (some 0) 1 (some number)).0
      1
      text
      (some 0)
      true
    ≡ (ok, delivered number text, some (delivered_length number 0))
get_global-set_global_example =
    get_global-set_global queue_pending queue_pending-Keeps counting (some 0) 1 number text 0
      number-IsGiven number_fits number_set

number_delivered : delivered number text ≡ record text { type = t_i64; bytes = 8; i64 = 1430 }
unfolding delivered
number_delivered = refl

-- A subscriber that writes to the field that it hears of, a new value each time.
abbrev echo : ℕ → ℕ → ℕ → ℕ → Registry → Script
echo cb f a user r =
    does (sets_global (some 0) 1 (some (record text { ptr = some (r.clock ∷ 0 ∷ []) })))
      (λ r' st. returns)

abbrev no_module : ℕ → Bytes → Bool
no_module module_handle path = false

abbrev no_path : ℕ → Bytes
no_path module_handle = []

notify-IsDrained_example :
    IsDrained
      (rounds no_module no_path echo 8 (dispatch no_module no_path echo start 0 0))
      (notify no_module no_path echo start 0 0)
    × ((notify no_module no_path echo start 0 0).pending ≡ [])
    × ((notify no_module no_path echo start 0 0).dispatch_depth ≡ 0)
notify-IsDrained_example = notify-IsDrained no_module no_path echo start 0 0 refl

set_aircraft-IsIndexed_example :
    IsIndexed (set_aircraft queue_pending true start (some 0) afr_handle 2 (some number)).0
set_aircraft-IsIndexed_example =
    set_aircraft-IsIndexed queue_pending queue_pending-IsIndexed start (some 0) afr_handle 2 number
      start-IsIndexed

abbrev held : Registry
held = (set_aircraft queue_pending true start (some 0) afr_handle 2 (some number)).0

held-IsIndexed : IsIndexed held
held-IsIndexed =
    set_aircraft-IsIndexed queue_pending queue_pending-IsIndexed start (some 0) afr_handle 2 number
      start-IsIndexed

clear_aircraft-IsIndexed_run :
    IsIndexed (clear_aircraft queue_pending true held (some 0) afr_handle 2).0
clear_aircraft-IsIndexed_run =
    clear_aircraft-IsIndexed queue_pending queue_pending-IsIndexed held (some 0) afr_handle 2
      held-IsIndexed

abbrev gone : Table
gone = record {
  slots = record seen { live = false; generation = 2 } ∷ [];
  free = [];
  index = (afr, 0) ∷ [];
}

held_retires : retire held.table (some afr) ≡ (gone, some 0)
unfolding set_aircraft check_write check_field check_value owner field is_scalar validate slot_of
    generation_of write_aircraft put_value queue_outbound sync_eligible is_sync queue_pending
    is_pending lookup retire retire_slot bytes_eq
held_retires = refl

slot_zero : slot_of (2 * 2 ^ 32) ≡ 0
unfolding slot_of
slot_zero = refl

get_aircraft-retire_aircraft_example :
    (get_aircraft true
      (observe_aircraft (retire_aircraft held (some afr)) (some afr) 9).0
      (2 * 2 ^ 32)
      2
      number
      none
      false).0
    ≢ ok
get_aircraft-retire_aircraft_example =
    get_aircraft-retire_aircraft held (some afr) gone 0 held-IsIndexed held_retires (some afr) 9
      (2 * 2 ^ 32) 2 number none false slot_zero

cdm_owner : owner start (some 0) ≡ some 0
unfolding owner
cdm_owner = refl

abbrev shared_field : FieldDef
shared_field = record fresh_field { type = t_str; scope = scope_global; flags = 3; max_bytes = 8 }

field_stays : field (unregister_provider true start (some 0)).0 1 ≡ some shared_field
unfolding field owner unregister_provider unregister_owned drop_provider_values drop_each
    drop_field_values lookup bytes_eq
field_stays = refl

unregister_provider-no_provider_example :
    (owner (unregister_provider true start (some 0)).0 (some 0) ≡ none)
    × (get_global true (unregister_provider true start (some 0)).0 1 number (some 8) true
        ≡ (no_provider, number, some 8))
unregister_provider-no_provider_example =
    unregister_provider-no_provider start 0 1 shared_field number (some 8) true cdm_owner
      field_stays refl refl

abbrev cdm_t : Bytes
cdm_t = b'c' ∷ b'd' ∷ b'm' ∷ b'/' ∷ b't' ∷ []

-- "cdm/t", a name of the global field.
abbrev named : Registry
named = record start {
  fields = record fresh_field { qualified = cdm_t; type = t_str; scope = scope_global } ∷ [];
  field_index = (cdm_t, 0) ∷ [];
}

named_only :
    (name : Bytes) (i : ℕ) → lookup name named.field_index ≡ some i → (i ≡ 0) × (name ≡ cdm_t)
unfolding lookup
named_only name i h = elim (Bool-cases (bytes_eq cdm_t name)) [
  | inl q ↦
      (let e : some 0 ≡ some i = rw q at h in
        let first : 0 ≡ i = cc e in (sym first, sym ((bytes_eq_iff cdm_t name).0 q)))
  | inr q ↦ absurd (let e : none ≡ some i = rw q at h in cc (e))
]

named-IsFieldIndex : IsFieldIndex named
named-IsFieldIndex = record {
  exists = λ name i h. let (first, n) = named_only name i h in omega (arith, first);
  named = λ name i h.
      let (first, n) = named_only name i h in ap (λ k. (field_def named k).qualified) first ∙ sym n;
}

cdm_t_resolves : resolve named (some cdm_t) t_str true ≡ (ok, some 1)
unfolding resolve before_slash live_provider lookup bytes_eq
cdm_t_resolves = refl

resolve-field_example : IsResolved named cdm_t t_str 1
resolve-field_example = resolve-field named cdm_t t_str 1 named-IsFieldIndex cdm_t_resolves
