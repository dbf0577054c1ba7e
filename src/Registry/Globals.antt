-- ===== src/Registry/Globals.antt =====
-- A global value that was set is what is read: SetGlobal and GetGlobal of src/Registry.cpp.
use euroscope_plugin_bridge.Prelude.{
  ℕ, zero, suc, [], ◌∷◌, ◌-◌, ◌≤◌, ◌≡◌, refl, ◌∙◌, ap, Bool, true, false, List, Option, some, ◌==◌,
  arith, Bool-cases, Option-cases, inl, inr, ==_iff, get_elem?, get_or,
}
use euroscope_plugin_bridge.Prelude.Maps.{lookup, insert, nat_eq, lookup-insert}
use euroscope_plugin_bridge.Status.{ok}
use euroscope_plugin_bridge.Value.{Value, Slot, same_value, store, read_slot, fresh_slot}
use euroscope_plugin_bridge.Value.Read.{
  IsGiven, buffer_needed, delivered, delivered_length, read_slot-store, same_value-fresh_slot,
  same_value-read_slot,
}
use euroscope_plugin_bridge.Schema.{FieldDef, ProviderDef, fresh_provider, scope_global}
use euroscope_plugin_bridge.Registry.{
  Registry, field, provider_at, with_revision, tick, set_global, write_global, queue_outbound,
  mark_state_dirty, slot_or,
}
use euroscope_plugin_bridge.Registry.Read.{get_global}
use euroscope_plugin_bridge.Registry.Writes.{Owns, check_write-Verdict}

-- What a read of a global value depends on is kept, but for the revisions of the providers.
pub record Keeps (r r' : Registry) : Type 0 where
  pub same_globals : r'.globals ≡ r.globals
  pub same_fields : r'.fields ≡ r.fields
  pub same_providers : r'.providers ≡ r.providers

with_revision-live :
    (ps : List ProviderDef) (o now j : ℕ)
    → (get_or (with_revision ps o now) j fresh_provider).live ≡ (get_or ps j fresh_provider).live
with_revision-live [] o now j = refl
with_revision-live (p ∷ ps) zero now zero = refl
with_revision-live (p ∷ ps) zero now (suc j) = refl
with_revision-live (p ∷ ps) (suc o) now zero = refl
with_revision-live (p ∷ ps) (suc o) now (suc j) = with_revision-live ps o now j

get_or-found :
    (ps : List ProviderDef) (o : ℕ) (d : ProviderDef)
    → get_elem? ps o ≡ some d
    → get_or ps o fresh_provider ≡ d
get_or-found [] o d h = absurd (cc (h))
get_or-found (p ∷ ps) zero d h = cc (h)
get_or-found (p ∷ ps) (suc o) d h = get_or-found ps o d h

get_global-found :
    (r : Registry) (f : ℕ) (s : Slot) (out : Value) (io : Option ℕ) (buf : Bool) (fd : FieldDef)
    → field r f ≡ some fd
    → fd.scope ≡ scope_global
    → (provider_at r fd.provider).live ≡ true
    → lookup (f - 1) r.globals ≡ some s
    → get_global true r f out io buf ≡ read_slot s out io buf
unfolding get_global
get_global-found r f s out io buf fd found scoped live there =
    let global : (fd.scope == scope_global) ≡ true = (==_iff _ _).1 scoped in
    rw (found, there, global, live, get_global) refl

field-same : (r r' : Registry) (f : ℕ) → r'.fields ≡ r.fields → field r' f ≡ field r f
unfolding field
field-same r r' f e = rw (e, field) refl

queue_outbound-Keeps : (r : Registry) (i a : ℕ) → Keeps r (queue_outbound r i a)
unfolding queue_outbound
queue_outbound-Keeps r i a = record {
  same_globals = ground arith;
  same_fields = ground arith;
  same_providers = ground arith;
}

mark_state_dirty-Keeps : (r : Registry) (i : ℕ) → Keeps r (mark_state_dirty r i)
unfolding mark_state_dirty
mark_state_dirty-Keeps r i = record {
  same_globals = ground arith;
  same_fields = ground arith;
  same_providers = ground arith;
}

Keeps-Keeps : (r s t : Registry) → Keeps r s → Keeps s t → Keeps r t
Keeps-Keeps r s t a b = record {
  same_globals = b.same_globals ∙ a.same_globals;
  same_fields = b.same_fields ∙ a.same_fields;
  same_providers = b.same_providers ∙ a.same_providers;
}

owner_alive :
    (r : Registry) (o f : ℕ) (owns : Owns r o f scope_global)
    → (provider_at r owns.fd.provider).live ≡ true
owner_alive r o f owns =
    let (d, there, alive) = owns.live in
    ap (λ i. (provider_at r i).live) owns.owned
    ∙ (ap (λ e. e.live) (get_or-found r.providers o d there) ∙ alive)

lookup-insert_self : (k : ℕ) (s : Slot) (m : List (ℕ × Slot)) → lookup k (insert k s m) ≡ some s
lookup-insert_self k s m =
    let same : (k == k) ≡ true = (==_iff k k).1 refl in rw same at (lookup-insert k k s m)

-- The registry with the value stored.
abbrev written : Registry → ℕ → ℕ → Value → Registry
written r o i v =
    let stored = store (slot_or (lookup i r.globals)) v (tick r) in
    record r {
      clock = tick r;
      globals = insert i stored r.globals;
      providers = with_revision r.providers o stored.revision;
    }

module _ (notify : Registry → ℕ → ℕ → Registry)
    (notify-Keeps : (r : Registry) (i a : ℕ) → Keeps r (notify r i a)) where
  ends-Keeps :
      (r : Registry) (i a : ℕ) → Keeps r (notify (mark_state_dirty (queue_outbound r i a) i) i a)
  ends-Keeps r i a =
      Keeps-Keeps _ _ _
        (Keeps-Keeps _ _ _ (queue_outbound-Keeps r i a) (mark_state_dirty-Keeps _ i))
        (notify-Keeps _ i a)

  write_global-new :
      (r : Registry) (o i : ℕ) (v : Value)
      → same_value (slot_or (lookup i r.globals)) v ≡ false
      → Keeps (written r o i v) (write_global notify r o i v).0
  unfolding write_global
  write_global-new r o i v q = rw (q, write_global) (ends-Keeps (written r o i v) i 0)

  write_global-same :
      (r : Registry) (o i : ℕ) (v : Value)
      → same_value (slot_or (lookup i r.globals)) v ≡ true
      → (write_global notify r o i v).0 ≡ r
  unfolding write_global
  write_global-same r o i v q = rw (q, write_global) refl

  reads_new :
      (r : Registry) (o f : ℕ) (v out : Value) (have : ℕ)
      → IsGiven v
      → buffer_needed v ≤ have
      → Owns r o f scope_global
      → same_value (slot_or (lookup (f - 1) r.globals)) v ≡ false
      → get_global true (write_global notify r o (f - 1) v).0 f out (some have) true
        ≡ (ok, delivered v out, some (delivered_length v have))
  reads_new r o f v out have g room owns q =
      let w = (write_global notify r o (f - 1) v).0 in
      let kept = write_global-new r o (f - 1) v q in
      let s = slot_or (lookup (f - 1) r.globals) in
      let stored = store s v (tick r) in
      let there : lookup (f - 1) w.globals ≡ some stored =
        ap (lookup (f - 1)) kept.same_globals ∙ lookup-insert_self (f - 1) stored r.globals in
      let live : (provider_at w owns.fd.provider).live ≡ true =
        ap (λ ps. (get_or ps owns.fd.provider fresh_provider).live) kept.same_providers
        ∙ (with_revision-live r.providers o stored.revision owns.fd.provider
            ∙ owner_alive r o f owns) in
      get_global-found w f stored out (some have) true owns.fd
        (field-same r w f kept.same_fields ∙ owns.found) owns.scoped live there
      ∙ read_slot-store s v out (tick r) have g room

  reads_same :
      (r : Registry) (o f : ℕ) (v out : Value) (have : ℕ)
      → IsGiven v
      → buffer_needed v ≤ have
      → Owns r o f scope_global
      → same_value (slot_or (lookup (f - 1) r.globals)) v ≡ true
      → get_global true r f out (some have) true
        ≡ (ok, delivered v out, some (delivered_length v have))
  reads_same r o f v out have g room owns q = elim (Option-cases (lookup (f - 1) r.globals)) [
    | inl n ↦
        absurd
          (let q' : same_value fresh_slot v ≡ true = rw n at q in cc (q', same_value-fresh_slot v))
    | inr (s, n) ↦
        (let q' : same_value s v ≡ true = rw n at q in
          get_global-found r f s out (some have) true owns.fd owns.found owns.scoped
            (owner_alive r o f owns) n
          ∙ (same_value-read_slot s v out 0 (some have) true g q'
              ∙ read_slot-store s v out 0 have g room))
  ]

  -- When SetGlobal gives no error, GetGlobal gives the reader that value: also if the value was there
  -- already and nothing was written. A number is read into any buffer; a text or a blob must have the bytes
  -- that it says, fewer than 2 ^ 32, and the reader's buffer room for them. The notification must not
  -- change the values, the fields or the providers.
  pub get_global-set_global :
      (r : Registry) (p : Option ℕ) (f : ℕ) (v out : Value) (have : ℕ)
      → IsGiven v
      → buffer_needed v ≤ have
      → (set_global notify true r p f (some v)).1 ≡ ok
      → get_global true (set_global notify true r p f (some v)).0 f out (some have) true
        ≡ (ok, delivered v out, some (delivered_length v have))
  unfolding set_global
  get_global-set_global r p f v out have g room success =
      elim (check_write-Verdict r p f scope_global (some v) true) [
        | inl (st, q, bad) ↦ absurd (bad (rw (q, set_global) at success))
        | inr (o, q, here, owns) ↦
            elim (Bool-cases (same_value (slot_or (lookup (f - 1) r.globals)) v)) [
              | inl same ↦
                  rw (q, set_global, write_global-same r o (f - 1) v same)
                    (reads_same r o f v out have g room owns same)
              | inr new ↦ rw (q, set_global) (reads_new r o f v out have g room owns new)
            ]
      ]
