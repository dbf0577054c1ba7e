-- ===== src/Registry/Writes.antt =====
-- Who may write, and what a write leaves to be read: CheckWrite, SetGlobal and SetAircraft of
-- src/Registry.cpp.
use euroscope_plugin_bridge.Prelude.{
  ℕ, ◌≡◌, ◌≢◌, ◌⊎◌, refl, ap, subst, Bool, true, false, Option, none, some, ◌==◌, Bool-cases,
  Option-cases, inl, inr, ==_iff, get_elem?,
}
use euroscope_plugin_bridge.Status.{Status, ok, no_field, not_owner, invalid_arg, wrong_thread}
use euroscope_plugin_bridge.Value.{Value}
use euroscope_plugin_bridge.Schema.{FieldDef, ProviderDef, scope_global}
use euroscope_plugin_bridge.Registry.{
  Registry, Checked, passed, refused, check_value, check_field, check_write, owner, if_live, field,
  set_global,
}

-- The provider at an index is live, and it declared the field, which has the scope.
pub record Owns (r : Registry) (o f scope : ℕ) : Type 0 where
  pub fd : FieldDef
  pub found : field r f ≡ some fd
  pub scoped : fd.scope ≡ scope
  pub owned : fd.provider ≡ o
  pub live : (d : ProviderDef) × (get_elem? r.providers o ≡ some d) × (d.live ≡ true)

abbrev pub IsRefused : Checked → Type 0
IsRefused c = (st : Status) × (c ≡ refused st) × (st ≢ ok)

if_live-some : (d : ProviderDef) (i o : ℕ) → if_live d i ≡ some o → (d.live ≡ true) × (i ≡ o)
if_live-some d i o h = elim (Bool-cases d.live) [
  | inl l ↦ (l, (let h' : some i ≡ some o = rw (l, if_live) at h in cc (h')))
  | inr l ↦ absurd (let h' : none ≡ some o = rw (l, if_live) at h in cc (h'))
]

owner-live :
    (r : Registry) (p : Option ℕ) (o : ℕ)
    → owner r p ≡ some o
    → (p ≡ some o) × (d : ProviderDef) × (get_elem? r.providers o ≡ some d) × (d.live ≡ true)
unfolding owner
owner-live r none o h = absurd (cc (h))
owner-live r (some i) o h = elim (Option-cases (get_elem? r.providers i)) [
  | inl q ↦ absurd (let h' : none ≡ some o = rw (q, owner) at h in cc (h'))
  | inr (d, q) ↦
      (let h' : if_live d i ≡ some o = rw (q, owner) at h in
        let (l, e) = if_live-some d i o h' in
        (ap some e, d, subst (λ k. get_elem? r.providers k ≡ some d) e q, l))
]

checked_value :
    (o : ℕ) (st : Status)
    → IsRefused (elim st as (λ _. Checked) [ ok ↦ passed o | st' ↦ refused st' ])
      ⊎ (elim st as (λ _. Checked) [ ok ↦ passed o | st' ↦ refused st' ] ≡ passed o)
checked_value o ok = inr refl
checked_value o st = inl (st, refl, λ e. cc)

-- What CheckWrite answers: an error, or that the provider owns the field.
abbrev pub Verdict : Registry → Option ℕ → ℕ → ℕ → Checked → Type 0
Verdict r p f scope c = IsRefused c ⊎ ((o : ℕ) × (c ≡ passed o) × (p ≡ some o) × Owns r o f scope)

check_field-Verdict :
    (r : Registry) (p : Option ℕ) (o f scope : ℕ) (v : Option Value) (fd : FieldDef)
    → field r f ≡ some fd
    → p ≡ some o
    → (d : ProviderDef) × (get_elem? r.providers o ≡ some d) × (d.live ≡ true)
    → Verdict r p f scope (check_field o (some fd) scope v)
unfolding check_field
check_field-Verdict r p o f scope v fd found here alive = elim (Bool-cases (fd.scope == scope)) [
  | inr q ↦ rw q (inl (invalid_arg, refl, λ e. cc))
  | inl q ↦ elim (Bool-cases (fd.provider == o)) [
    | inr w ↦ rw (q, w) (inl (not_owner, refl, λ e. cc))
    | inl w ↦ elim (checked_value o (check_value fd v)) [
      | inl bad ↦ rw (q, w) (inl bad)
      | inr good ↦
          rw (q, w)
            (inr (
              o,
              good,
              here,
              record {
                fd = fd;
                found = found;
                scoped = (==_iff _ _).0 q;
                owned = (==_iff _ _).0 w;
                live = alive;
              },
            ))
    ]
  ]
]

pub check_write-Verdict :
    (r : Registry) (p : Option ℕ) (f scope : ℕ) (v : Option Value) (main : Bool)
    → Verdict r p f scope (check_write main r p f scope v)
unfolding check_write check_field
check_write-Verdict r p f scope v false = inl (wrong_thread, refl, λ e. cc)
check_write-Verdict r p f scope v true = elim (Option-cases (owner r p)) [
  | inl q ↦ rw (q, check_write) (inl (invalid_arg, refl, λ e. cc))
  | inr (o, q) ↦ elim (Option-cases (field r f)) [
    | inl n ↦ rw (q, n, check_write) (inl (no_field, refl, λ e. cc))
    | inr (fd, n) ↦
        (let (here, d, there, live) = owner-live r p o q in
          rw (q, n, check_write) (check_field-Verdict r p o f scope v fd n here (d, there, live)))
  ]
]

-- A call that changed nothing and gave an error.
abbrev pub Denied : Registry → Registry × Status → Type 0
Denied r w = (w.0 ≡ r) × (w.1 ≢ ok)

-- The caller is the live provider that declared the field.
abbrev pub IsOwner : Registry → Option ℕ → ℕ → ℕ → Type 0
IsOwner r p f scope = (o : ℕ) × (p ≡ some o) × Owns r o f scope

-- Only the live provider that declared a global field can set it: for every other caller SetGlobal gives
-- an error and changes nothing, whatever a notification would do.
pub set_global-IsOwner :
    (notify : Registry → ℕ → ℕ → Registry) (main : Bool) (r : Registry) (p : Option ℕ) (f : ℕ)
    (v : Option Value)
    → Denied r (set_global notify main r p f v) ⊎ IsOwner r p f scope_global
unfolding set_global
set_global-IsOwner notify main r p f v = elim (check_write-Verdict r p f scope_global v main) [
  | inl (st, q, bad) ↦ inl (rw (q, set_global) (refl, bad))
  | inr (o, q, here, owns) ↦ inr (o, here, owns)
]
