-- ===== src/Json/Sorted.antt =====
-- The order of the members of an object (src/Json.h: objects keep their keys sorted).
use euroscope_plugin_bridge.Prelude.{
  ◌≡◌, refl, ap, ◌∙◌, true, false, [], ◌∷◌, bytes_eq, arith, Bool-cases, inl, inr,
}
use euroscope_plugin_bridge.Text.{Bytes}
use euroscope_plugin_bridge.Json.{JsonValue, Members, no_members, member, bytes_lt, set_member}

-- Every key of the members comes behind `key`.
abbrev pub Above : Bytes → Members → Type 0
Above key no_members = Unit {0}
Above key (member k v ms) = (bytes_lt key k ≡ true) × Above key ms

abbrev pub IsSorted : Members → Type 0
IsSorted no_members = Unit {0}
IsSorted (member k v ms) = Above k ms × IsSorted ms

pub bytes_lt_trans :
    (s t u : Bytes) → bytes_lt s t ≡ true → bytes_lt t u ≡ true → bytes_lt s u ≡ true
unfolding bytes_lt
bytes_lt_trans s [] u h k = cc
bytes_lt_trans [] (d ∷ t) [] h k = cc
bytes_lt_trans [] (d ∷ t) (e ∷ u) h k = refl
bytes_lt_trans (c ∷ s) (d ∷ t) [] h k = cc
bytes_lt_trans (c ∷ s) (d ∷ t) (e ∷ u) h k = ground (arith, bytes_lt_trans s t u)

-- Of two different keys one comes first.
pub bytes_lt_total :
    (s t : Bytes) → bytes_lt s t ≡ false → bytes_eq t s ≡ false → bytes_lt t s ≡ true
unfolding bytes_lt bytes_eq
bytes_lt_total [] [] h k = cc
bytes_lt_total [] (d ∷ t) h k = cc
bytes_lt_total (c ∷ s) [] h k = refl
bytes_lt_total (c ∷ s) (d ∷ t) h k = ground (arith, bytes_lt_total s t)

pub bytes_lt_asym :
    (s t : Bytes) → bytes_lt s t ≡ true → (bytes_lt t s ≡ false) × (bytes_eq s t ≡ false)
unfolding bytes_lt bytes_eq
bytes_lt_asym s [] h = absurd (cc)
bytes_lt_asym [] (d ∷ t) h = (refl, refl)
bytes_lt_asym (c ∷ s) (d ∷ t) h = ground (arith, bytes_lt_asym s t)

Above-set_member :
    (j key : Bytes) (v : JsonValue) (ms : Members)
    → bytes_lt j key ≡ true
    → Above j ms
    → Above j (set_member key v ms)
unfolding set_member
Above-set_member j key v no_members h a = (h, tt)
Above-set_member j key v (member k w ms) h a = elim (Bool-cases (bytes_lt key k)) [
  | inl e ↦ rw e (h, a)
  | inr e ↦ rw e (elim (Bool-cases (bytes_eq k key)) [
    | inl q ↦ rw q (a.0, a.1)
    | inr q ↦ rw q (a.0, Above-set_member j key v ms h a.1)
  ])
]

Above-bytes_lt : (j k : Bytes) (ms : Members) → bytes_lt j k ≡ true → Above k ms → Above j ms
Above-bytes_lt j k no_members h a = tt
Above-bytes_lt j k (member i v ms) h a = (bytes_lt_trans j k i h a.0, Above-bytes_lt j k ms h a.1)

-- Objects keep their keys sorted, whatever is set.
pub set_member-IsSorted :
    (key : Bytes) (v : JsonValue) (ms : Members) → IsSorted ms → IsSorted (set_member key v ms)
unfolding set_member
set_member-IsSorted key v no_members h = (tt, tt)
set_member-IsSorted key v (member k w ms) h = elim (Bool-cases (bytes_lt key k)) [
  | inl e ↦ rw e ((e, Above-bytes_lt key k ms e h.0), h)
  | inr e ↦ rw e (elim (Bool-cases (bytes_eq k key)) [
    | inl q ↦ rw q (h.0, h.1)
    | inr q ↦ rw q (
      Above-set_member k key v ms (bytes_lt_total key k e q) h.0,
      set_member-IsSorted key v ms h.1,
    )
  ])
]

-- The members set one after the other, in the order of the text.
unfoldable pub set_all : Members → Members → Members
set_all ms no_members = ms
set_all ms (member k v rest) = set_all (set_member k v ms) rest

join : Members → Members → Members
join no_members ks = ks
join (member k v ms) ks = member k v (join ms ks)

-- All keys of the first come before all keys of the second.
abbrev Precedes : Members → Members → Type 0
Precedes no_members ks = Unit {0}
Precedes (member k v ms) ks = Above k ks × Precedes ms ks

set_member-join :
    (ms : Members) (k : Bytes) (v : JsonValue) (rest : Members)
    → Precedes ms (member k v rest)
    → Above k rest
    → (join (set_member k v ms) rest ≡ join ms (member k v rest))
      × Precedes (set_member k v ms) rest
unfolding join set_member
set_member-join no_members k v rest h a = (refl, (a, tt))
set_member-join (member j w ms) k v rest h a =
    let (later, apart) = bytes_lt_asym j k h.0.0 in
    let (joined, kept) = set_member-join ms k v rest h.1 a in
    rw (later, apart) (ap (member j w) joined, (h.0.1, kept))

set_all-join :
    (ms rest : Members) → Precedes ms rest → IsSorted rest → set_all ms rest ≡ join ms rest
unfolding set_all join
set_all-join no_members no_members h s = refl
set_all-join (member k v ms) no_members h s = ap (member k v) (set_all-join ms no_members h.1 tt)
set_all-join ms (member k v rest) h s =
    let (joined, kept) = set_member-join ms k v rest h s.0 in
    set_all-join (set_member k v ms) rest kept s.1 ∙ joined

-- Sorted members that are set one after the other are what they were.
pub set_all-sorted : (ms : Members) → IsSorted ms → set_all no_members ms ≡ ms
unfolding join
set_all-sorted ms s = set_all-join no_members ms tt s
