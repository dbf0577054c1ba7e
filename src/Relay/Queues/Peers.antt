-- ===== src/Relay/Queues/Peers.antt =====
-- The list of peers: has_peer and erase_peer stand for std::find and erase in HandlePublish of
-- src/Relay.cpp.
use euroscope_plugin_bridge.Prelude.{
  Bool, true, false, ◌||◌, List, [], ◌∷◌, ◌++◌, ◌≡◌, refl, sym, ap, ◌∙◌, bytes_eq, bytes_eq_iff,
  bytes_eq_refl, Bool-cases, inl, inr,
}
use euroscope_plugin_bridge.Text.{Bytes}
use euroscope_plugin_bridge.Relay.{has_peer, erase_peer}

-- Names other than the relay's own, each of them once.
unfoldable pub ArePeerNames : Bytes → List Bytes → Type 0
ArePeerNames own [] = Unit {0}
ArePeerNames own (p ∷ ps) =
    (bytes_eq p own ≡ false) × ((has_peer p ps ≡ false) × ArePeerNames own ps)

bytes_eq_ne : (a b : Bytes) → bytes_eq a b ≡ false → bytes_eq b a ≡ false
bytes_eq_ne a b h = elim (Bool-cases (bytes_eq b a)) [
  | inl e ↦ absurd (
      cc (
        h,
        sym ((bytes_eq_iff b a).0 e),
        bytes_eq_refl a,
        ap (bytes_eq a) (sym ((bytes_eq_iff b a).0 e)),
      ))
  | inr e ↦ e
]

or_false : (a b : Bool) → (a || b) ≡ false → (a ≡ false) × (b ≡ false)
or_false false b h = (refl, h)
or_false true b h = absurd (cc h)

or_both : (a b : Bool) → a ≡ false → b ≡ false → (a || b) ≡ false
or_both a b ha hb = rw ha hb

has_peer-push :
    (x c : Bytes) (ps : List Bytes)
    → has_peer x ps ≡ false
    → bytes_eq c x ≡ false
    → has_peer x (ps ++ (c ∷ [])) ≡ false
unfolding has_peer
has_peer-push x c [] h ne = or_both (bytes_eq c x) false ne refl
has_peer-push x c (p ∷ ps) h ne =
    let (here, there) = or_false (bytes_eq p x) (has_peer x ps) h in
    or_both (bytes_eq p x) _ here (has_peer-push x c ps there ne)

pub push-ArePeerNames :
    (own c : Bytes) (ps : List Bytes)
    → bytes_eq c own ≡ false
    → has_peer c ps ≡ false
    → ArePeerNames own ps
    → ArePeerNames own (ps ++ (c ∷ []))
unfolding ArePeerNames has_peer
push-ArePeerNames own c [] other new h = (other, (refl, tt))
push-ArePeerNames own c (p ∷ ps) other new (hp, (once, h)) =
    let (here, there) = or_false (bytes_eq p c) (has_peer c ps) new in
    (
      hp,
      (has_peer-push p c ps once (bytes_eq_ne p c here), push-ArePeerNames own c ps other there h),
    )

has_peer-erase_peer :
    (x c : Bytes) (ps : List Bytes) → has_peer x ps ≡ false → has_peer x (erase_peer c ps) ≡ false
unfolding has_peer erase_peer
has_peer-erase_peer x c [] h = refl
has_peer-erase_peer x c (p ∷ ps) h =
    let (here, there) = or_false (bytes_eq p x) (has_peer x ps) h in
    elim (Bool-cases (bytes_eq p c)) [
      | inl q ↦ rw q there
      | inr q ↦ rw q (or_both (bytes_eq p x) _ here (has_peer-erase_peer x c ps there))
    ]

pub erase_peer-ArePeerNames :
    (own c : Bytes) (ps : List Bytes) → ArePeerNames own ps → ArePeerNames own (erase_peer c ps)
unfolding ArePeerNames erase_peer
erase_peer-ArePeerNames own c [] h = tt
erase_peer-ArePeerNames own c (p ∷ ps) (hp, (once, h)) = elim (Bool-cases (bytes_eq p c)) [
  | inl q ↦ rw q h
  | inr q ↦ rw q (hp, (has_peer-erase_peer p c ps once, erase_peer-ArePeerNames own c ps h))
]

-- A peer that dropped is listed no more.
pub erase_peer_gone :
    (own c : Bytes) (ps : List Bytes) → ArePeerNames own ps → has_peer c (erase_peer c ps) ≡ false
unfolding ArePeerNames erase_peer has_peer
erase_peer_gone own c [] h = refl
erase_peer_gone own c (p ∷ ps) (hp, (once, h)) = elim (Bool-cases (bytes_eq p c)) [
  | inl q ↦ rw q (ap (λ x. has_peer x ps) (sym ((bytes_eq_iff p c).0 q)) ∙ once)
  | inr q ↦ rw q (or_both (bytes_eq p c) _ q (erase_peer_gone own c ps h))
]
