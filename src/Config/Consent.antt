-- ===== src/Config/Consent.antt =====
-- What bridge.json must say for a provider to be published, and the ranges of what Config::Load of
-- src/Config.cpp gives.
use euroscope_plugin_bridge.Prelude.{
  ℕ, ◌^◌, ◌<◌, ◌≤◌, ◌≡◌, refl, ◌∙◌, Bool, false, not, ◌&&◌, ◌||◌, List, [], ◌∷◌, Option, none, some,
  bytes_eq, bytes_eq_iff, arith, Bool-cases, inl, inr,
}
use euroscope_plugin_bridge.Mqtt.{is_empty}
use euroscope_plugin_bridge.Text.{Bytes, codes}
use euroscope_plugin_bridge.Json.{
  JsonValue, null, boolean, number, string, array, object, Items, no_items, item, items, at, find,
  as_bool, as_string, is_object, is_string,
}
use euroscope_plugin_bridge.Json.Double.{Double, as_int}
use euroscope_plugin_bridge.Json.Parser.{parse}
use euroscope_plugin_bridge.Registry.{allows_provider, contains}
use euroscope_plugin_bridge.Config.{
  Config, default_config, relay_config, insert_name, add_provider_name, provider_names, clamp_hz,
  clamp_cap, read_relay, check_host, load_relay, load_root, load,
}

-- The id stands among the items, as a string that is not empty.
pub lists : Bytes → Items → Bool
lists id no_items = false
lists id (item p ps) =
    (is_string p && (not (is_empty (as_string p)) && bytes_eq (as_string p) id)) || lists id ps

contains-insert_name :
    (id name : Bytes) (names : List Bytes)
    → contains id (insert_name name names) ≡ (bytes_eq name id || contains id names)
unfolding contains insert_name
contains-insert_name id name [] = refl
contains-insert_name id name (n ∷ names) = ground (
  arith,
  contains-insert_name id name names,
  bytes_eq_iff n name,
  bytes_eq_iff name id,
  bytes_eq_iff n id,
)

contains-provider_names :
    (id : Bytes) (ps : Items) (names : List Bytes)
    → contains id (provider_names ps names) ≡ (lists id ps || contains id names)
unfolding provider_names lists add_provider_name
contains-provider_names id no_items names = refl
contains-provider_names id (item p ps) names = ground (
  arith,
  contains-provider_names id ps (add_provider_name p names),
  contains-insert_name id (as_string p) names,
)

-- The "relay" object of a file, null where there is none.
pub relay_of : Double → Option Bytes → JsonValue
relay_of d none = null
relay_of d (some text) = at (parse d text).0 (codes "relay")

-- The consent that a relay object gives to a provider.
pub consents : JsonValue → Bytes → Bool
consents relay id =
    as_bool (at relay (codes "enabled")) false
    && (not (is_empty (as_string (at relay (codes "host"))))
        && lists id (items (at relay (codes "providers"))))

-- A value that is no object has no members.
at-none : (v : JsonValue) (key : Bytes) → is_object v ≡ false → at v key ≡ null
unfolding at find
at-none null key h = refl
at-none (boolean b) key h = refl
at-none (number n) key h = refl
at-none (string s) key h = refl
at-none (array xs) key h = refl
at-none (object ms) key h = absurd (cc)

allowed-check_host :
    (c : Config) (id : Bytes)
    → allows_provider (relay_config (check_host c).0) id
      ≡ (c.enabled && (not (is_empty c.host) && contains id c.providers))
unfolding check_host relay_config allows_provider
allowed-check_host c id = ground arith

allowed-read_relay :
    (d : Double) (relay : JsonValue) (id : Bytes)
    → allows_provider (relay_config (check_host (read_relay d relay)).0) id ≡ consents relay id
unfolding read_relay consents contains
allowed-read_relay d relay id =
    allowed-check_host (read_relay d relay) id
    ∙ ground (arith, contains-provider_names id (items (at relay (codes "providers"))) [])

allowed-load_relay :
    (d : Double) (relay : JsonValue) (id : Bytes)
    → allows_provider (relay_config (load_relay d relay).0) id ≡ consents relay id
unfolding load_relay
allowed-load_relay d relay id = elim (Bool-cases (is_object relay)) [
  | inl q ↦ rw q (allowed-read_relay d relay id)
  | inr q ↦ rw q (
      unfold consents allows_provider relay_config as_bool in
      rw (at-none relay (codes "enabled") q) refl)
]

allowed-load_root :
    (d : Double) (root : JsonValue) (error id : Bytes)
    → allows_provider (relay_config (load_root d root error).0) id
      ≡ consents (at root (codes "relay")) id
unfolding load_root
allowed-load_root d root error id = elim (Bool-cases (is_object root)) [
  | inl q ↦ rw q (allowed-load_relay d (at root (codes "relay")) id)
  | inr q ↦ rw q (
      unfold consents allows_provider relay_config at find as_bool in
      rw (at-none root (codes "relay") q) refl)
]

-- Under the configuration that Load gives, a provider may be published exactly when the file can be read
-- and its "relay" object has "enabled" as true, a "host" that is not empty, and the provider's id among its
-- "providers". Any other file, a missing and a broken one included, allows no provider.
pub allows_provider-load :
    (d : Double) (file : Option Bytes) (id : Bytes)
    → allows_provider (relay_config (load d file).0) id ≡ consents (relay_of d file) id
unfolding load relay_of
allows_provider-load d none id =
    unfold consents allows_provider relay_config at find as_bool in refl
allows_provider-load d (some text) id = allowed-load_root d (parse d text).0 (parse d text).1 id

-- The ranges that the relay relies on.
pub record IsInRange (c : Config) : Type 0 where
  pub hz_low : 1 ≤ c.publish_hz
  pub hz_high : c.publish_hz ≤ 50
  pub port_low : c.port < 2 ^ 16
  pub cap_high : c.max_keys < 2 ^ 32

clamp_hz_bounds : (n : ℕ) → (1 ≤ clamp_hz n) × (clamp_hz n ≤ 50)
unfolding clamp_hz
clamp_hz_bounds n = ground arith

clamp_cap-lt : (n : ℕ) → clamp_cap n < 2 ^ 32
unfolding clamp_cap
clamp_cap-lt n = ground arith

default_config-IsInRange : IsInRange default_config
default_config-IsInRange = omega arith

check_host-IsInRange : (c : Config) → IsInRange c → IsInRange (check_host c).0
unfolding check_host
check_host-IsInRange c h = elim (Bool-cases (c.enabled && is_empty c.host)) [
  | inl q ↦ rw q (record {
    hz_low = h.hz_low;
    hz_high = h.hz_high;
    port_low = h.port_low;
    cap_high = h.cap_high;
  })
  | inr q ↦ rw q h
]

read_relay-IsInRange : (d : Double) (relay : JsonValue) → IsInRange (read_relay d relay)
unfolding read_relay
read_relay-IsInRange d relay =
    let hz = clamp_hz_bounds (as_int d (at relay (codes "publish_hz")) 4) in
    record {
      hz_low = hz.0;
      hz_high = hz.1;
      port_low = omega arith;
      cap_high = clamp_cap-lt (as_int d (at relay (codes "max_keys_per_provider")) 500);
    }

load_root-IsInRange :
    (d : Double) (root : JsonValue) (error : Bytes) → IsInRange (load_root d root error).0
unfolding load_root load_relay
load_root-IsInRange d root error = elim (Bool-cases (is_object root)) [
  | inl q ↦ rw q (elim (Bool-cases (is_object (at root (codes "relay")))) [
    | inl q ↦ rw q (check_host-IsInRange _ (read_relay-IsInRange d (at root (codes "relay"))))
    | inr q ↦ rw q default_config-IsInRange
  ])
  | inr q ↦ rw q default_config-IsInRange
]

-- Whatever the file says, Load gives between 1 and 50 publishes a second, a port below 2 ^ 16 and a cap below
-- 2 ^ 32.
pub load-IsInRange : (d : Double) (file : Option Bytes) → IsInRange (load d file).0
unfolding load
load-IsInRange d none = default_config-IsInRange
load-IsInRange d (some text) = load_root-IsInRange d (parse d text).0 (parse d text).1

-- A file that Parse refuses, or that holds no object, gives the default configuration, whose relay is off,
-- and an error.
pub load_refused :
    (d : Double) (text : Bytes)
    → is_object (parse d text).0 ≡ false
    → ((load d (some text)).0 ≡ default_config) × (is_empty (load d (some text)).1 ≡ false)
unfolding load load_root
load_refused d text h = elim (Bool-cases (is_empty (parse d text).1)) [
  | inl q ↦ rw h (refl, rw q refl)
  | inr q ↦ rw h (refl, rw q q)
]
