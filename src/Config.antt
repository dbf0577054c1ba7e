-- ===== src/Config.antt =====
-- bridge.json: Config::Load, WriteDefault and Describe of src/Config.cpp.
-- A Config holds a RelayConfig and nothing else; its fields are those. The text of the file, `none` where
-- it cannot be opened, is an argument. Doubles are those of Json/Double. The allow list is a std::set, in the
-- order of std::string.
pub mod Consent
mod Tests
use euroscope_plugin_bridge.Prelude.{
  ℕ, ◌%◌, ◌^◌, Bool, true, false, not, ◌&&◌, ◌||◌, List, [], ◌∷◌, ◌++◌, Option, none, some, ltb,
  leb, ◌==◌, if◌then◌else◌, bytes_eq, take,
}
use euroscope_plugin_bridge.Mqtt.{is_empty}
use euroscope_plugin_bridge.Text.{Bytes, codes, c_str, decimal}
use euroscope_plugin_bridge.Json.{
  JsonValue, Items, no_items, item, items, at, has, as_bool, as_string, is_object, is_string,
  bytes_lt,
}
use euroscope_plugin_bridge.Json.Double.{Double, as_int}
use euroscope_plugin_bridge.Json.Parser.{parse}
use euroscope_plugin_bridge.Registry.{RelayConfig}

pub record Config : Type 0 where
  pub enabled : Bool
  pub host : Bytes
  pub port : ℕ
  pub tls : Bool
  pub username : Bytes
  pub password : Bytes
  pub room : Bytes
  pub controller : Bytes
  pub providers : List Bytes
  pub publish_hz : ℕ
  pub max_keys : ℕ

abbrev pub default_config : Config
default_config = record {
  enabled = false;
  host = [];
  port = 8883;
  tls = true;
  username = [];
  password = [];
  room = codes "default";
  controller = [];
  providers = [];
  publish_hz = 4;
  max_keys = 500;
}

-- What the registry reads of it.
unfoldable pub relay_config : Config → RelayConfig
relay_config c = record {
  enabled = c.enabled;
  providers = c.providers;
  publish_hz = c.publish_hz;
  max_keys = c.max_keys;
}

-- std::set's `insert`
unfoldable pub insert_name : Bytes → List Bytes → List Bytes
insert_name name [] = name ∷ []
insert_name name (n ∷ names) =
    if bytes_lt name n
    then name ∷ n ∷ names
    else (if bytes_eq n name then n ∷ names else n ∷ insert_name name names)

unfoldable pub add_provider_name : JsonValue → List Bytes → List Bytes
add_provider_name p names =
    if is_string p && not (is_empty (as_string p)) then insert_name (as_string p) names else names

unfoldable pub provider_names : Items → List Bytes → List Bytes
provider_names no_items names = names
provider_names (item p ps) names = provider_names ps (add_provider_name p names)

-- An int64_t below 1: zero or a negative one.
abbrev pub below_one : ℕ → Bool
below_one n = (n == 0) || leb (2 ^ 63) n

unfoldable pub clamp_hz : ℕ → ℕ
clamp_hz hz = if below_one hz then 1 else (if ltb 50 hz then 50 else hz)

-- The cast to uint32_t keeps the low 32 bits.
unfoldable pub clamp_cap : ℕ → ℕ
clamp_cap cap = if below_one cap then 1 else cap % 2 ^ 32

unfoldable pub room_of : JsonValue → Bytes
room_of relay =
    let room = as_string (at relay (codes "room")) in
    if has relay (codes "room") && not (is_empty room) then room else codes "default"

unfoldable pub read_relay : Double → JsonValue → Config
read_relay d relay = record {
  enabled = as_bool (at relay (codes "enabled")) false;
  host = as_string (at relay (codes "host"));
  port = as_int d (at relay (codes "port")) 8883 % 2 ^ 16;
  tls = as_bool (at relay (codes "tls")) true;
  username = as_string (at relay (codes "username"));
  password = as_string (at relay (codes "password"));
  room = room_of relay;
  controller = as_string (at relay (codes "controller"));
  providers = provider_names (items (at relay (codes "providers"))) [];
  publish_hz = clamp_hz (as_int d (at relay (codes "publish_hz")) 4);
  max_keys = clamp_cap (as_int d (at relay (codes "max_keys_per_provider")) 500);
}

-- The last step of Load: enabled with no host.
unfoldable pub check_host : Config → Config × Bytes
check_host c =
    if c.enabled && is_empty c.host
    then (
      record c { enabled = false },
      codes "relay.enabled is true but host is empty; relay stays off",
    )
    else (c, [])

unfoldable pub load_relay : Double → JsonValue → Config × Bytes
load_relay d relay =
    if not (is_object relay) then (default_config, []) else check_host (read_relay d relay)

-- Behind Parse, with its value and its error
unfoldable pub load_root : Double → JsonValue → Bytes → Config × Bytes
load_root d root error =
    if not (is_object root)
    then (default_config, if is_empty error then codes "not a JSON object" else error)
    else load_relay d (at root (codes "relay"))

-- Load: the configuration and `*error`.
unfoldable pub load : Double → Option Bytes → Config × Bytes
load d none = (default_config, [])
load d (some text) = load_root d (parse d text).0 (parse d text).1

-- kTemplate
abbrev pub template : Bytes
template =
    codes
      "{\n  // EuroScope Plugin Bridge configuration.\n  //\n  // Nothing leaves this machine unless you turn the relay on AND list the\n  // providers you want shared. A plugin author cannot enable either.\n  \"relay\": {\n    \"enabled\": false,\n\n    \"host\": \"\",\n    \"port\": 8883,\n    \"tls\": true,\n    \"username\": \"\",\n    \"password\": \"\",\n\n    // Peers only exchange data within the same room.\n    \"room\": \"default\",\n\n    // Blank means: use your EuroScope connection callsign.\n    \"controller\": \"\",\n\n    // Provider ids you allow to publish. Run `.esb providers` to see them.\n    // Only fields their author marked syncable are eligible even then.\n    \"providers\": [],\n\n    \"publish_hz\": 4,\n    \"max_keys_per_provider\": 500\n  }\n}\n"

-- WriteDefault: the file, `none` where there is none, and whether it can be opened for writing.
unfoldable pub write_default : Bool → Option Bytes → Option Bytes × Bool
write_default opens (some text) = (some text, false)
write_default opens none = if opens then (some template, true) else (none, false)

unfoldable pub join_names : Bytes → List Bytes → Bytes
join_names allowed [] = allowed
join_names allowed (p ∷ ps) =
    join_names ((if is_empty allowed then [] else allowed ++ (b',' ∷ b' ' ∷ [])) ++ p) ps

-- Describe. The line is at most 511 bytes long, and a text in it ends at its first zero byte.
unfoldable pub describe : Config → Bytes
describe c =
    let allowed = join_names [] c.providers in
    if not c.enabled
    then codes "relay: off (nothing leaves this machine)"
    else take 511 (
        codes "relay: "
        ++ (c_str c.host
            ++ (b':'
                ∷ (decimal c.port
                    ++ (b' '
                        ∷ ((if c.tls then codes "TLS" else codes "PLAINTEXT")
                            ++ (codes " | room '"
                                ++ (c_str c.room
                                    ++ (codes "' | as '"
                                        ++ ((if is_empty c.controller
                                              then codes "<euroscope callsign>"
                                              else c_str c.controller)
                                            ++ (codes "' | "
                                                ++ (decimal c.publish_hz
                                                    ++ (codes " Hz | providers: "
                                                        ++ c_str (
                                                            if is_empty allowed
                                                            then codes "<none allowed>"
                                                            else allowed))))))))))))))
