-- ===== src/Config/Tests.antt =====
-- bridge.json at concrete files, and the theorems at inputs that meet their hypotheses.
use euroscope_plugin_bridge.Prelude.{[], some, ◌≡◌, refl, bytes_eq}
use euroscope_plugin_bridge.Text.{
  Bytes, codes, strtoul, scan_signed, scan_behind, skip_sign, skip_blank, skip_prefix, scan_number,
  scan_digits, c_str,
}
use euroscope_plugin_bridge.Json.Parser.{parse}
use euroscope_plugin_bridge.Json.Tests.{whole_numbers, read_number}
use euroscope_plugin_bridge.Registry.{allows_provider}
use euroscope_plugin_bridge.Config.{
  default_config, relay_config, load, template, load_root, load_relay, check_host, read_relay,
  room_of, provider_names, clamp_hz, clamp_cap,
}
use euroscope_plugin_bridge.Json.{as_bool, as_string, at, has, find, bytes_lt}
use euroscope_plugin_bridge.Json.Double.{as_int}
use euroscope_plugin_bridge.Config.Consent.{
  relay_of, consents, allows_provider-load, IsInRange, load-IsInRange,
}

-- The file that is written on the first run means what no file means.
template_loads : load whole_numbers (some template) ≡ (default_config, [])
unfolding load load_root load_relay check_host read_relay room_of provider_names clamp_hz clamp_cap
    parse read_number strtoul scan_signed scan_behind skip_sign skip_blank skip_prefix scan_number
    scan_digits c_str as_bool as_int as_string at has find bytes_eq bytes_lt
template_loads = refl

abbrev shared : Bytes
shared = codes "{\"relay\": {\"enabled\": true, \"host\": \"h\", \"providers\": [\"cdm\"]}}"

allows_provider-load_example :
    allows_provider (relay_config (load whole_numbers (some shared)).0) (codes "cdm")
    ≡ consents (relay_of whole_numbers (some shared)) (codes "cdm")
allows_provider-load_example = allows_provider-load whole_numbers (some shared) (codes "cdm")

load-IsInRange_example : IsInRange (load whole_numbers (some shared)).0
load-IsInRange_example = load-IsInRange whole_numbers (some shared)
