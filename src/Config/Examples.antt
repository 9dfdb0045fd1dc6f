-- ===== src/Config/Examples.antt =====
-- The laws of the configuration at concrete values.
use udp2raw_ng.Prelude.{ℕ, ◌≤◌, ◌≡◌, ◌↔◌, List, ok, length, replicate}
use udp2raw_ng.Config.{validate, client_config, Psk, new_psk}
use udp2raw_ng.Config.Laws.{IsValid, validate-ok_iff, new_psk-ok_iff}

validate-ok_iff_example : (validate client_config ≡ ok tt) ↔ IsValid client_config
validate-ok_iff_example = validate-ok_iff client_config

abbrev secret : List ℕ
secret = replicate 32 7

abbrev key : Psk
key = record { bytes = secret }

new_psk-ok_iff_example :
    (new_psk secret ≡ ok key) ↔ (32 ≤ length secret) × (length secret ≤ 1024) × (key ≡ key)
new_psk-ok_iff_example = new_psk-ok_iff secret key
