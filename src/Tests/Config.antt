-- ===== src/Tests/Config.antt =====
-- config.rs: merges and validations of sample configurations.
use esesaetsch.Base.{
  Bool, true, false, none, some, List, [], ◌∷◌, String, ok, err, ◌≡◌, refl, ◌↔◌, ◌>>=◌, ◌>>◌,
}
use esesaetsch.Std.Ip.{IpAddr, v4}
use esesaetsch.Error.{invalid_bind_address, invalid_host_key_path, cert_enabled_without_trusted_ca}
use esesaetsch.Config.{Config, Cli, TomlConfig, ServerConfig, defaults, from_sources, validate}
use esesaetsch.Config.Merge.{address, of_toml, merged, from_sources_lem}
use esesaetsch.Config.Validate.{IsValid, validate_iff}
use esesaetsch.Tests.Samples.{decode_sample, alice_config, ca_config, no_flags, empty_toml}

abbrev port_flags : Cli
port_flags = record no_flags { port = some 2200; debug = true }

abbrev bind_toml : TomlConfig
bind_toml = record empty_toml {
  server = record { bind = some "10.0.0.1"; port = some 2300; host_key = some "/etc/key" };
}

merge_tests :
    (from_sources no_flags none ≡ ok defaults)
    × (from_sources port_flags (some bind_toml)
        ≡ ok (record defaults {
          bind = record { ip = v4 10 0 0 1; port = 2200 };
          host_key = "/etc/key";
          logging_level = "debug";
        }))
    × (from_sources (record no_flags { bind = some "here" }) (some bind_toml)
        ≡ err (invalid_bind_address "here"))
unfolding from_sources esesaetsch.Std.Ip.ip_from_str
merge_tests = (refl, refl, refl)

from_sources_lem_example : from_sources port_flags (some bind_toml) ≡ (do
  toml_ip ← address (of_toml (λ t. t.server.bind) (some bind_toml))
  cli_ip ← address port_flags.bind
  ok (merged port_flags (some bind_toml) cli_ip toml_ip))
from_sources_lem_example = from_sources_lem port_flags (some bind_toml)

validate_tests :
    (validate decode_sample ca_config ≡ ok tt)
    × (validate decode_sample (record ca_config { ca_trusted = [] })
        ≡ err cert_enabled_without_trusted_ca)
    × (validate decode_sample (record alice_config { host_key = "a/../b" })
        ≡ err (invalid_host_key_path "a/../b"))
    × (validate decode_sample (record alice_config { bind = record { ip = v4 0 0 0 0; port = 0 } })
        ≡ ok tt)
unfolding validate esesaetsch.Config.check_users esesaetsch.Config.check_keys
    esesaetsch.Config.parse_pubkey_blob esesaetsch.Base.split_whitespace
    esesaetsch.Std.Path.has_parent_dir
validate_tests = (refl, refl, refl, refl)

validate_iff_example : (validate decode_sample ca_config ≡ ok tt) ↔ IsValid decode_sample ca_config
validate_iff_example = validate_iff decode_sample ca_config
