-- ===== src/Driver/Options.antt =====
-- rust/src/connection/driver_options.rs and driver_tls_config.rs: the options of a driver, with builders.
-- `N` stands for tonic's TLS configuration; a timeout is in seconds.
use typedb_driver.Common.{ℕ, ◌*◌, Bool, true, false, Option, none, some, Bytes, Outcome, ok, ◌>>=◌}
use typedb_driver.Errors.{Error}

pub record DriverTlsConfig (N : Type 0) : Type 0 where
  pub network_config : Option N
  pub root_ca_path : Option Bytes

-- The parts of tonic's configuration: the native roots, and one certificate; and reading a file.
pub record Tls (A N : Type 0) : Type 0 where
  pub with_native_roots : N
  pub with_certificate : Bytes → N
  pub read_to_string : Bytes → Outcome (Error A) Bytes

pub record DriverOptions (N : Type 0) : Type 0 where
  pub tls_config : DriverTlsConfig N
  pub request_timeout : ℕ
  pub primary_failover_retries : ℕ

abbrev pub default_request_timeout : ℕ
default_request_timeout = 2 * 60 * 60

abbrev pub default_primary_failover_retries : ℕ
default_primary_failover_retries = 1

module _ {N : Type 0} where
  pub disabled : DriverTlsConfig N
  disabled = record { network_config = none; root_ca_path = none }

  unfoldable pub is_enabled : DriverTlsConfig N → Bool
  is_enabled c = elim c.network_config [ none ↦ false | some _ ↦ true ]

  pub tls_config : DriverOptions N → DriverTlsConfig N → DriverOptions N
  tls_config options c = record options { tls_config = c }

  pub request_timeout : DriverOptions N → ℕ → DriverOptions N
  request_timeout options seconds = record options { request_timeout = seconds }

  pub primary_failover_retries : DriverOptions N → ℕ → DriverOptions N
  primary_failover_retries options retries = record options { primary_failover_retries = retries }

module _ {A N : Type 0} (tls : Tls A N) where
  pub enabled_with_native_root_ca : DriverTlsConfig N
  enabled_with_native_root_ca = record {
    network_config = some tls.with_native_roots;
    root_ca_path = none;
  }

  pub enabled_with_root_ca : Bytes → Outcome (Error A) (DriverTlsConfig N)
  enabled_with_root_ca path = tls.read_to_string path >>= λ pem.
      ok (record { network_config = some (tls.with_certificate pem); root_ca_path = some path })

  -- `Default for DriverOptions`
  pub default : DriverOptions N
  unfolding enabled_with_native_root_ca
  default = record {
    tls_config = enabled_with_native_root_ca;
    request_timeout = default_request_timeout;
    primary_failover_retries = default_primary_failover_retries;
  }

  -- `DriverOptions::new`
  pub new : DriverTlsConfig N → DriverOptions N
  unfolding default
  new c = record default { tls_config = c }
