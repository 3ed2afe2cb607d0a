-- ===== src/Driver/Channel.antt =====
-- rust/src/connection/network/channel.rs and rust/src/common/address/address.rs: an address, which wraps a
-- URI, and the channel that is opened to it. `Uri` has what the source uses of the http crate.
pub mod Schemes
use typedb_driver.Common.{
  Bool, true, false, not, Option, none, some, Bytes, codes, if◌then◌else◌, Outcome, ok, err, panic,
  ◌>>=◌, unwrap, Eq, ◌=?◌, bytes_eq,
}
use typedb_driver.Errors.{Error, connection, missing_port, scheme_tls_settings_mismatch}
use typedb_driver.Driver.Options.{DriverOptions, DriverTlsConfig, is_enabled}

-- The parts of a URI that `into_parts` gives; the others are `rest`.
pub record Parts (Rest : Type 0) : Type 0 where
  pub scheme : Option Bytes
  pub path_and_query : Option Bytes
  pub rest : Rest

pub record Uri (A : Type 0) : Type 1 where
  pub Value : Type 0
  pub Rest : Type 0
  pub parse : Bytes → Outcome (Error A) Value
  pub port : Value → Option Bytes
  pub scheme : Value → Option Bytes
  pub authority : Value → Option Bytes
  pub into_parts : Value → Parts Rest
  pub from_parts : Parts Rest → Option Value

abbrev pub default_path : Bytes
default_path = codes "/"

module _ {A : Type 0} (uri : Uri A) where
  -- `FromStr for Address`
  unfoldable pub from_str : Bytes → Outcome (Error A) uri.Value
  from_str address = uri.parse address >>= λ u. elim (uri.port u) [
    | none ↦ err (connection (missing_port address))
    | some p ↦ ok u
  ]

  -- `Display for Address`
  pub display : uri.Value → Outcome (Error A) Bytes
  display u = unwrap (uri.authority u)

  abbrev pub or_default_path : Option Bytes → Option Bytes
  or_default_path none = some default_path
  or_default_path (some p) = some p

  unfoldable pub with_scheme : Bytes → uri.Value → Outcome (Error A) uri.Value
  with_scheme scheme u =
      (let parts = uri.into_parts u in
        unwrap (
          uri.from_parts (record parts {
            scheme = some scheme;
            path_and_query = or_default_path parts.path_and_query;
          })))

  abbrev pub connection_scheme : Bool → Bytes
  connection_scheme true = codes "https"
  connection_scheme false = codes "http"

  -- The check of the address's scheme against the TLS settings.
  unfoldable pub check_scheme : Bool → uri.Value → Outcome (Error A) (Unit {0})
  check_scheme is_tls_enabled u = elim (uri.scheme u) [
    | none ↦ ok tt
    | some scheme ↦
        if scheme =? connection_scheme is_tls_enabled
        then ok tt
        else err (connection (scheme_tls_settings_mismatch scheme is_tls_enabled))
  ]

  -- The endpoint with the TLS configuration, which tonic may refuse.
  abbrev pub with_tls :
      {N : Type 0}
      → (accept : N → Outcome (Error A) (Unit {0})) → uri.Value
      → Option N
      → Outcome (Error A) (uri.Value × Option N)
  with_tls accept endpoint none = ok (endpoint, none)
  with_tls accept endpoint (some n) = accept n >>= λ _. ok (endpoint, some n)

  -- The endpoint that the channel is built for, and its TLS configuration.
  unfoldable pub open_callcred_channel :
      {N : Type 0}
      → (accept : N → Outcome (Error A) (Unit {0})) → uri.Value
      → DriverOptions N
      → Outcome (Error A) (uri.Value × Option N)
  unfolding check_scheme with_scheme is_enabled
  open_callcred_channel accept u options = check_scheme (is_enabled options.tls_config) u >>= λ _.
      with_scheme (connection_scheme (is_enabled options.tls_config)) u >>= λ endpoint.
      with_tls accept endpoint options.tls_config.network_config
