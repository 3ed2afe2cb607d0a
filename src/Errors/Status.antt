-- ===== src/Errors/Status.antt =====
-- rust/src/common/error.rs, `From<Status> for Error`: what the driver makes of a failed call. `Status`
-- stands for the status of tonic, with the details that tonic_types reads from it.
pub mod Causes
pub mod Phrases
pub mod Classes
pub mod Tests
use typedb_driver.Common.{
  ℕ, ◌+◌, ◌≡◌, refl, ◌≢◌, ◌⊎◌, inl, inr, Bool, true, false, ◌&&◌, ◌||◌, Option, none, some, List,
  [], ◌∷◌, ◌++◌, arith, if◌then◌else◌, Bool-cases, Option-cases, Bytes, codes, Eq, ◌=?◌, nat_eq,
  bytes_eq,
}
use typedb_driver.Common.Maps
use typedb_driver.Common.Maps.{any}
use typedb_driver.Errors.{
  ConnectionError, rpc_method_unavailable, server_connection_failed_with_error,
  server_connection_failed_networking, server_connection_is_closed_unexpectedly,
  cluster_server_not_primary, token_credential_invalid, encryption_settings_mismatch,
  ssl_certificate_not_validated, broken_pipe, connection_refused_networking,
  server_is_not_initialised, ServerError, Error, connection, server, other,
}

pub record ErrorInfo : Type 0 where
  pub reason : Bytes
  pub domain : Bytes
  pub metadata : List (Bytes × Bytes)

-- The details of a status; a bad request is given by its print.
pub record ErrorDetails : Type 0 where
  pub bad_request : Option Bytes
  pub error_info : Option ErrorInfo
  pub stack_entries : Option (List Bytes)

pub data Code : Type 0 where
  unavailable unknown failed_precondition already_exists unimplemented other_code : Code

-- `details` is absent if the status's details do not decode; `sources` are the prints of its sources.
pub record Status : Type 0 where
  pub details : Option ErrorDetails
  pub code : Code
  pub message : Bytes
  pub sources : List Bytes

-- `starts_with` and `contains` of texts.
pub starts_with : Bytes → Bytes → Bool
starts_with [] s = true
starts_with (x ∷ p) [] = false
starts_with (x ∷ p) (y ∷ s) = (x =? y) && starts_with p s

pub has_text : Bytes → Bytes → Bool
unfolding starts_with
has_text p [] = starts_with p []
has_text p (y ∷ s) = starts_with p (y ∷ s) || has_text p s

pub is_rst_stream : Bytes → Bool
unfolding has_text
is_rst_stream message = has_text (codes "Received Rst Stream") message

pub is_reading_body_from_connection_error : Bytes → Bool
unfolding has_text
is_reading_body_from_connection_error message =
    has_text (codes "error reading a body from connection") message

pub is_tcp_connect_error : Bytes → Bool
unfolding has_text
is_tcp_connect_error message = has_text (codes "tcp connect error") message

pub is_connection_error : Bytes → Bool
unfolding has_text
is_connection_error message = has_text (codes "connection error") message

abbrev pub one_of : List Bytes → Bytes → Bool
one_of l s = any (λ x. x =? s) l

pub append_sources : List Bytes → Bytes
append_sources [] = []
append_sources (x ∷ l) = codes ": " ++ (x ++ append_sources l)

pub concat_source_messages : Status → Bytes
unfolding append_sources
concat_source_messages s = s.message ++ append_sources s.sources

abbrev pub get_trace : Option (List Bytes) → List Bytes
get_trace none = []
get_trace (some l) = l

module _ {A : Type 0} (parse_address : Bytes → Option A) where
  abbrev pub parse_redirect : Option Bytes → Option A
  parse_redirect none = none
  parse_redirect (some s) = parse_address s

  pub try_extracting_connection_error_from_info : ErrorInfo → Option (ConnectionError A)
  try_extracting_connection_error_from_info info =
      if one_of (codes "AUT1" ∷ codes "AUT2" ∷ codes "AUT3" ∷ []) info.reason
      then some token_credential_invalid
      else if one_of (codes "SRV14" ∷ codes "RFT1" ∷ codes "CSV7" ∷ []) info.reason
      then some server_is_not_initialised
      else if one_of (codes "CSV8" ∷ []) info.reason
      then some (cluster_server_not_primary none)
      else if one_of (codes "CSV9" ∷ []) info.reason
      then some (
          cluster_server_not_primary
            (parse_redirect (Maps.lookup (codes "redirect_address") info.metadata)))
      else none

module _ {A : Type 0} where
  pub try_extracting_connection_error_message : Bytes → Option (ConnectionError A)
  unfolding is_rst_stream is_reading_body_from_connection_error is_tcp_connect_error
      is_connection_error
  try_extracting_connection_error_message message =
      if is_rst_stream message || is_tcp_connect_error message || is_connection_error message
      then some (server_connection_failed_networking message)
      else if is_reading_body_from_connection_error message
      then some server_connection_is_closed_unexpectedly
      else none

  pub parse_unavailable : Bytes → Error A
  unfolding has_text
  parse_unavailable message =
      if message =? codes "broken pipe"
      then connection broken_pipe
      else if has_text (codes "received corrupt message") message
      then connection encryption_settings_mismatch
      else if has_text (codes "UnknownIssuer") message
      then connection ssl_certificate_not_validated
      else if has_text (codes "Connection refused") message
      then connection connection_refused_networking
      else connection (server_connection_failed_networking message)

  -- A connection error if there is one, and else the other error.
  abbrev pub or_else : Option (ConnectionError A) → Error A → Error A
  or_else (some x) z = connection x
  or_else none z = z

  -- A status whose details do not decode.
  pub from_code : Code → Status → Error A
  unfolding parse_unavailable try_extracting_connection_error_message concat_source_messages
  from_code unavailable s = parse_unavailable s.message
  from_code unknown s = connection (server_connection_failed_networking s.message)
  from_code failed_precondition s = connection (server_connection_failed_networking s.message)
  from_code already_exists s = connection (server_connection_failed_networking s.message)
  from_code unimplemented s = connection (rpc_method_unavailable s.message)
  from_code other_code s =
      or_else (try_extracting_connection_error_message (concat_source_messages s))
        (other (concat_source_messages s))

abbrev pub reported : ErrorInfo → ErrorDetails → Status → ServerError
reported info details s = record {
  error_code = info.reason;
  error_domain = info.domain;
  message = s.message;
  stack_trace = get_trace details.stack_entries;
}

module _ {A : Type 0} (parse_address : Bytes → Option A) where
  abbrev pub from_info : Option ErrorInfo → ErrorDetails → Status → Error A
  from_info none details s = other (concat_source_messages s)
  from_info (some info) details s =
      or_else (try_extracting_connection_error_from_info parse_address info)
        (server (reported info details s))

  abbrev pub from_details : Option Bytes → ErrorDetails → Status → Error A
  from_details (some bad_request) details s =
      connection (server_connection_failed_with_error bad_request)
  from_details none details s =
      or_else (try_extracting_connection_error_message (concat_source_messages s))
        (from_info details.error_info details s)

  abbrev pub from_decoded : Option ErrorDetails → Status → Error A
  from_decoded none s = from_code s.code s
  from_decoded (some details) s = from_details details.bad_request details s

  pub from_status : Status → Error A
  from_status s = from_decoded s.details s
