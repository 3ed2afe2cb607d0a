-- ===== src/Errors.antt =====
-- rust/src/common/error.rs: the error types, their codes and the printed form of a code.
pub mod Status
use typedb_driver.Common.{ℕ, Bool, Option, List, Bytes, nat_eq}
use typedb_driver.Common.Int.{ℤ}
use typedb_driver.Address.{Addresses}

pub data AnalyzeError : Type 0 where
  missing_response_field : Bytes → AnalyzeError
  unknown_enum_value : Bytes → ℤ → AnalyzeError

pub analyze_error_code : AnalyzeError → ℕ
analyze_error_code (AnalyzeError.missing_response_field _) = 1
analyze_error_code (AnalyzeError.unknown_enum_value _ _) = 2

pub data ConnectionError (A : Type 0) : Type 0 where
  rpc_method_unavailable : Bytes → ConnectionError A
  server_connection_failed : Addresses A → Addresses A → Bytes → ConnectionError A
  server_connection_failed_with_error : Bytes → ConnectionError A
  server_connection_failed_networking : Bytes → ConnectionError A
  server_connection_is_closed : ConnectionError A
  server_connection_is_closed_unexpectedly : ConnectionError A
  transaction_is_closed : ConnectionError A
  transaction_is_closed_with_errors : Bytes → ConnectionError A
  missing_response_field : Bytes → ConnectionError A
  unknown_request_id : Bytes → ConnectionError A
  unexpected_response : Bytes → ConnectionError A
  query_stream_no_response : ConnectionError A
  unexpected_query_type : ℤ → ConnectionError A
  cluster_server_not_primary : Option A → ConnectionError A
  unknown_direct_server_routing : A → Addresses A → ConnectionError A
  token_credential_invalid : ConnectionError A
  encryption_settings_mismatch : ConnectionError A
  ssl_certificate_not_validated : ConnectionError A
  broken_pipe : ConnectionError A
  connection_refused_networking : ConnectionError A
  missing_port : Bytes → ConnectionError A
  unexpected_server_replication_role : ℤ → ConnectionError A
  value_time_zone_name_not_recognised : Bytes → ConnectionError A
  value_time_zone_offset_not_recognised : ℤ → ConnectionError A
  value_struct_not_implemented : ConnectionError A
  lists_not_implemented : ConnectionError A
  unexpected_kind : ℤ → ConnectionError A
  unexpected_connection_close : ConnectionError A
  database_import_channel_is_closed : ConnectionError A
  database_import_stream_unexpected_response : ConnectionError A
  database_export_channel_is_closed : ConnectionError A
  database_export_stream_no_response : ConnectionError A
  absent_tls_config_for_tls_connection : ConnectionError A
  server_is_not_initialised : ConnectionError A
  analyze_no_response : ConnectionError A
  no_primary_server : ConnectionError A
  scheme_tls_settings_mismatch : Bytes → Bool → ConnectionError A
  request_timeout : Bytes → ConnectionError A

pub connection_error_code : {A : Type 0} → ConnectionError A → ℕ
connection_error_code (ConnectionError.rpc_method_unavailable _) = 1
connection_error_code (ConnectionError.server_connection_failed _ _ _) = 2
connection_error_code (ConnectionError.server_connection_failed_with_error _) = 3
connection_error_code (ConnectionError.server_connection_failed_networking _) = 4
connection_error_code ConnectionError.server_connection_is_closed = 5
connection_error_code ConnectionError.server_connection_is_closed_unexpectedly = 6
connection_error_code ConnectionError.transaction_is_closed = 7
connection_error_code (ConnectionError.transaction_is_closed_with_errors _) = 8
connection_error_code (ConnectionError.missing_response_field _) = 9
connection_error_code (ConnectionError.unknown_request_id _) = 10
connection_error_code (ConnectionError.unexpected_response _) = 11
connection_error_code ConnectionError.query_stream_no_response = 12
connection_error_code (ConnectionError.unexpected_query_type _) = 13
connection_error_code (ConnectionError.cluster_server_not_primary _) = 14
connection_error_code (ConnectionError.unknown_direct_server_routing _ _) = 15
connection_error_code ConnectionError.token_credential_invalid = 16
connection_error_code ConnectionError.encryption_settings_mismatch = 17
connection_error_code ConnectionError.ssl_certificate_not_validated = 18
connection_error_code ConnectionError.broken_pipe = 19
connection_error_code ConnectionError.connection_refused_networking = 20
connection_error_code (ConnectionError.missing_port _) = 21
connection_error_code (ConnectionError.unexpected_server_replication_role _) = 22
connection_error_code (ConnectionError.value_time_zone_name_not_recognised _) = 23
connection_error_code (ConnectionError.value_time_zone_offset_not_recognised _) = 24
connection_error_code ConnectionError.value_struct_not_implemented = 25
connection_error_code ConnectionError.lists_not_implemented = 26
connection_error_code (ConnectionError.unexpected_kind _) = 27
connection_error_code ConnectionError.unexpected_connection_close = 28
connection_error_code ConnectionError.database_import_channel_is_closed = 29
connection_error_code ConnectionError.database_import_stream_unexpected_response = 30
connection_error_code ConnectionError.database_export_channel_is_closed = 31
connection_error_code ConnectionError.database_export_stream_no_response = 32
connection_error_code ConnectionError.absent_tls_config_for_tls_connection = 33
connection_error_code ConnectionError.server_is_not_initialised = 34
connection_error_code ConnectionError.analyze_no_response = 35
connection_error_code ConnectionError.no_primary_server = 37
connection_error_code (ConnectionError.scheme_tls_settings_mismatch _ _) = 38
connection_error_code (ConnectionError.request_timeout _) = 39

pub data ConceptError : Type 0 where
  unavailable_row_variable : Bytes → ConceptError
  unavailable_row_index : ℕ → ConceptError
  error_parsing_decimal : Bytes → Bytes → ConceptError

pub concept_error_code : ConceptError → ℕ
concept_error_code (ConceptError.unavailable_row_variable _) = 1
concept_error_code (ConceptError.unavailable_row_index _) = 2
concept_error_code (ConceptError.error_parsing_decimal _ _) = 3

pub data MigrationError : Type 0 where
  cannot_open_import_file : Bytes → Bytes → MigrationError
  cannot_create_export_file : Bytes → Bytes → MigrationError
  cannot_export_to_the_same_file : MigrationError
  cannot_decode_imported_concept : MigrationError
  cannot_decode_imported_concept_length : MigrationError
  cannot_encode_exported_concept : MigrationError

pub migration_error_code : MigrationError → ℕ
migration_error_code (MigrationError.cannot_open_import_file _ _) = 1
migration_error_code (MigrationError.cannot_create_export_file _ _) = 2
migration_error_code MigrationError.cannot_export_to_the_same_file = 3
migration_error_code MigrationError.cannot_decode_imported_concept = 4
migration_error_code MigrationError.cannot_decode_imported_concept_length = 5
migration_error_code MigrationError.cannot_encode_exported_concept = 6

pub data InternalError : Type 0 where
  recv_error : InternalError
  send_error : InternalError
  unexpected_request_type : Bytes → InternalError
  unexpected_response_type : Bytes → InternalError
  unimplemented : Bytes → InternalError

pub internal_error_code : InternalError → ℕ
internal_error_code InternalError.recv_error = 1
internal_error_code InternalError.send_error = 2
internal_error_code (InternalError.unexpected_request_type _) = 3
internal_error_code (InternalError.unexpected_response_type _) = 4
internal_error_code (InternalError.unimplemented _) = 5

pub data QueryError : Type 0 where
  given_row_index_out_of_bounds : ℕ → ℕ → QueryError
  given_row_unknown_variable : Bytes → QueryError
  given_rows_size_mismatch : ℕ → ℕ → QueryError
  given_rows_received_type : Bytes → QueryError
  invalid_type_to_given_row : QueryError

pub query_error_code : QueryError → ℕ
query_error_code (QueryError.given_row_index_out_of_bounds _ _) = 1
query_error_code (QueryError.given_row_unknown_variable _) = 2
query_error_code (QueryError.given_rows_size_mismatch _ _) = 3
query_error_code (QueryError.given_rows_received_type _) = 4
query_error_code QueryError.invalid_type_to_given_row = 5

-- `ServerError`, an error that the server reports.
pub record ServerError : Type 0 where
  pub error_code : Bytes
  pub error_domain : Bytes
  pub message : Bytes
  pub stack_trace : List Bytes

pub data Error (A : Type 0) : Type 0 where
  analyze : AnalyzeError → Error A
  connection : ConnectionError A → Error A
  concept : ConceptError → Error A
  migration : MigrationError → Error A
  internal : InternalError → Error A
  query : QueryError → Error A
  server : ServerError → Error A
  other : Bytes → Error A
  ffi : Bytes → Error A
