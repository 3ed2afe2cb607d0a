-- ===== src/Errors/Status/Tests.antt =====
-- Concrete statuses.
use typedb_driver.Common.{◌≡◌, refl, Option, none, some, [], ◌∷◌, Bytes, codes, nat_eq, bytes_eq}
use typedb_driver.Errors.{connection, cluster_server_not_primary, connection_refused_networking}
use typedb_driver.Errors.Status.{
  unavailable, Status, concat_source_messages, try_extracting_connection_error_from_info,
  try_extracting_connection_error_message, parse_unavailable, from_code, from_status,
}
use typedb_driver.Errors.Status.Causes.{IsReport}
use typedb_driver.Errors.Status.Classes.{from_status-IsReport}

abbrev parse_address : Bytes → Option Bytes
parse_address s = some s

abbrev not_primary : Status
not_primary = record {
  details = some (record {
    bad_request = none;
    error_info = some (record {
      reason = codes "CSV9";
      domain = codes "cluster";
      metadata = (codes "redirect_address", codes "b:1") ∷ [];
    });
    stack_entries = none;
  });
  code = unavailable;
  message = codes "not primary";
  sources = [];
}

redirected :
    from_status parse_address not_primary
    ≡ connection (cluster_server_not_primary (some (codes "b:1")))
unfolding from_status try_extracting_connection_error_message
    try_extracting_connection_error_from_info concat_source_messages
redirected = refl

abbrev refused : Status
refused = record {
  details = none;
  code = unavailable;
  message = codes "tcp: Connection refused";
  sources = [];
}

refused_error : from_status parse_address refused ≡ connection connection_refused_networking
unfolding from_status from_code parse_unavailable
refused_error = refl

from_status-IsReport_example :
    IsReport parse_address not_primary (from_status parse_address not_primary)
from_status-IsReport_example = from_status-IsReport parse_address not_primary
