-- ===== src/Proto/Tests.antt =====
-- Concrete values and documents, with times as numbers.
use typedb_driver.Common.{ℕ, ◌≡◌, refl, true, some, Option, Bytes, codes, ok, ◌>>=◌}
use typedb_driver.Common.Int.{pos}
use typedb_driver.Concept.{Value, Kind}
use typedb_driver.Concept.Tests.{machine}
use typedb_driver.Document.{Node, Leaf, document_into_json}
use typedb_driver.Proto.{Chrono, iana}
use typedb_driver.Proto.Values.{value_try_from_proto, value_into_proto, kind_try_from_proto}
use typedb_driver.Proto.Values.RoundTrip.{ChronoLaws, value_try_from_proto-value_into_proto}
use typedb_driver.Proto.Documents.{
  LeafProto, NodeProto, document_try_from_proto, node_try_from_proto, leaf_try_from_proto,
}
use typedb_driver.Proto.Documents.Printable.{IsDone, document_into_json-IsDone}

-- One time zone, and no offset but zero.
abbrev utc_name : Bytes → Option (Unit {0})
utc_name b = some tt

abbrev pub clock : Chrono machine
clock = record {
  Tz = Unit;
  FixedOffset = Unit;
  from_num_days_from_ce_opt = λ z. some z;
  num_days_from_ce = λ z. z;
  from_timestamp = λ s n. some (s, n);
  timestamp = λ t. t.0;
  nanosecond = λ t. t.1;
  tz_from_str = λ name. some tt;
  tz_name = λ z. codes "UTC";
  east_opt = λ z. some tt;
  west_opt = λ z. some tt;
  local_minus_utc = λ f. pos 0;
  from_utc_datetime = λ z t. t;
  naive_utc = λ d. d;
  timezone = λ d. iana tt;
}

pub clock-laws : ChronoLaws clock
clock-laws = record {
  days = λ d. refl;
  stamp = λ t. refl;
  named = λ z. refl;
  east = λ f n e. refl;
  west = λ f n e. refl;
  less_than_a_day = λ f n e. absurd (cc);
  zoned = λ d. refl;
}

abbrev moment : Value machine
moment = Value.datetime_tz (pos 5, 7)

value_try_from_proto-value_into_proto_example :
    (value_into_proto clock moment >>= value_try_from_proto {A = ℕ} clock true) ≡ ok moment
value_try_from_proto-value_into_proto_example =
    value_try_from_proto-value_into_proto {A = ℕ} clock-laws true moment tt

abbrev sent : Option (NodeProto machine)
sent = some (NodeProto.leaf (some (LeafProto.kind (pos 1))))

abbrev read : Option (Node machine)
read = some (Node.leaf (some (Leaf.kind Kind.relation)))

document_into_json-IsDone_example :
    IsDone (document_into_json {E = ℕ} (λ z. z) (λ v. codes "") read)
unfolding document_try_from_proto node_try_from_proto leaf_try_from_proto kind_try_from_proto
document_into_json-IsDone_example =
    document_into_json-IsDone {A = ℕ} ℕ clock true (λ z. z) (λ v. codes "") sent read refl
