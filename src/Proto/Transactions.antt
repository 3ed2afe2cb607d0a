-- ===== src/Proto/Transactions.antt =====
-- The requests of a transaction as messages (rust/src/connection/network/proto/message.rs), and their
-- options (proto/common.rs, rust/src/common/transaction_options.rs and query_options.rs). A duration is
-- its length in nanoseconds, and a request id is its bytes.
pub mod Messages
pub mod Responses
use Prim.Native.Nat.{◌/◌, ◌%◌, ◌^◌}
use mathlib.Core.Option
use typedb_driver.Common.{
  ℕ, Bool, Option, none, some, List, [], ◌∷◌, Bytes, Outcome, ok, err, panic, ◌>>=◌,
}
use typedb_driver.Errors.{Error}
use typedb_driver.Concept.{External}
use typedb_driver.Given.{GivenRowEntry, GivenRows}
use typedb_driver.Proto.{Chrono, InstanceProto, AttributeProto, ValueProto}
use typedb_driver.Proto.Values.{value_into_proto}
use typedb_driver.Proto.Concepts.{entity_into_proto, relation_into_proto, attribute_into_proto}

pub data TransactionType : Type 0 where
  read write schema : TransactionType

pub record TransactionOptions : Type 0 where
  pub transaction_timeout : Option ℕ
  pub schema_lock_acquire_timeout : Option ℕ

pub record QueryOptions : Type 0 where
  pub include_instance_types : Option Bool
  pub prefetch_size : Option ℕ
  pub include_query_structure : Option Bool

pub record QueryRequest (X : External) : Type 0 where
  pub query : Bytes
  pub options : QueryOptions
  pub rows : Option (GivenRows X)

pub data TransactionRequest (X : External) : Type 0 where
  opening :
      (database : Bytes) (transaction_type : TransactionType) (options : TransactionOptions)
      (network_latency : ℕ)
      → TransactionRequest X
  commit rollback : TransactionRequest X
  analyze : (query : Bytes) → TransactionRequest X
  query : QueryRequest X → TransactionRequest X
  stream : (request_id : Bytes) → TransactionRequest X

pub record TransactionOptionsProto : Type 0 where
  pub parallel : Option Bool
  pub transaction_timeout_millis : Option ℕ
  pub schema_lock_acquire_timeout_millis : Option ℕ

pub record QueryOptionsProto : Type 0 where
  pub include_instance_types : Option Bool
  pub prefetch_size : Option ℕ
  pub include_query_structure : Option Bool

-- A thing is one of the messages of instances.
pub data ThingProto (X : External) : Type 0 where
  entity relation : InstanceProto → ThingProto X
  attribute : AttributeProto X → ThingProto X

pub data GivenEntryProto (X : External) : Type 0 where
  empty : GivenEntryProto X
  value : ValueProto X → GivenEntryProto X
  thing : Option (ThingProto X) → GivenEntryProto X

pub record GivenRowsProto (X : External) : Type 0 where
  pub variables : List Bytes
  pub rows : List (List (Option (GivenEntryProto X)))

pub record QueryReqProto (X : External) : Type 0 where
  pub query : Bytes
  pub options : Option QueryOptionsProto
  pub given : Option (GivenRowsProto X)

-- The field `req`; the type of a transaction is a value of the enum of the protocol. An analysis has no
-- options.
pub data ReqProto (X : External) (TypeProto : Type 0) : Type 0 where
  open_req :
      (database : Bytes) (type : TypeProto) (options : Option TransactionOptionsProto)
      (network_latency_millis : ℕ)
      → ReqProto X TypeProto
  commit_req rollback_req stream_req : ReqProto X TypeProto
  analyze_req : (query : Bytes) → ReqProto X TypeProto
  query_req : QueryReqProto X → ReqProto X TypeProto

pub record TransactionReqProto (X : External) (TypeProto : Type 0) : Type 0 where
  pub req_id : Bytes
  pub req : Option (ReqProto X TypeProto)

-- The number of a type, from the protocol's enum.
pub record TransactionTypes : Type 1 where
  pub Type_ : Type 0
  pub read : Type_
  pub write : Type_
  pub schema : Type_

unfoldable pub transaction_type_into_proto :
    (types : TransactionTypes) → TransactionType → types.Type_
transaction_type_into_proto types TransactionType.read = types.read
transaction_type_into_proto types TransactionType.write = types.write
transaction_type_into_proto types TransactionType.schema = types.schema

-- `as_millis() as u64`
unfoldable pub millis : ℕ → ℕ
millis nanos = (nanos / 1_000_000) % 2 ^ 64

unfoldable pub transaction_options_into_proto : TransactionOptions → TransactionOptionsProto
unfolding millis
transaction_options_into_proto options = record {
  parallel = none;
  transaction_timeout_millis = Option.map millis options.transaction_timeout;
  schema_lock_acquire_timeout_millis = Option.map millis options.schema_lock_acquire_timeout;
}

abbrev pub query_options_into_proto : QueryOptions → QueryOptionsProto
query_options_into_proto options = record {
  include_instance_types = options.include_instance_types;
  prefetch_size = options.prefetch_size;
  include_query_structure = options.include_query_structure;
}

-- `iter().map(..).collect()`, of a conversion that can panic.
unfoldable pub collected : {E B C : Type 0} → (B → Outcome E C) → List B → Outcome E (List C)
collected f [] = ok []
collected f (x ∷ l) = (let rest = collected f l in f x >>= λ y. rest >>= λ ys. ok (y ∷ ys))

module _ {A : Type 0} {X : External} (chrono : Chrono X) where
  unfoldable pub given_entry_into_proto :
      GivenRowEntry X → Outcome (Error A) (Option (GivenEntryProto X))
  unfolding value_into_proto
  given_entry_into_proto GivenRowEntry.empty = ok (some GivenEntryProto.empty)
  given_entry_into_proto (GivenRowEntry.value v) =
      value_into_proto chrono v >>= λ v. ok (some (GivenEntryProto.value v))
  given_entry_into_proto (GivenRowEntry.entity e) =
      ok (some (GivenEntryProto.thing (some (ThingProto.entity (entity_into_proto e)))))
  given_entry_into_proto (GivenRowEntry.relation r) =
      ok (some (GivenEntryProto.thing (some (ThingProto.relation (relation_into_proto r)))))
  given_entry_into_proto (GivenRowEntry.attribute a) =
      ok (some (GivenEntryProto.thing (some (ThingProto.attribute (attribute_into_proto a)))))

  abbrev pub given_row_into_proto :
      List (GivenRowEntry X) → Outcome (Error A) (List (Option (GivenEntryProto X)))
  given_row_into_proto row = collected given_entry_into_proto row

  unfoldable pub given_rows_into_proto : GivenRows X → Outcome (Error A) (GivenRowsProto X)
  unfolding collected given_entry_into_proto
  given_rows_into_proto given = collected given_row_into_proto given.rows >>= λ rows.
      ok (record { variables = given.header.variables; rows = rows })

  abbrev pub given_into_proto : Option (GivenRows X) → Outcome (Error A) (Option (GivenRowsProto X))
  given_into_proto none = ok none
  given_into_proto (some rows) = given_rows_into_proto rows >>= λ rows. ok (some rows)

  unfoldable pub query_request_into_proto : QueryRequest X → Outcome (Error A) (QueryReqProto X)
  unfolding given_rows_into_proto
  query_request_into_proto request = given_into_proto request.rows >>= λ given. ok (record {
    query = request.query;
    options = some (query_options_into_proto request.options);
    given = given;
  })

  -- The request of each kind, and the id of the one that a signal of a stream is for. `generated` is the
  -- id that `RequestID::generate` would give.
  unfoldable pub transaction_request_into_proto :
      (types : TransactionTypes)
      → (generated : Bytes) → TransactionRequest X
      → Outcome (Error A) (TransactionReqProto X types.Type_)
  unfolding query_request_into_proto transaction_type_into_proto transaction_options_into_proto
      millis
  transaction_request_into_proto types generated
        (TransactionRequest.opening database type options latency) =
      ok (record {
        req_id = generated;
        req = some (
            ReqProto.open_req database (transaction_type_into_proto types type)
              (some (transaction_options_into_proto options)) (millis latency));
      })
  transaction_request_into_proto types generated TransactionRequest.commit =
      ok (record { req_id = generated; req = some ReqProto.commit_req })
  transaction_request_into_proto types generated TransactionRequest.rollback =
      ok (record { req_id = generated; req = some ReqProto.rollback_req })
  transaction_request_into_proto types generated (TransactionRequest.analyze text) =
      ok (record { req_id = generated; req = some (ReqProto.analyze_req text) })
  transaction_request_into_proto types generated (TransactionRequest.query request) =
      query_request_into_proto request >>= λ message.
      ok (record { req_id = generated; req = some (ReqProto.query_req message) })
  transaction_request_into_proto types generated (TransactionRequest.stream request_id) =
      ok (record { req_id = request_id; req = some ReqProto.stream_req })
