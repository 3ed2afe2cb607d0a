-- ===== src/Lib.antt =====
-- The Rust driver of TypeDB, the parts that decide: how the driver keeps its connections to the
-- servers of a cluster and routes operations to them, how it translates requests, answers, values and
-- concepts to and from the protocol, how it sends and receives the parts of a transaction, an import
-- and an export, and the texts that it prints and reads.
--
-- The driver (rust/src/driver.rs) owns one server manager
-- (rust/src/connection/server/server_manager.rs). Databases, users and transactions are its clients:
-- each hands it a task, which it runs on a connection to the primary replica or to a server that the
-- caller names, and on a connection error it looks for a new primary. A task calls a method of a
-- server connection (rust/src/connection/server/server_connection.rs), which makes a request; a
-- dispatch (rust/src/connection/network/transmitter/rpc.rs) sends it through the network stub
-- (rust/src/connection/network/stub.rs), which renews the token and retries once, and the connection
-- takes the answer of the kind that it expects. A transaction, an import and an export have
-- transmitters of their own (rust/src/connection/network/transmitter/). The answers of a query hold
-- concepts (rust/src/concept/) that the protocol module (rust/src/connection/network/proto/) makes of
-- messages. Addresses (rust/src/common/address/) translate between the public and private addresses of
-- the servers; errors (rust/src/common/error.rs) are what the operations return.
--
-- Files:
--   Common         the shared helpers: tests on natural numbers, lists with a length over the native
--                  numbers, equality as an interface, outcomes with errors and panics, association
--                  lists for `HashMap` and lists for `HashSet`, integers
--   Digits         integers in decimal, as the standard library prints and reads them
--   Address        `Addresses` and `AddressTranslation`, over any type of addresses with an equality
--   Errors         the error enums with the codes that `error_messages!` gives them; `Status` has what a
--                  failed call becomes, with tonic's status as a record and the parser of an address
--                  as a parameter
--   Server         `Server`, `AvailableServer`, `ReplicationStatus`, `ServerRouting`
--   ServerManager  `ServerManager`: a method is a function from the manager and the outside world to an
--                  outcome and their next states. `Connections` has the table of connections
--                  (`refresh_replica_connections`, `execute_on`, `execute_on_any`), `Seek` the search
--                  for the primary, `Execute` the routed operations and the construction; the other
--                  children hold proofs. `Env` stands for `ServerConnection`, for sleeping and printing,
--                  and for the order in which a `HashSet` is iterated
--   Driver         the operations of the driver (rust/src/driver.rs), of databases and of users
--                  (`Databases`, `Users`; rust/src/database/, rust/src/user/): tasks of the server manager
--                  that make one call of a connection; closing, with the runtime. `Options` has the
--                  options (rust/src/connection/driver_options.rs, driver_tls_config.rs) and `Channel` the
--                  opening of a channel to an address (rust/src/connection/network/channel.rs,
--                  rust/src/common/address/address.rs)
--   Connection     `ServerConnection`: each method with the request that it makes and the answer that it
--                  takes, and the estimate of the latency. `Answers` has a service and a stub for it
--   Rpc            `Request` and `Response` of a call, their conversions (`Requests`, `Responses`), the
--                  dispatch of a request to a call of the stub (`Send`), and the renewal of the token
--                  (`Renewal`); the messages of the protocol are records of their fields, and the calls
--                  of the generated client are a parameter
--   Transmitter    the transmitter of a transaction (rust/src/connection/network/transmitter/): the
--                  dispatch loop, which sends requests in batches. `Collector` has the response
--                  collector, which hands responses to the callbacks of their requests, and closing;
--                  `Client` has the methods of `TransactionTransmitter` and the listening loop, as a run
--                  over the events that it meets
--   TransactionStream  the stream of a transaction (rust/src/connection/transaction_stream.rs): each
--                  method with the response that it expects
--   Import         the transmitter of an import and the batches of items that an import sends
--                  (rust/src/connection/network/transmitter/import.rs, rust/src/database/database.rs
--                  and database_manager.rs); `Dispatch` has its dispatch loop
--   Export         the transmitter of an export, and an export into two files, as a function of the file
--                  system (rust/src/database/database.rs, rust/src/database/migration.rs)
--   Migration      the iterator of the messages in an exported file (rust/src/database/migration.rs);
--                  the decoder of a length and of a message is a parameter. A length for which no
--                  vector can be allocated is a panic
--   Proto          the values, concepts, rows and documents of the protocol and their conversions
--                  (rust/src/connection/network/proto/concept.rs); chrono is a parameter. `Analyze` reads
--                  analyzed queries (proto/analyze.rs), with the numbers of the protocol's enums as a
--                  parameter, and `Analyze.Sent` describes the messages that carry them; `Transactions`
--                  has the requests and responses of a transaction (proto/message.rs, proto/common.rs)
--   Analyze        what the server finds out about a query (rust/src/analyze/)
--   Concept        `Concept`, its kinds and values, accessors and labels (rust/src/concept/)
--   Document       `ConceptDocument` and its conversion to JSON (rust/src/answer/concept_document.rs)
--   Given          the rows that a query is given (rust/src/given.rs)
--   Duration       `Duration`: `Display` and `FromStr` (rust/src/concept/value.rs)
--   Decimal        `Decimal`: its arithmetic (rust/src/concept/value.rs)
--   ConceptRow     `ConceptRow`: lookups and the involved conjunctions (rust/src/answer/concept_row.rs)
--   Json           `JSON`, its print and the escapes of strings (rust/src/answer/json.rs)
--
-- Locks are taken and released within a method's step, so a method is modelled as a sequence of steps
-- on one state; interleavings of several callers are not modelled. `RwLock` poisoning is left out. A
-- panic is an outcome of its own. A machine word keeps its wrap-around, and the parameter `checks` says
-- whether the build has overflow checks. A thread that locks a lock again that it holds is an error of
-- its own, `blocked`: where a read
-- guard is held for a whole match, its branches have it as an argument. The loops of the manager are structural on the number of attempts left. The loop
-- of the duration parser has the length of the text as its fuel, and every round consumes at least one
-- byte. The loops that fill the buffer for a message of a file have fuel for a read of each byte that
-- can be missing, and a read that does not end a loop adds at least one. The loop of an import
-- has a round for each item and one for the end.
--
-- Not modelled: tonic and the generated protocol types, the threads and channels of a
-- transaction around its loops, `Transaction`, which passes its calls to its stream, the tasks of the
-- asynchronous runtime, and the bindings for other languages.
pub mod Common
pub mod Digits
pub mod Address
pub mod Errors
pub mod Server
pub mod ServerManager
pub mod Duration
pub mod Transmitter
pub mod Json
pub mod ConceptRow
pub mod Decimal
pub mod Migration
pub mod Import
pub mod Export
pub mod Concept
pub mod Proto
pub mod Document
pub mod Given
pub mod Rpc
pub mod Connection
pub mod TransactionStream
pub mod Analyze
pub mod Driver
