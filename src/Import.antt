-- ===== src/Import.antt =====
-- How a database is imported from a file: the transmitter of an import
-- (rust/src/connection/network/transmitter/import.rs), its stream
-- (rust/src/connection/database/import_stream.rs), and `DatabaseManager::import_from_file`
-- (rust/src/database/database_manager.rs). `A` stands for the addresses of errors. The channel from the
-- dispatch loop to the server is open: a message that is sent is counted as received.
pub mod Batches
pub mod Dispatch
pub mod Refused
pub mod Tests
use typedb_driver.Common.{
  ℕ, zero, suc, ◌+◌, ◌≤◌, ◌≡◌, Bool, true, false, Option, none, some, List, [], ◌∷◌, ◌++◌, Bytes,
  length, leb, if◌then◌else◌, Outcome, ok, err, panic,
}
use typedb_driver.Errors.{
  Error, connection, migration, database_import_channel_is_closed,
  database_import_stream_unexpected_response,
}
use typedb_driver.Migration.{Codec, ProtoMessageIterator, next}

pub data DatabaseImportRequest (M : Type 0) : Type 0 where
  initial : Bytes → Bytes → DatabaseImportRequest M
  item_part : List M → DatabaseImportRequest M
  done : DatabaseImportRequest M

-- What `try_recv` gives on the channel of the result.
pub data Poll (A : Type 0) : Type 0 where
  empty disconnected : Poll A
  received : Outcome (Error A) (Unit {0}) → Poll A

-- The transmitter, with the queue to its dispatch loop and whether the loop still holds the other end;
-- what the next polls of the result will find, none after the last; and how the channel of the result
-- is resolved in the end, or that its sender is dropped.
pub record DatabaseImportTransmitter (A M : Type 0) : Type 0 where
  pub queue : List (DatabaseImportRequest M)
  pub queue_open : Bool
  pub polls : List (Poll A)
  pub resolution : Option (Outcome (Error A) (Unit {0}))

module _ {A : Type 0} where
  pub early_result : Poll A → Outcome (Error A) (Unit {0})
  early_result empty = ok tt
  early_result disconnected = err (connection database_import_channel_is_closed)
  early_result (received (ok u)) = err (connection database_import_stream_unexpected_response)
  early_result (received (err x)) = err x
  early_result (received panic) = panic

  -- A result that was received leaves a channel that is closed.
  abbrev pub after_poll : Poll A → List (Poll A) → List (Poll A)
  after_poll empty l = l
  after_poll disconnected l = disconnected ∷ l
  after_poll (received x) l = disconnected ∷ l

  abbrev pub poll : List (Poll A) → Poll A × List (Poll A)
  poll [] = (empty, [])
  poll (x ∷ l) = (x, after_poll x l)

module _ {A M : Type 0} where
  pub check_early_result :
      DatabaseImportTransmitter A M → Outcome (Error A) (Unit {0}) × DatabaseImportTransmitter A M
  unfolding early_result
  check_early_result t = (early_result ((poll t.polls).0), record t { polls = (poll t.polls).1 })

  -- `self.request_sink.send(req)`
  abbrev pub send :
      DatabaseImportRequest M
      → DatabaseImportTransmitter A M
      → Outcome (Error A) (Unit {0}) × DatabaseImportTransmitter A M
  send req t =
      if t.queue_open
      then (ok tt, record t { queue = t.queue ++ req ∷ [] })
      else (err (connection database_import_channel_is_closed), t)

  -- The operator `?`, where the transmitter is the state.
  abbrev pub and_then :
      Outcome (Error A) (Unit {0}) × DatabaseImportTransmitter A M
      → (DatabaseImportTransmitter A M
          → Outcome (Error A) (Unit {0}) × DatabaseImportTransmitter A M)
      → Outcome (Error A) (Unit {0}) × DatabaseImportTransmitter A M
  and_then (ok u, t) more = more t
  and_then (err x, t) more = (err x, t)
  and_then (panic, t) more = (panic, t)

  pub single :
      DatabaseImportRequest M
      → DatabaseImportTransmitter A M
      → Outcome (Error A) (Unit {0}) × DatabaseImportTransmitter A M
  unfolding check_early_result
  single req t = and_then (check_early_result t) (send req)

  pub wait_done : DatabaseImportTransmitter A M → Outcome (Error A) (Unit {0})
  wait_done t = elim t.resolution [
    | some result ↦ result
    | none ↦ err (connection database_import_channel_is_closed)
  ]

  pub send_items :
      List M
      → DatabaseImportTransmitter A M
      → Outcome (Error A) (Unit {0}) × DatabaseImportTransmitter A M
  unfolding single
  send_items items t = single (item_part items) t

  -- `DatabaseImportStream::done`
  pub finish :
      DatabaseImportTransmitter A M → Outcome (Error A) (Unit {0}) × DatabaseImportTransmitter A M
  unfolding single wait_done
  finish t = and_then (single DatabaseImportRequest.done t) (λ t. (wait_done t, t))

  -- What follows the loop: the last items, and the end of the stream.
  abbrev pub send_rest :
      List M
      → DatabaseImportTransmitter A M
      → Outcome (Error A) (Unit {0}) × DatabaseImportTransmitter A M
  send_rest [] t = finish t
  send_rest (m ∷ l) t = and_then (send_items (m ∷ l) t) finish

  -- The operator `?` within the loop.
  abbrev pub and_loop :
      Outcome (Error A) (Unit {0}) × DatabaseImportTransmitter A M
      → (DatabaseImportTransmitter A M
          → Option (Outcome (Error A) (Unit {0}) × DatabaseImportTransmitter A M))
      → Option (Outcome (Error A) (Unit {0}) × DatabaseImportTransmitter A M)
  and_loop (ok u, t) more = more t
  and_loop (err x, t) more = some (err x, t)
  and_loop (panic, t) more = some (panic, t)

abbrev pub item_batch_size : ℕ
item_batch_size = 250

module _ {A R M : Type 0} (codec : Codec M) (read : ℕ → R → Option Bytes × R) where
  -- The loop of `import_from_file` over the messages of the file, on fuel, with the items that are not
  -- sent yet.
  pub import_items :
      (fuel : ℕ)
      → ProtoMessageIterator R
      → (item_buffer : List M) → DatabaseImportTransmitter A M
      → Option (Outcome (Error A) (Unit {0}) × DatabaseImportTransmitter A M)
  unfolding next send_items finish
  import_items zero it item_buffer t = none
  import_items (suc fuel) it item_buffer t = elim (next codec read it) [
    | none ↦ none
    | some (none, it') ↦ some (send_rest item_buffer t)
    | some (some (err x), it') ↦ some (err (migration x), t)
    | some (some panic, it') ↦ some (panic, t)
    | some (some (ok item), it') ↦ elim (leb item_batch_size (length (item_buffer ++ item ∷ []))) [
      | true ↦ and_loop (send_items (item_buffer ++ item ∷ []) t) (import_items fuel it' [])
      | false ↦ import_items fuel it' (item_buffer ++ item ∷ []) t
    ]
  ]
