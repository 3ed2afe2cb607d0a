-- ===== src/Export.antt =====
-- How a database is exported to files: the listening loop of an export
-- (rust/src/connection/network/transmitter/export.rs), its stream
-- (rust/src/connection/database/export_stream.rs), the files (rust/src/database/migration.rs) and
-- `Database::export_to_file` (rust/src/database/database.rs). `A` stands for the addresses of errors.
-- Of the failures of the file system, those of opening a file are modelled; writing, flushing and removing
-- succeed. The channel of the export is open while the loop runs.
pub mod Cleanup
pub mod Contents
pub mod Tests
use typedb_driver.Common.{
  ℕ, ◌≡◌, Bool, true, false, not, ◌&&◌, Option, none, some, List, [], ◌∷◌, ◌++◌, Bytes, length,
  drop, if◌then◌else◌, Eq, ◌=?◌, bytes_eq, Outcome, ok, err, panic,
}
use typedb_driver.Common.Maps
use typedb_driver.Errors.{
  Error, connection, migration, cannot_create_export_file, cannot_export_to_the_same_file,
  database_export_stream_no_response,
}
use typedb_driver.Migration.{Codec}
use typedb_driver.Migration.Reading.{encode_length_delimited}

-- `DatabaseExportResponse`, and `DatabaseExportAnswer` after it.
pub data DatabaseExportAnswer (M : Type 0) : Type 0 where
  schema : Bytes → DatabaseExportAnswer M
  items : List M → DatabaseExportAnswer M
  done : DatabaseExportAnswer M

-- What the listening loop meets: the shutdown signal, or an item of the stream of the server, whose
-- message stands with the outcome of its conversion.
pub data Event (A M : Type 0) : Type 0 where
  shutdown : Event A M
  message : Outcome (Error A) (DatabaseExportAnswer M) → Event A M
  status : Error A → Event A M

-- The responses that the loop sends to the stream of the export, until its channel is dropped.
pub listen_loop :
    {A M : Type 0} → List (Event A M) → List (Outcome (Error A) (DatabaseExportAnswer M))
listen_loop [] = []
listen_loop (shutdown ∷ l) = []
listen_loop (message m ∷ l) = m ∷ listen_loop l
listen_loop (status x ∷ l) = err x ∷ []

-- What a call of the server gives.
abbrev pub Call : Type 0 → Type 0 → Type 0
Call A M = Outcome (Error A) (List (Outcome (Error A) (DatabaseExportAnswer M)))

-- What the server manager makes of the task: it runs it, each time with what a server gives, until it
-- returns the result of a run or an error of its own.
pub data Execution (A M : Type 0) : Type 0 where
  own_error : Error A → Execution A M
  last : Call A M → Execution A M
  again : Call A M → Execution A M → Execution A M

-- The files by their paths.
abbrev pub Files : Type 0
Files = List (Bytes × Bytes)

-- What was written to the two files so far.
pub record Written : Type 0 where
  pub schema_bytes : Bytes
  pub data_bytes : Bytes

module _ {A : Type 0} (denied : Bytes → Bool) (reason : Bytes → Bytes) where
  -- `create_new` makes a file, and fails where there is one; without it, the file must be there. `denied`
  -- says which paths the system refuses, and `reason` how it words a refusal.
  pub try_open_export_file : Bytes → Bool → Files → Outcome (Error A) (Unit {0}) × Files
  try_open_export_file path is_new files = elim (Maps.lookup path files) [
    | none ↦
        if is_new && not (denied path)
        then (ok tt, Maps.insert path [] files)
        else (err (migration (cannot_create_export_file path (reason path))), files)
    | some bytes ↦
        if is_new
        then (err (migration (cannot_create_export_file path (reason path))), files)
        else if denied path
        then (err (migration (cannot_create_export_file path (reason path))), files)
        else (ok tt, files)
  ]

-- Bytes written from the beginning of a file that is not truncated.
abbrev pub overwritten : Bytes → Bytes → Bytes
overwritten bytes old = bytes ++ drop (length bytes) old

pub overwrite : Bytes → Bytes → Files → Files
overwrite path bytes files = elim (Maps.lookup path files) [
  | none ↦ files
  | some old ↦ Maps.insert path (overwritten bytes old) files
]

module _ {M : Type 0} (codec : Codec M) where
  abbrev pub encode_items : List M → Bytes
  encode_items [] = []
  encode_items (m ∷ l) = encode_length_delimited codec m ++ encode_items l

  -- The loop over the answers: an end of the stream before `Done` is an error.
  pub export_answers :
      {A : Type 0}
      → List (Outcome (Error A) (DatabaseExportAnswer M))
      → Written
      → Outcome (Error A) (Unit {0}) × Written
  export_answers [] w = (err (connection database_export_stream_no_response), w)
  export_answers (err x ∷ l) w = (err x, w)
  export_answers (panic ∷ l) w = (panic, w)
  export_answers (ok done ∷ l) w = (ok tt, w)
  export_answers (ok (schema s) ∷ l) w =
      export_answers l (record w { schema_bytes = w.schema_bytes ++ s })
  export_answers (ok (items new) ∷ l) w =
      export_answers l (record w { data_bytes = w.data_bytes ++ encode_items new })

module _ {A : Type 0} where
  -- The operator `?`.
  abbrev pub and_then :
      Outcome (Error A) (Unit {0}) × Files
      → (Files → Outcome (Error A) (Unit {0}) × Files)
      → Outcome (Error A) (Unit {0}) × Files
  and_then (ok u, files) more = more files
  and_then (err x, files) more = (err x, files)
  and_then (panic, files) more = (panic, files)

  -- Both files are removed after an error.
  abbrev pub cleaned :
      (schema_path data_path : Bytes)
      → Outcome (Error A) (Unit {0}) × Files
      → Outcome (Error A) (Unit {0}) × Files
  cleaned schema_path data_path (ok u, files) = (ok u, files)
  cleaned schema_path data_path (err x, files) =
      (err x, Maps.remove data_path (Maps.remove schema_path files))
  cleaned schema_path data_path (panic, files) = (panic, files)

  abbrev pub or_remove :
      Bytes → Outcome (Error A) (Unit {0}) × Files → Outcome (Error A) (Unit {0}) × Files
  or_remove path (ok u, files) = (ok u, files)
  or_remove path (err x, files) = (err x, Maps.remove path files)
  or_remove path (panic, files) = (panic, files)

module _ {A M : Type 0} (denied : Bytes → Bool) (reason : Bytes → Bytes) (codec : Codec M)
    (schema_path data_path : Bytes) where
  abbrev pub written_out :
      Outcome (Error A) (Unit {0}) × Written → Files → Outcome (Error A) (Unit {0}) × Files
  written_out (x, w) files =
      (x, overwrite data_path w.data_bytes (overwrite schema_path w.schema_bytes files))

  abbrev pub answered : Call A M → Files → Outcome (Error A) (Unit {0}) × Files
  answered (ok l) files =
      written_out (export_answers codec l (record { schema_bytes = []; data_bytes = [] })) files
  answered (err x) files = (err x, files)
  answered panic files = (panic, files)

  -- The task, where the call of the server gives an error or a stream of answers.
  pub run_task : Call A M → Files → Outcome (Error A) (Unit {0}) × Files
  unfolding try_open_export_file export_answers overwrite
  run_task server files =
      and_then (try_open_export_file denied reason schema_path false files) (λ files.
        and_then (try_open_export_file denied reason data_path false files) (answered server))

  pub execute : Execution A M → Files → Outcome (Error A) (Unit {0}) × Files
  unfolding run_task
  execute (own_error x) files = (err x, files)
  execute (last server) files = run_task server files
  execute (again server more) files = execute more ((run_task server files).1)

  pub export_to_file : Execution A M → Files → Outcome (Error A) (Unit {0}) × Files
  unfolding try_open_export_file execute
  export_to_file execution files =
      if schema_path =? data_path
      then (err (migration cannot_export_to_the_same_file), files)
      else and_then (try_open_export_file denied reason schema_path true files) (λ files.
        and_then (or_remove schema_path (try_open_export_file denied reason data_path true files))
          (λ files. cleaned schema_path data_path (execute execution files)))
