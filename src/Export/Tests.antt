-- ===== src/Export/Tests.antt =====
-- Concrete exports, and an import of what they wrote.
use typedb_driver.Common.{
  ℕ, ◌≡◌, refl, false, true, Bool, some, List, [], ◌∷◌, ◌++◌, map, Bytes, codes, ok, err, bytes_eq,
}
use typedb_driver.Common.Maps
use typedb_driver.Errors.{connection, database_export_stream_no_response}
use typedb_driver.Migration.{ProtoMessageIterator}
use typedb_driver.Import.{
  DatabaseImportTransmitter, item_part, done, import_items, item_batch_size, wait_done,
}
use typedb_driver.Import.Batches.{IsBatches, with_requests}
use typedb_driver.Import.Tests.{byte_codec, byte_codec-IsCodec, read_byte, read_byte-IsReader}
use typedb_driver.Export.{
  DatabaseExportAnswer, schema, items, Execution, last, again, Files, export_answers,
  try_open_export_file, run_task, execute, export_to_file, listen_loop, message, status, shutdown,
}
use typedb_driver.Export.Cleanup.{export_to_file-restores}
use typedb_driver.Export.Contents.{
  answers, Hold, export_to_file-retried, export_to_file-import_items,
}

abbrev granted : Bytes → Bool
granted p = false

abbrev reason : Bytes → Bytes
reason p = []

abbrev s : Bytes
s = codes "s"

abbrev d : Bytes
d = codes "d"

abbrev files : Files
files = (codes "other", codes "x") ∷ []

abbrev broken : Execution ℕ ℕ
broken = last (ok (ok (schema (codes "define")) ∷ []))

export_to_file-restores_example :
    Maps.lookup s (export_to_file granted reason byte_codec s d broken files).1
    ≡ Maps.lookup s files
unfolding export_to_file try_open_export_file execute run_task export_answers
export_to_file-restores_example =
    export_to_file-restores granted reason byte_codec s d broken files
      (connection database_export_stream_no_response) s refl

abbrev batches : List (List ℕ)
batches = (1 ∷ 2 ∷ []) ∷ (3 ∷ []) ∷ []

abbrev exported : Files
exported =
    (export_to_file granted reason byte_codec s d (last (ok (answers ℕ (codes "define") batches)))
      files).1

abbrev transmitter : DatabaseImportTransmitter ℕ ℕ
transmitter = record { queue = []; queue_open = true; polls = []; resolution = some (ok tt) }

abbrev written : ProtoMessageIterator Bytes
written = record { reader = 1 ∷ 1 ∷ 1 ∷ 2 ∷ 1 ∷ 3 ∷ []; buffer = [] }

export_to_file-import_items_example :
    (sent : List (List ℕ)) × (import_items byte_codec read_byte 4 written [] transmitter
      ≡ some (wait_done transmitter, with_requests (map item_part sent ++ done ∷ []) transmitter))
    × IsBatches item_batch_size (1 ∷ 2 ∷ 3 ∷ []) sent
unfolding export_to_file try_open_export_file execute run_task export_answers
export_to_file-import_items_example =
    export_to_file-import_items byte_codec-IsCodec read_byte-IsReader granted reason s d
      (codes "define") batches files written transmitter refl refl refl refl refl refl
      (record { no_result = refl; queued = refl })

-- The first run wrote two items and failed; the second wrote one.
abbrev retried : Execution ℕ ℕ
retried =
    again (ok (ok (items (1 ∷ 2 ∷ [])) ∷ []))
      (last (ok (ok (items (3 ∷ [])) ∷ ok DatabaseExportAnswer.done ∷ [])))

export_to_file-retried_example :
    ((export_to_file granted reason byte_codec s d retried files).0 ≡ ok tt)
    × Hold s d []
        (1 ∷ 3 ∷ 1 ∷ 2 ∷ [])
        (export_to_file granted reason byte_codec s d retried files).1
unfolding export_answers
export_to_file-retried_example =
    export_to_file-retried granted reason byte_codec s d refl refl refl
      (ok (items (1 ∷ 2 ∷ [])) ∷ []) (ok (items (3 ∷ [])) ∷ ok DatabaseExportAnswer.done ∷ []) files
      refl refl refl

listen_loop-test :
    listen_loop {A = ℕ} {M = ℕ} (
      message (ok DatabaseExportAnswer.done)
      ∷ status (connection database_export_stream_no_response)
      ∷ shutdown
      ∷ [])
    ≡ ok DatabaseExportAnswer.done ∷ err (connection database_export_stream_no_response) ∷ []
unfolding listen_loop
listen_loop-test = refl
