-- ===== src/Export/Contents.antt =====
-- What the files of an export hold (rust/src/database/database.rs), and how an import reads them.
use typedb_driver.Common.{
  ℕ, suc, ◌≡◌, refl, ap, ◌∙◌, sym, Bool, true, false, Option, none, some, List, [], ◌∷◌, ◌++◌, map,
  append-nil, append_assoc, Bytes, length, arith, ◌=?◌, bytes_eq, Outcome, ok, err, panic,
}
use typedb_driver.Common.Maps
use typedb_driver.Common.Maps.Laws.{lookup-insert, beq_refl}
use typedb_driver.Errors.{Error}
use typedb_driver.Migration.{Codec, ProtoMessageIterator}
use typedb_driver.Migration.Reading.{IsReader, IsCodec, ahead, encode_length_delimited}
use typedb_driver.Import.{
  DatabaseImportTransmitter, item_part, done, wait_done, import_items, item_batch_size,
}
use typedb_driver.Import.Batches.{concat, IsBatches, IsQuiet, with_requests, import_items-IsBatches}
use typedb_driver.Export.{
  DatabaseExportAnswer, schema, items, Execution, last, again, Files, Written, overwritten,
  overwrite, encode_items, export_answers, try_open_export_file, run_task, execute, cleaned,
  export_to_file,
}

-- Nothing was written yet.
abbrev pub no_bytes : Written
no_bytes = record { schema_bytes = []; data_bytes = [] }

-- The files hold these bytes at these two paths.
abbrev pub Hold : (schema_path data_path : Bytes) → Bytes → Bytes → Files → Type 0
Hold schema_path data_path s d files =
    (Maps.lookup schema_path files ≡ some s) × (Maps.lookup data_path files ≡ some d)

overwrite-Hold :
    (p q s d bytes more : Bytes) (files : Files)
    → (p =? q) ≡ false
    → Hold p q s d files
    → Hold p q
        (overwritten bytes s)
        (overwritten more d)
        (overwrite q more (overwrite p bytes files))
unfolding overwrite
overwrite-Hold p q s d bytes more files differ (has_p, has_q) =
    (let files' = Maps.insert p (overwritten bytes s) files in
      let first : overwrite p bytes files ≡ files' = rw (has_p, overwrite) refl in
      let still : Maps.lookup q files' ≡ some d =
        rw (lookup-insert p q (overwritten bytes s) files, differ) has_q in
      let files'' = Maps.insert q (overwritten more d) files' in
      let second : overwrite q more files' ≡ files'' = rw (still, overwrite) refl in
      rw (first, second)
        (
          ground (
            arith,
            lookup-insert q p (overwritten more d) files',
            lookup-insert p p (overwritten bytes s) files,
            bytes_eq.beq_iff p q,
            bytes_eq.beq_iff q p,
            beq_refl p,
          ),
          ground (arith, lookup-insert q q (overwritten more d) files', beq_refl q),
        ))

overwritten-nil : (bytes : Bytes) → overwritten bytes [] ≡ bytes
overwritten-nil [] = refl
overwritten-nil (x ∷ l) = append-nil (x ∷ l)

created-Hold :
    (s d : Bytes) (files : Files)
    → (s =? d) ≡ false
    → Hold s d [] [] (Maps.insert d [] (Maps.insert s [] files))
created-Hold s d files differ = (
  ground (
    arith,
    lookup-insert d s [] (Maps.insert s [] files),
    lookup-insert s s [] files,
    bytes_eq.beq_iff s d,
    bytes_eq.beq_iff d s,
    beq_refl s,
  ),
  ground (arith, lookup-insert d d [] (Maps.insert s [] files), beq_refl d),
)

module _ {A : Type 0} (denied : Bytes → Bool) (reason : Bytes → Bytes) where
  open-existing :
      (p bytes : Bytes) (files : Files)
      → Maps.lookup p files ≡ some bytes
      → denied p ≡ false
      → try_open_export_file {A = A} denied reason p false files ≡ (ok tt, files)
  unfolding try_open_export_file
  open-existing p bytes files there granted = rw (there, granted, try_open_export_file) refl

  open-new :
      (p : Bytes) (files : Files)
      → Maps.lookup p files ≡ none
      → denied p ≡ false
      → try_open_export_file {A = A} denied reason p true files ≡ (ok tt, Maps.insert p [] files)
  unfolding try_open_export_file
  open-new p files absent granted = rw (absent, granted, try_open_export_file) refl

-- The schema, the items in batches, and the end.
abbrev pub item_answers :
    (A : Type 0) {M : Type 0} → List (List M) → List (Outcome (Error A) (DatabaseExportAnswer M))
item_answers A [] = ok DatabaseExportAnswer.done ∷ []
item_answers A (b ∷ l) = ok (items b) ∷ item_answers A l

abbrev pub answers :
    (A : Type 0) {M : Type 0}
    → Bytes
    → List (List M)
    → List (Outcome (Error A) (DatabaseExportAnswer M))
answers A text batches = ok (schema text) ∷ item_answers A batches

module _ (A : Type 0) {M : Type 0} (codec : Codec M) where
  encode_items-++ :
      (l k : List M) → encode_items codec (l ++ k) ≡ encode_items codec l ++ encode_items codec k
  encode_items-++ [] k = refl
  encode_items-++ (m ∷ l) k =
      ap (encode_length_delimited codec m ++◌) (encode_items-++ l k)
      ∙ sym (
          append_assoc (encode_length_delimited codec m) (encode_items codec l)
            (encode_items codec k))

  export_answers-item_answers :
      (batches : List (List M)) (w : Written)
      → export_answers codec (item_answers A batches) w
        ≡ (ok tt, record w { data_bytes = w.data_bytes ++ encode_items codec (concat batches) })
  unfolding export_answers
  export_answers-item_answers [] w = rw (append-nil w.data_bytes) refl
  export_answers-item_answers (b ∷ l) w =
      rw
        (
          export_answers-item_answers l
              (record w { data_bytes = w.data_bytes ++ encode_items codec b }),
          append_assoc w.data_bytes (encode_items codec b) (encode_items codec (concat l)),
          encode_items-++ b (concat l),
        )
        refl

  export_answers-answers :
      (text : Bytes) (batches : List (List M))
      → export_answers codec (answers A text batches) no_bytes
        ≡ (ok tt, record { schema_bytes = text; data_bytes = encode_items codec (concat batches) })
  unfolding export_answers
  export_answers-answers text batches =
      export_answers-item_answers batches (record { schema_bytes = text; data_bytes = [] })

  encode_items-concat :
      (l : List M) → encode_items codec l ≡ concat (map (encode_length_delimited codec) l)
  encode_items-concat [] = refl
  encode_items-concat (m ∷ l) = ap (encode_length_delimited codec m ++◌) (encode_items-concat l)

module _ {A M : Type 0} (denied : Bytes → Bool) (reason : Bytes → Bytes) (codec : Codec M)
    (schema_path data_path : Bytes) (differ : (schema_path =? data_path) ≡ false)
    (granted_schema : denied schema_path ≡ false) (granted_data : denied data_path ≡ false) where
  run_task-Hold :
      (l : List (Outcome (Error A) (DatabaseExportAnswer M))) (s d : Bytes) (files : Files)
      → Hold schema_path data_path s d files
      → ((run_task denied reason codec schema_path data_path (ok l) files).0
          ≡ (export_answers codec l no_bytes).0)
        × Hold schema_path data_path
            (overwritten ((export_answers codec l no_bytes).1.schema_bytes) s)
            (overwritten ((export_answers codec l no_bytes).1.data_bytes) d)
            (run_task denied reason codec schema_path data_path (ok l) files).1
  unfolding run_task
  run_task-Hold l s d files h =
      rw
        (
          run_task,
          open-existing {A = A} denied reason schema_path s files h.0 granted_schema,
          open-existing {A = A} denied reason data_path d files h.1 granted_data,
        )
        (refl, overwrite-Hold schema_path data_path s d _ _ files differ h)

  -- The export itself, where the two files can be made.
  export_to_file-execute :
      (execution : Execution A M) (files : Files)
      → Maps.lookup schema_path files ≡ none
      → Maps.lookup data_path files ≡ none
      → export_to_file denied reason codec schema_path data_path execution files
        ≡ cleaned schema_path data_path (
            execute denied reason codec schema_path data_path execution
              (Maps.insert data_path [] (Maps.insert schema_path [] files)))
  unfolding export_to_file
  export_to_file-execute execution files no_schema no_data =
      (let absent : Maps.lookup data_path (Maps.insert schema_path [] files) ≡ none =
          rw (lookup-insert schema_path data_path [] files, differ) no_data in
        rw
          (
            export_to_file,
            differ,
            open-new {A = A} denied reason schema_path files no_schema granted_schema,
            open-new {A = A} denied reason data_path (Maps.insert schema_path [] files) absent
                granted_data,
          )
          refl)

  cleaned-Hold :
      (s d : Bytes) (g : Outcome (Error A) (Unit {0}) × Files)
      → g.0 ≡ ok tt
      → Hold schema_path data_path s d (g.1)
      → ((cleaned schema_path data_path g).0 ≡ ok tt)
        × Hold schema_path data_path s d (cleaned schema_path data_path g).1
  cleaned-Hold s d (ok u, files) e h = (refl, h)
  cleaned-Hold s d (err x, files) e h = cc
  cleaned-Hold s d (panic, files) e h = cc

  -- An export whose server sends the schema, the items in any batches and `Done` succeeds; one file
  -- holds the schema, and the other the items in their order, each encoded with its length.
  pub export_to_file-writes :
      (text : Bytes) (batches : List (List M)) (files : Files)
      → Maps.lookup schema_path files ≡ none
      → Maps.lookup data_path files ≡ none
      → ((export_to_file denied reason codec schema_path data_path
            (last (ok (answers A text batches)))
            files).0
          ≡ ok tt)
        × Hold schema_path data_path text
            (encode_items codec (concat batches))
            (export_to_file denied reason codec schema_path data_path
              (last (ok (answers A text batches)))
              files).1
  unfolding execute
  export_to_file-writes text batches files no_schema no_data =
      (let files2 = Maps.insert data_path [] (Maps.insert schema_path [] files) in
        let all = answers A text batches in
        let w : Written = record {
          schema_bytes = text;
          data_bytes = encode_items codec (concat batches);
        } in
        let complete : export_answers codec all no_bytes ≡ (ok tt, w) =
          export_answers-answers A codec text batches in
        let (went, hold) =
          run_task-Hold all [] [] files2 (created-Hold schema_path data_path files differ) in
        let hold' =
          rw (complete, overwritten-nil text, overwritten-nil (encode_items codec (concat batches)))
            at hold in
        let went' = rw complete at went in
        rw (export_to_file-execute (last (ok all)) files no_schema no_data, execute)
          (cleaned-Hold _ _ (run_task denied reason codec schema_path data_path (ok all) files2)
            went' hold'))

  -- An export that succeeds at the second run of its task writes over what the first run wrote: each
  -- file holds what the second run wrote, and after it the rest of what the first run wrote, where that
  -- was longer.
  pub export_to_file-retried :
      (l k : List (Outcome (Error A) (DatabaseExportAnswer M))) (files : Files)
      → Maps.lookup schema_path files ≡ none
      → Maps.lookup data_path files ≡ none
      → (export_answers codec k no_bytes).0 ≡ ok tt
      → ((export_to_file denied reason codec schema_path data_path
            (again (ok l) (last (ok k)))
            files).0
          ≡ ok tt)
        × Hold schema_path data_path
            (overwritten
              ((export_answers codec k no_bytes).1.schema_bytes)
              ((export_answers codec l no_bytes).1.schema_bytes))
            (overwritten
              ((export_answers codec k no_bytes).1.data_bytes)
              ((export_answers codec l no_bytes).1.data_bytes))
            (export_to_file denied reason codec schema_path data_path
              (again (ok l) (last (ok k)))
              files).1
  unfolding execute
  export_to_file-retried l k files no_schema no_data complete =
      (let files2 = Maps.insert data_path [] (Maps.insert schema_path [] files) in
        let first =
          (run_task-Hold l [] [] files2 (created-Hold schema_path data_path files differ)).1 in
        let w = (export_answers codec l no_bytes).1 in
        let first' = rw (overwritten-nil w.schema_bytes, overwritten-nil w.data_bytes) at first in
        let second =
          run_task-Hold k w.schema_bytes w.data_bytes
            (run_task denied reason codec schema_path data_path (ok l) files2).1 first' in
        rw (export_to_file-execute (again (ok l) (last (ok k))) files no_schema no_data, execute)
          (cleaned-Hold _ _
            (run_task denied reason codec schema_path data_path (ok k)
              (run_task denied reason codec schema_path data_path (ok l) files2).1)
            (second.0 ∙ complete) second.1))

module _ {A R M : Type 0} {codec : Codec M} {read : ℕ → R → Option Bytes × R}
    {remaining : R → Bytes} (lawful : IsCodec codec) (reader : IsReader read remaining) where
  -- A database that is exported, and imported from its data file, sends the server exactly the items that
  -- were exported, in their order, in batches of 1 to 250; the result is the one that the server gives.
  pub export_to_file-import_items :
      (denied : Bytes → Bool) (reason : Bytes → Bytes) (schema_path data_path text : Bytes)
      (batches : List (List M)) (files : Files) (it : ProtoMessageIterator R)
      (t : DatabaseImportTransmitter A M)
      → (schema_path =? data_path) ≡ false
      → denied schema_path ≡ false
      → denied data_path ≡ false
      → Maps.lookup schema_path files ≡ none
      → Maps.lookup data_path files ≡ none
      → Maps.lookup data_path
          (export_to_file denied reason codec schema_path data_path
            (last (ok (answers A text batches)))
            files).1
        ≡ some (ahead remaining it)
      → IsQuiet t
      → (sent : List (List M)) × (import_items codec read (suc (length (concat batches))) it [] t
          ≡ some (wait_done t, with_requests (map item_part sent ++ done ∷ []) t))
        × IsBatches item_batch_size (concat batches) sent
  export_to_file-import_items denied reason schema_path data_path text batches files it t differ
        granted_schema granted_data no_schema no_data file quiet =
      (let (went, holds) =
          export_to_file-writes denied reason codec schema_path data_path differ granted_schema
            granted_data text batches files no_schema no_data in
        let same : some (encode_items codec (concat batches)) ≡ some (ahead remaining it) =
          sym holds.1 ∙ file in
        let bytes : ahead remaining it ≡ encode_items codec (concat batches) = cc in
        import_items-IsBatches lawful reader (concat batches) [] it t
          (bytes ∙ encode_items-concat A codec (concat batches)) (omega arith) quiet)
