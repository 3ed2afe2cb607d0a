-- ===== src/Export/Cleanup.antt =====
-- What a failed export leaves behind (rust/src/database/database.rs).
use typedb_driver.Common.{
  ◌≡◌, refl, ap, ◌∙◌, ◌⊎◌, inl, inr, Bool, true, false, none, [], Bytes, arith, Bool-cases,
  Option-cases, ◌=?◌, bytes_eq, Outcome, ok, err, panic,
}
use typedb_driver.Common.Maps
use typedb_driver.Common.Maps.Laws.{lookup-insert, lookup-remove}
use typedb_driver.Errors.{Error, migration, cannot_create_export_file}
use typedb_driver.Migration.{Codec}
use typedb_driver.Export.{
  Call, Execution, own_error, last, again, Files, overwritten, overwrite, try_open_export_file,
  and_then, answered, run_task, execute, cleaned, export_to_file,
}

overwrite-elsewhere :
    (p q : Bytes) (bytes : Bytes) (files : Files)
    → (p =? q) ≡ false
    → Maps.lookup q (overwrite p bytes files) ≡ Maps.lookup q files
unfolding overwrite
overwrite-elsewhere p q bytes files h = elim (Option-cases (Maps.lookup p files)) [
  | inl absent ↦ rw (absent, overwrite) refl
  | inr (old, there) ↦
      rw (there, overwrite, lookup-insert p q (overwritten bytes old) files, h) refl
]

-- The files at other paths than these two are the same.
abbrev pub SameElsewhere : (schema_path data_path : Bytes) → Files → Files → Type 0
SameElsewhere schema_path data_path files files' =
    (q : Bytes)
    → (schema_path =? q) ≡ false
    → (data_path =? q) ≡ false
    → Maps.lookup q files' ≡ Maps.lookup q files

module _ (A : Type 0) (denied : Bytes → Bool) (reason : Bytes → Bytes) where
  try_open_export_file-old :
      (p : Bytes) (files : Files)
      → (try_open_export_file {A = A} denied reason p false files).1 ≡ files
  unfolding try_open_export_file
  try_open_export_file-old p files = ground arith

module _ {A : Type 0} (denied : Bytes → Bool) (reason : Bytes → Bytes) where
  pub try_open_export_file-new :
      (p : Bytes) (files : Files)
      → ((Maps.lookup p files ≡ none)
          × (try_open_export_file {A = A} denied reason p true files
              ≡ (ok tt, Maps.insert p [] files)))
        ⊎ ((x : Error A) × (try_open_export_file denied reason p true files ≡ (err x, files)))
  unfolding try_open_export_file
  try_open_export_file-new p files =
      (let refusal = migration (cannot_create_export_file p (reason p)) in
        elim (Option-cases (Maps.lookup p files)) [
          | inr (old, there) ↦ inr (refusal, rw (there, try_open_export_file) refl)
          | inl absent ↦ elim (Bool-cases (denied p)) [
            | inl refused ↦ inr (refusal, rw (absent, refused, try_open_export_file) refl)
            | inr granted ↦ inl (absent, rw (absent, granted, try_open_export_file) refl)
          ]
        ])

-- Removing the two files of a table that was the same elsewhere, and had neither.
removed-elsewhere :
    (s d q : Bytes) (files base : Files)
    → SameElsewhere s d base files
    → Maps.lookup s base ≡ none
    → Maps.lookup d base ≡ none
    → Maps.lookup q (Maps.remove d (Maps.remove s files)) ≡ Maps.lookup q base
removed-elsewhere s d q files base same no_s no_d = ground (
  arith,
  same q,
  lookup-remove d q (Maps.remove s files),
  lookup-remove s q files,
  bytes_eq.beq_iff d q,
  bytes_eq.beq_iff s q,
)

removed-inserted :
    (s q bytes : Bytes) (files : Files)
    → Maps.lookup s files ≡ none
    → Maps.lookup q (Maps.remove s (Maps.insert s bytes files)) ≡ Maps.lookup q files
removed-inserted s q bytes files absent = ground (
  arith,
  lookup-remove s q (Maps.insert s bytes files),
  lookup-insert s q bytes files,
  bytes_eq.beq_iff s q,
)

created-elsewhere :
    (s d : Bytes) (files : Files)
    → SameElsewhere s d files (Maps.insert d [] (Maps.insert s [] files))
created-elsewhere s d files q hs hd =
    rw (lookup-insert d q [] (Maps.insert s [] files), lookup-insert s q [] files, hs, hd) refl

-- A path without a file has none before another is made.
absent-before :
    (s d : Bytes) (files : Files)
    → (s =? d) ≡ false
    → Maps.lookup d (Maps.insert s [] files) ≡ none
    → Maps.lookup d files ≡ none
absent-before s d files differ h = rw (lookup-insert s d [] files, differ) at h

cleaned-err :
    {A : Type 0} (s d : Bytes) (x : Error A) (g : Outcome (Error A) (Unit {0}) × Files)
    → (cleaned s d g).0 ≡ err x
    → (cleaned s d g).1 ≡ Maps.remove d (Maps.remove s (g.1))
cleaned-err s d x (ok u, files) h = cc
cleaned-err s d x (err y, files) h = refl
cleaned-err s d x (panic, files) h = cc

module _ {A M : Type 0} (denied : Bytes → Bool) (reason : Bytes → Bytes) (codec : Codec M)
    (schema_path data_path : Bytes) where
  answered-elsewhere :
      (server : Call A M) (files : Files)
      → SameElsewhere schema_path data_path files
          (answered denied reason codec schema_path data_path server files).1
  answered-elsewhere (err x) files q hs hd = refl
  answered-elsewhere panic files q hs hd = refl
  answered-elsewhere (ok l) files q hs hd =
      overwrite-elsewhere data_path q _ _ hd ∙ overwrite-elsewhere schema_path q _ _ hs

  and_then-elsewhere :
      (first : Outcome (Error A) (Unit {0}) × Files)
      (more : Files → Outcome (Error A) (Unit {0}) × Files) (files : Files)
      → first.1 ≡ files
      → ((files : Files) → SameElsewhere schema_path data_path files (more files).1)
      → SameElsewhere schema_path data_path files (and_then first more).1
  and_then-elsewhere (ok u, f) more files e h q hs hd = h f q hs hd ∙ ap (Maps.lookup q) e
  and_then-elsewhere (err x, f) more files e h q hs hd = ap (Maps.lookup q) e
  and_then-elsewhere (panic, f) more files e h q hs hd = ap (Maps.lookup q) e

  run_task-elsewhere :
      (server : Call A M) (files : Files)
      → SameElsewhere schema_path data_path files
          (run_task denied reason codec schema_path data_path server files).1
  unfolding run_task
  run_task-elsewhere server files =
      and_then-elsewhere (try_open_export_file denied reason schema_path false files)
        (λ files.
          and_then (try_open_export_file denied reason data_path false files)
            (answered denied reason codec schema_path data_path server))
        files (try_open_export_file-old A denied reason schema_path files)
        (λ files.
          and_then-elsewhere (try_open_export_file denied reason data_path false files)
            (answered denied reason codec schema_path data_path server) files
            (try_open_export_file-old A denied reason data_path files) (answered-elsewhere server))

  execute-elsewhere :
      (execution : Execution A M) (files : Files)
      → SameElsewhere schema_path data_path files
          (execute denied reason codec schema_path data_path execution files).1
  unfolding execute
  execute-elsewhere (own_error x) files q hs hd = refl
  execute-elsewhere (last server) files q hs hd = run_task-elsewhere server files q hs hd
  execute-elsewhere (again server more) files q hs hd =
      execute-elsewhere more _ q hs hd ∙ run_task-elsewhere server files q hs hd

  -- An export that gives an error leaves every file, and every path without a file, as it was before.
  pub export_to_file-restores :
      (execution : Execution A M) (files : Files) (x : Error A) (q : Bytes)
      → (export_to_file denied reason codec schema_path data_path execution files).0 ≡ err x
      → Maps.lookup q (export_to_file denied reason codec schema_path data_path execution files).1
        ≡ Maps.lookup q files
  unfolding export_to_file
  export_to_file-restores execution files x q h = elim (Bool-cases (schema_path =? data_path)) [
    | inl same ↦ rw (same, export_to_file) refl
    | inr differ ↦ elim (try_open_export_file-new {A = A} denied reason schema_path files) [
      | inr (y, refused) ↦ rw (differ, refused, export_to_file) refl
      | inl (no_schema, created) ↦
          (let files1 = Maps.insert schema_path [] files in
            elim (try_open_export_file-new {A = A} denied reason data_path files1) [
              | inr (y, refused) ↦
                  rw (differ, created, refused, export_to_file)
                    (removed-inserted schema_path q [] files no_schema)
              | inl (no_data, created') ↦
                  (let files2 = Maps.insert data_path [] files1 in
                    let failed = rw (differ, created, created', export_to_file) at h in
                    let went = execute denied reason codec schema_path data_path execution files2 in
                    let before = absent-before schema_path data_path files differ no_data in
                    let same : SameElsewhere schema_path data_path files went.1 = λ q hs hd.
                      execute-elsewhere execution files2 q hs hd
                      ∙ created-elsewhere schema_path data_path files q hs hd in
                    rw
                      (
                        differ,
                        created,
                        created',
                        export_to_file,
                        cleaned-err schema_path data_path x went failed,
                      )
                      (removed-elsewhere schema_path data_path q went.1 files same no_schema
                        before))
            ])
    ]
  ]
