-- ===== src/Import/Batches.antt =====
-- What an import sends (rust/src/database/database_manager.rs, rust/src/connection/network/transmitter/import.rs).
use typedb_driver.Common.{
  ℕ, suc, ◌≤◌, ◌<◌, ◌≡◌, refl, ap, ◌∙◌, inl, inr, true, Option, some, List, [], ◌∷◌, ◌++◌, map,
  append-nil, append_assoc, Bytes, length, length-append, arith, leb, Bool-cases, ok, All,
}
use typedb_driver.Migration.{Codec, ProtoMessageIterator}
use typedb_driver.Migration.Reading.{
  IsReader, IsCodec, ahead, encode_length_delimited, next-encode_length_delimited, next-end,
}
use typedb_driver.Import.{
  DatabaseImportRequest, item_part, done, DatabaseImportTransmitter, single, send_items, finish,
  send_rest, wait_done, check_early_result, import_items, item_batch_size,
}

abbrev pub concat : {A : Type 0} → List (List A) → List A
concat [] = []
concat (x ∷ l) = x ++ concat l

-- `l` in batches that are neither empty nor longer than `n`.
pub record IsBatches {A : Type 0} (n : ℕ) (l : List A) (batches : List (List A)) : Type 0 where
  pub in_order : concat batches ≡ l
  pub bounded : All (λ b. (1 ≤ length b) × (length b ≤ n)) batches

-- The server does not answer before the end, and the dispatch loop runs.
pub record IsQuiet {A M : Type 0} (t : DatabaseImportTransmitter A M) : Type 0 where
  pub no_result : t.polls ≡ []
  pub queued : t.queue_open ≡ true

module _ {A M : Type 0} where
  abbrev pub with_requests :
      List (DatabaseImportRequest M) → DatabaseImportTransmitter A M → DatabaseImportTransmitter A M
  with_requests l t = record t { queue = t.queue ++ l }

  with_requests_twice :
      (l k : List (DatabaseImportRequest M)) (t : DatabaseImportTransmitter A M)
      → with_requests k (with_requests l t) ≡ with_requests (l ++ k) t
  with_requests_twice l k t = ap (λ q. record t { queue = q }) (append_assoc t.queue l k)

  with_requests-IsQuiet :
      (l : List (DatabaseImportRequest M)) (t : DatabaseImportTransmitter A M)
      → IsQuiet t
      → IsQuiet (with_requests l t)
  with_requests-IsQuiet l t h = record { no_result = h.no_result; queued = h.queued }

  single-IsQuiet :
      (req : DatabaseImportRequest M) (t : DatabaseImportTransmitter A M)
      → IsQuiet t
      → single req t ≡ (ok tt, with_requests (req ∷ []) t)
  unfolding single check_early_result
  single-IsQuiet req t h = rw (h.no_result, h.queued, single, check_early_result) refl

  finish-IsQuiet :
      (t : DatabaseImportTransmitter A M)
      → IsQuiet t
      → finish t ≡ (wait_done t, with_requests (done ∷ []) t)
  unfolding finish wait_done
  finish-IsQuiet t h = rw (finish, single-IsQuiet done t h) refl

  -- What is sent at the end, with the items `l` left.
  send_rest-IsQuiet :
      (l : List M) (t : DatabaseImportTransmitter A M)
      → length l < item_batch_size
      → IsQuiet t
      → (batches : List (List M)) × (send_rest l t
          ≡ (wait_done t, with_requests (map item_part batches ++ done ∷ []) t))
        × IsBatches item_batch_size l batches
  unfolding send_items wait_done
  send_rest-IsQuiet [] t small h =
      ([], finish-IsQuiet t h, record { in_order = refl; bounded = tt })
  send_rest-IsQuiet (m ∷ l) t small h = (
    (m ∷ l) ∷ [],
    (let b = item_part (m ∷ l) in
        rw
          (
            send_items,
            single-IsQuiet b t h,
            finish-IsQuiet (with_requests (b ∷ []) t) (with_requests-IsQuiet (b ∷ []) t h),
            with_requests_twice (b ∷ []) (done ∷ []) t,
          )
          refl),
    record { in_order = append-nil (m ∷ l); bounded = ((omega arith, omega arith), tt) },
  )

module _ {A R M : Type 0} {codec : Codec M} {read : ℕ → R → Option Bytes × R}
    {remaining : R → Bytes} (lawful : IsCodec codec) (reader : IsReader read remaining) where
  -- From a file that holds the encoded items, and if the server gives no result before the end, an
  -- import sends exactly these items in their order, in batches of 1 to 250, and then the end of the
  -- import, and its result is the one that the server gives.
  pub import_items-IsBatches :
      (items item_buffer : List M) (it : ProtoMessageIterator R) (t : DatabaseImportTransmitter A M)
      → ahead remaining it ≡ concat (map (encode_length_delimited codec) items)
      → length item_buffer < item_batch_size
      → IsQuiet t
      → (batches : List (List M)) × (import_items codec read (suc (length items)) it item_buffer t
          ≡ some (wait_done t, with_requests (map item_part batches ++ done ∷ []) t))
        × IsBatches item_batch_size (item_buffer ++ items) batches
  unfolding import_items wait_done
  import_items-IsBatches [] item_buffer it t file small h =
      (let (it', ended, nothing) = next-end lawful reader it file in
        let (batches, sent, split) = send_rest-IsQuiet item_buffer t small h in
        (batches, rw (ended, import_items, sent) refl, rw (append-nil item_buffer) split))
  import_items-IsBatches (m ∷ items) item_buffer it t file small h =
      (let (it', given, left) =
          next-encode_length_delimited lawful reader it m
            (concat (map (encode_length_delimited codec) items)) file in
        let grown = length-append item_buffer (m ∷ []) in
        let moved = append_assoc item_buffer (m ∷ []) items in
        elim (Bool-cases (leb item_batch_size (length (item_buffer ++ m ∷ [])))) [
          | inr open_batch ↦
              (let (batches, sent, split) =
                  import_items-IsBatches items (item_buffer ++ m ∷ []) it' t left (ground arith)
                    h in
                (batches, rw (given, import_items, open_batch) sent, rw moved at split))
          | inl full ↦
              (let batch = item_buffer ++ m ∷ [] in
                let (batches, sent, split) =
                  import_items-IsBatches items [] it' (with_requests (item_part batch ∷ []) t) left
                    (omega arith) (with_requests-IsQuiet (item_part batch ∷ []) t h) in
                (
                  batch ∷ batches,
                  rw
                      (
                        given,
                        import_items,
                        full,
                        send_items,
                        single-IsQuiet (item_part batch) t h,
                        ← with_requests_twice (item_part batch ∷ [])
                            (map item_part batches ++ done ∷ []) t,
                      )
                      sent,
                  record {
                    in_order = ap (batch ++◌) split.in_order ∙ moved;
                    bounded = ((omega arith, omega arith), split.bounded);
                  },
                ))
        ])
