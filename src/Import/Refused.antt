-- ===== src/Import/Refused.antt =====
-- An import whose result came early takes no more requests
-- (rust/src/connection/network/transmitter/import.rs).
use typedb_driver.Common.{◌≡◌, ◌≢◌, refl, List, ◌∷◌, ok, err, panic, arith}
use typedb_driver.Errors.{Error, connection, database_import_channel_is_closed}
use typedb_driver.Import.{
  DatabaseImportRequest, DatabaseImportTransmitter, Poll, empty, received, disconnected, single,
  check_early_result, early_result,
}

module _ {A M : Type 0} where
  -- A poll that finds the channel of the result closed, or a result in it, refuses the request and leaves
  -- the queue as it is; so does every later request, with `DatabaseImportChannelIsClosed`. The refusal is
  -- the server's error, if it gave one.
  pub single-refuses :
      (req later : DatabaseImportRequest M) (x : Poll A) (l : List (Poll A))
      (t : DatabaseImportTransmitter A M)
      → x ≢ empty
      → t.polls ≡ x ∷ l
      → ((single req t).0 ≢ ok tt)
        × ((y : Error A) → x ≡ received (err y) → (single req t).0 ≡ err y)
        × ((single req t).1.queue ≡ t.queue)
        × (single later ((single req t).1)
            ≡ (err (connection database_import_channel_is_closed), (single req t).1))
  unfolding single check_early_result early_result
  single-refuses req later empty l t h found = absurd (h refl)
  single-refuses req later disconnected l t h found = rw found (ground arith, λ y e. cc, refl, refl)
  single-refuses req later (received (ok u)) l t h found =
      rw found (ground arith, λ y e. cc, refl, refl)
  single-refuses req later (received (err x)) l t h found =
      rw found (ground arith, λ y e. ground arith, refl, refl)
  single-refuses req later (received panic) l t h found =
      rw found (ground arith, λ y e. cc, refl, refl)
