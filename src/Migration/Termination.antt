-- ===== src/Migration/Termination.antt =====
-- The loops of the message iterator end (rust/src/database/migration.rs), on any reader.
use typedb_driver.Common.{
  ℕ, zero, suc, ◌+◌, ◌-◌, ◌<◌, ◌≡◌, ◌≢◌, inl, inr, Option, none, some, Bytes, length, length-append,
  arith, Option-cases, Outcome, ok,
}
use typedb_driver.Errors.{MigrationError}
use typedb_driver.Migration.{
  max_capacity, buf_capacity, Codec, ProtoMessageIterator, max, read_more, extended, fill,
}

module _ {R : Type 0} (read : ℕ → R → Option Bytes × R) where
  extended-length :
      (got : Option Bytes × R) (k : ℕ) (it : ProtoMessageIterator R)
      → (extended read got it).0 ≡ some k
      → length ((extended read got it).1.buffer) ≡ length it.buffer + k
  extended-length (none, r) k it h = cc
  extended-length (some bytes, r) k it h =
      (let exact : length bytes ≡ k = ground arith in omega (arith, length-append it.buffer bytes))

  -- What a read of `k` bytes adds to the buffer.
  read_more-length :
      (n k : ℕ) (it : ProtoMessageIterator R)
      → (read_more read n it).0 ≡ some k
      → length ((read_more read n it).1.buffer) ≡ length it.buffer + k
  unfolding read_more
  read_more-length n k it h = extended-length (read (max n 1) it.reader) k it h

  pub fill-ends :
      (fuel required : ℕ) (it : ProtoMessageIterator R)
      → required - length it.buffer < fuel
      → fill read fuel required it ≢ none
  unfolding fill
  fill-ends zero required it h = absurd (omega arith)
  fill-ends (suc fuel) required it h =
      (let n = max (required - length it.buffer) buf_capacity in
        let it' = (read_more read n it).1 in
        elim (Option-cases ((read_more read n it).0)) [
          | inl failed ↦ ground arith
          | inr (zero, stopped) ↦ ground arith
          | inr (suc k, got) ↦
              (let grown = read_more-length n (suc k) it got in
                let rest = fill-ends fuel required it' in ground arith)
        ])

module _ {R M : Type 0} (codec : Codec M) (read : ℕ → R → Option Bytes × R) where
  -- `d` reads a length, of a message whose rest is longer than a vector can be.
  abbrev pub IsTooLong : Outcome MigrationError (Option (ℕ × ℕ)) × ProtoMessageIterator R → Type 0
  IsTooLong (ok (some (len, consumed)), it) = max_capacity < (consumed + len) - length it.buffer
  IsTooLong _ = ⊥
