-- ===== src/Migration.antt =====
-- rust/src/database/migration.rs: the iterator over the length-delimited messages of an exported file.
-- `Codec` has the functions of prost, and `read` is that of `BufRead`.
pub mod Termination
pub mod Reading
use mathlib.Core.Option
use typedb_driver.Common.{
  Bool, panic, ℕ, zero, suc, ◌+◌, ◌-◌, ◌≤◌, ◌<◌, ◌≡◌, ◌≢◌, Option, none, some, List, [], ◌∷◌, ◌++◌,
  Bytes, length, take, drop, ltb, leb, if◌then◌else◌, true, false, Outcome, ok, err, ok_or,
}
use typedb_driver.Errors.{
  MigrationError, cannot_decode_imported_concept, cannot_decode_imported_concept_length,
}

-- What prost does with a message: a length delimiter is read with the rest of the bytes.
pub record Codec (M : Type 0) : Type 0 where
  pub encode : M → Bytes
  pub decode : Bytes → Option M
  pub encode_length_delimiter : ℕ → Bytes
  pub decode_length_delimiter : Bytes → Option (ℕ × Bytes)

abbrev pub max : ℕ → ℕ → ℕ
max a b = if leb a b then b else a

abbrev pub buf_capacity : ℕ
buf_capacity = 8192

abbrev pub max_length_delimiter_len : ℕ
max_length_delimiter_len = 10

-- `isize::MAX`, the capacity at which `vec!` panics.
abbrev pub max_capacity : ℕ
max_capacity = 9223372036854775807

pub record ProtoMessageIterator (R : Type 0) : Type 0 where
  pub reader : R
  pub buffer : Bytes

-- `read` gives the bytes that are there, at most as many as asked for, or no bytes for an I/O error.
module _ {R : Type 0} (read : ℕ → R → Option Bytes × R) where
  abbrev pub extended :
      Option Bytes × R → ProtoMessageIterator R → Option ℕ × ProtoMessageIterator R
  extended (none, r) it = (none, record it { reader = r })
  extended (some bytes, r) it =
      (some (length bytes), record { reader = r; buffer = it.buffer ++ bytes })

  -- The number of bytes read, or an I/O error.
  pub read_more : ℕ → ProtoMessageIterator R → Option ℕ × ProtoMessageIterator R
  read_more bytes_to_read it = extended (read (max bytes_to_read 1) it.reader) it

  -- `while self.buffer.len() < required`, on fuel: whether the buffer was filled.
  pub fill : (fuel required : ℕ) → ProtoMessageIterator R → Option (Bool × ProtoMessageIterator R)
  unfolding read_more
  fill zero required it = none
  fill (suc fuel) required it = elim (ltb (length it.buffer) required) [
    | false ↦ some (true, it)
    | true ↦
        (let (got, it') = read_more (max (required - length it.buffer) buf_capacity) it in
          elim got [
            | none ↦ some (false, it')
            | some zero ↦ some (false, it')
            | some (suc k) ↦ fill fuel required it'
          ])
  ]

module _ {R M : Type 0} (codec : Codec M) (read : ℕ → R → Option Bytes × R) where
  -- The length of the next message and that of its delimiter, or none at the end, on fuel.
  pub decode_next_len :
      (fuel : ℕ)
      → ProtoMessageIterator R
      → Option (Outcome MigrationError (Option (ℕ × ℕ)) × ProtoMessageIterator R)
  unfolding read_more
  decode_next_len zero it = none
  decode_next_len (suc fuel) it = elim (codec.decode_length_delimiter it.buffer) [
    | some (len, cursor) ↦ some (ok (some (len, length it.buffer - length cursor)), it)
    | none ↦ elim (leb max_length_delimiter_len (length it.buffer)) [
      | true ↦ some (err cannot_decode_imported_concept_length, it)
      | false ↦
          (let (got, it') = read_more read (max_length_delimiter_len - length it.buffer) it in
            elim got [
              | none ↦ some (err cannot_decode_imported_concept_length, it')
              | some zero ↦ elim it'.buffer [
                | [] ↦ some (ok none, it')
                | x ∷ l ↦ some (err cannot_decode_imported_concept_length, it')
              ]
              | some (suc k) ↦ decode_next_len fuel it'
            ])
    ]
  ]

  -- `advance(consumed)`, `split_to(message_len)` and the decoding, where the buffer was filled.
  abbrev pub take_message :
      (len consumed : ℕ)
      → Bool × ProtoMessageIterator R
      → Option (Outcome MigrationError M) × ProtoMessageIterator R
  take_message len consumed (true, it) = (
    some (ok_or cannot_decode_imported_concept (codec.decode (take len (drop consumed it.buffer)))),
    record it { buffer = drop len (drop consumed it.buffer) },
  )
  take_message len consumed (false, it) = (some (err cannot_decode_imported_concept), it)

  -- `consumed + message_len`, and the first allocation for what the buffer lacks of it. A sum that does not
  -- fit a machine word is such a case too: it panics with overflow checks, and without them the buffer is
  -- not filled and `split_to` panics on it.
  abbrev pub next_message :
      Outcome MigrationError (Option (ℕ × ℕ)) × ProtoMessageIterator R
      → Option (Option (Outcome MigrationError M) × ProtoMessageIterator R)
  next_message (ok none, it) = some (none, it)
  next_message (err x, it) = some (some (err x), it)
  next_message (panic, it) = some (some panic, it)
  next_message (ok (some (len, consumed)), it) =
      if ltb max_capacity ((consumed + len) - length it.buffer)
      then some (some panic, it)
      else Option.map (take_message len consumed)
          (fill read (suc (consumed + len)) (consumed + len) it)

  -- `next`. Each loop has fuel for all its rounds; none is a loop that runs out of it.
  unfoldable pub next :
      ProtoMessageIterator R → Option (Option (Outcome MigrationError M) × ProtoMessageIterator R)
  unfolding decode_next_len fill
  next it = elim (decode_next_len (suc max_length_delimiter_len) it) [
    | none ↦ none
    | some d ↦ next_message d
  ]
