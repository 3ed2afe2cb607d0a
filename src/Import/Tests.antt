-- ===== src/Import/Tests.antt =====
-- A concrete codec and reader, and runs of an import.
use typedb_driver.Common.{
  panic, ℕ, zero, suc, ◌≡◌, ◌≤◌, refl, false, replicate, true, false, Option, none, some, List, [],
  ◌∷◌, ◌++◌, map, Bytes, codes, ok, arith,
}
use typedb_driver.Migration.{Codec, ProtoMessageIterator, next}
use typedb_driver.Migration.Reading.{IsReader, IsCodec}
use typedb_driver.Import.{
  DatabaseImportRequest, initial, item_part, done, DatabaseImportTransmitter, import_items,
  item_batch_size, wait_done,
}
use typedb_driver.Import.Batches.{IsBatches, with_requests, import_items-IsBatches}
use typedb_driver.Import.Dispatch.{Dispatched, dispatch_loop-all, dispatch_loop}

-- Messages are single bytes, and a delimiter is the length itself.
abbrev decode_byte : Bytes → Option ℕ
decode_byte [] = none
decode_byte (x ∷ l) = some x

abbrev first_byte : Bytes → Option (ℕ × Bytes)
first_byte [] = none
first_byte (x ∷ l) = some (x, l)

abbrev pub byte_codec : Codec ℕ
byte_codec = record {
  encode = λ n. n ∷ [];
  decode = decode_byte;
  encode_length_delimiter = λ n. n ∷ [];
  decode_length_delimiter = first_byte;
}

one_byte :
    (n : ℕ) (first : Bytes) (x : ℕ) (rest : Bytes)
    → n ∷ [] ≡ first ++ x ∷ rest
    → first_byte first ≡ none
one_byte n [] x rest h = refl
one_byte n (y ∷ []) x rest h = cc
one_byte n (y ∷ z ∷ l) x rest h = cc

pub byte_codec-IsCodec : IsCodec byte_codec
byte_codec-IsCodec = record {
  decodes = λ m. refl;
  delimits = λ m rest. refl;
  no_delimiter = refl;
  incomplete = λ m first x rest h. one_byte 1 first x rest h;
  short = λ m. omega arith;
  allocated = λ m. omega arith;
}

-- A file that is read byte by byte.
abbrev pub read_byte : ℕ → Bytes → Option Bytes × Bytes
read_byte zero r = (some [], r)
read_byte (suc n) [] = (some [], [])
read_byte (suc n) (x ∷ r) = (some (x ∷ []), r)

abbrev byte_read : ℕ → Bytes → Bytes
byte_read zero r = []
byte_read (suc n) [] = []
byte_read (suc n) (x ∷ r) = x ∷ []

reads : (n : ℕ) (r : Bytes) → (read_byte n r).0 ≡ some (byte_read n r)
reads zero r = refl
reads (suc n) [] = refl
reads (suc n) (x ∷ r) = refl

in_order : (n : ℕ) (r : Bytes) → byte_read n r ++ (read_byte n r).1 ≡ r
in_order zero r = refl
in_order (suc n) [] = refl
in_order (suc n) (x ∷ r) = refl

stops : (n : ℕ) (r : Bytes) → 1 ≤ n → byte_read n r ≡ [] → r ≡ []
stops zero r h e = absurd (omega arith)
stops (suc n) [] h e = refl
stops (suc n) (x ∷ r) h e = cc

pub read_byte-IsReader : IsReader read_byte (λ r. r)
read_byte-IsReader = record { got = byte_read; reads = reads; in_order = in_order; stops = stops }

abbrev file : ProtoMessageIterator Bytes
file = record { reader = codes "\u{1}a\u{1}b"; buffer = [] }

abbrev transmitter : DatabaseImportTransmitter ℕ ℕ
transmitter = record { queue = []; queue_open = true; polls = []; resolution = some (ok tt) }

import_items-test :
    import_items byte_codec read_byte 3 file [] transmitter
    ≡ some (ok tt, record transmitter { queue = item_part (b'a' ∷ b'b' ∷ []) ∷ done ∷ [] })
unfolding import_items wait_done next
import_items-test = refl

import_items-IsBatches_example :
    (batches : List (List ℕ)) × (import_items byte_codec read_byte 3 file [] transmitter
      ≡ some
          (wait_done transmitter, with_requests (map item_part batches ++ done ∷ []) transmitter))
    × IsBatches item_batch_size (b'a' ∷ b'b' ∷ []) batches
import_items-IsBatches_example =
    import_items-IsBatches byte_codec-IsCodec read_byte-IsReader (b'a' ∷ b'b' ∷ []) [] file
      transmitter refl (omega arith) (record { no_result = refl; queued = refl })

abbrev queued : Dispatched ℕ ℕ
queued = record { waiting = item_part (3 ∷ []) ∷ done ∷ []; messages = 7 ∷ [] }

abbrev tag : DatabaseImportRequest ℕ → ℕ
tag (initial name schema) = 0
tag (item_part items) = 1
tag done = 2

dispatch_loop-all_example :
    dispatch_loop tag (replicate 3 (false, [])) queued
    ≡ record { waiting = []; messages = 7 ∷ 1 ∷ 2 ∷ [] }
dispatch_loop-all_example = dispatch_loop-all tag 3 queued (omega arith)

-- A file whose message is said to be longer than a vector can be.
abbrev huge : ProtoMessageIterator Bytes
huge = record { reader = 9223372036854775808 ∷ []; buffer = [] }

huge_panic :
    next byte_codec read_byte huge
    ≡ some (some panic, record { reader = []; buffer = 9223372036854775808 ∷ [] })
unfolding next
huge_panic = refl
