-- ===== src/Migration/Reading.antt =====
-- What the message iterator reads (rust/src/database/migration.rs) from a file that holds encoded
-- messages, whatever the pieces in which the file arrives.
use typedb_driver.Common.{
  ℕ, zero, suc, ◌+◌, ◌-◌, ◌≤◌, ◌<◌, ◌≡◌, refl, sym, ap, ◌∙◌, ◌⊎◌, inl, inr, true, false, Option,
  none, some, [], ◌∷◌, ◌++◌, append_assoc, Bytes, length, drop, take-append, drop-append,
  length-append, arith, ltb, leb, ltb→lt, Bool-cases, List-cases, ok,
}
use typedb_driver.Migration.{
  buf_capacity, Codec, ProtoMessageIterator, max, max_length_delimiter_len, read_more, extended,
  max_capacity, fill, decode_next_len, next, take_message,
}

-- `BufRead::read` on a file: it gives bytes that come next, and none only at the end.
pub record IsReader {R : Type 0} (read : ℕ → R → Option Bytes × R) (remaining : R → Bytes)
    : Type 0 where
  pub got : ℕ → R → Bytes
  pub reads : (n : ℕ) (r : R) → (read n r).0 ≡ some (got n r)
  pub in_order : (n : ℕ) (r : R) → got n r ++ remaining ((read n r).1) ≡ remaining r
  pub stops : (n : ℕ) (r : R) → 1 ≤ n → got n r ≡ [] → remaining r ≡ []

-- prost reads back what it wrote, and it does not read a length before its delimiter is complete.
pub record IsCodec {M : Type 0} (codec : Codec M) : Type 0 where
  pub decodes : (m : M) → codec.decode (codec.encode m) ≡ some m
  pub delimits :
      (m : M) (rest : Bytes)
      → codec.decode_length_delimiter
          (codec.encode_length_delimiter (length (codec.encode m)) ++ rest)
        ≡ some (length (codec.encode m), rest)
  pub no_delimiter : codec.decode_length_delimiter [] ≡ none
  pub incomplete :
      (m : M) (first : Bytes) (x : ℕ) (rest : Bytes)
      → codec.encode_length_delimiter (length (codec.encode m)) ≡ first ++ x ∷ rest
      → codec.decode_length_delimiter first ≡ none
  pub short :
      (m : M)
      → length (codec.encode_length_delimiter (length (codec.encode m))) ≤ max_length_delimiter_len
  -- A message with its delimiter is in a vector, which it has been written from.
  pub allocated :
      (m : M)
      → length (codec.encode_length_delimiter (length (codec.encode m))) + length (codec.encode m)
        ≤ max_capacity

-- Of two beginnings of a text, one continues the other.
beginnings :
    (a b c d : Bytes)
    → a ++ b ≡ c ++ d
    → ((rest : Bytes) × (a ≡ c ++ rest)) ⊎ ((x : ℕ) × (rest : Bytes) × (c ≡ a ++ x ∷ rest))
beginnings a b [] d h = inl (a, refl)
beginnings [] b (x ∷ c) d h = inr (x, c, refl)
beginnings (y ∷ a) b (x ∷ c) d h = elim (beginnings a b c d (cc)) [
  | inl (rest, e) ↦ inl (rest, cc)
  | inr (z, rest, e) ↦ inr (z, rest, cc)
]

-- What is still to be read.
abbrev pub ahead : {R : Type 0} → (R → Bytes) → ProtoMessageIterator R → Bytes
ahead remaining it = it.buffer ++ remaining it.reader

module _ {M : Type 0} (codec : Codec M) where
  abbrev pub delimiter : M → Bytes
  delimiter m = codec.encode_length_delimiter (length (codec.encode m))

  -- `encode_length_delimited`
  abbrev pub encode_length_delimited : M → Bytes
  encode_length_delimited m = delimiter m ++ codec.encode m

module _ {R : Type 0} {read : ℕ → R → Option Bytes × R} {remaining : R → Bytes}
    (reader : IsReader read remaining) where
  -- A read that adds `k` bytes to the buffer keeps what is ahead, and adds none only at the end.
  record IsRead (k : ℕ) (it it' : ProtoMessageIterator R) : Type 0 where
    same : ahead remaining it' ≡ ahead remaining it
    longer : length it'.buffer ≡ length it.buffer + k
    ended : k ≡ 0 → it'.buffer ≡ ahead remaining it

  extended-IsRead :
      (bytes : Bytes) (r : R) (it : ProtoMessageIterator R)
      → bytes ++ remaining r ≡ remaining it.reader
      → (bytes ≡ [] → remaining it.reader ≡ [])
      → IsRead (length bytes) it (extended read (some bytes, r) it).1
  extended-IsRead bytes r it in_order stops = record {
    same = rw (append_assoc it.buffer bytes (remaining r)) (ap (it.buffer ++◌) in_order);
    longer = length-append it.buffer bytes;
    ended = λ h. elim (List-cases bytes) [
      | inl e ↦ ap (it.buffer ++◌) (e ∙ sym (stops e))
      | inr (x, l, e) ↦
          absurd (let some_byte : length bytes ≡ suc (length l) = ap length e in omega arith)
    ];
  }

  -- A read stops at the end of what is ahead, or it adds some bytes.
  IsStep : Option ℕ → (it it' : ProtoMessageIterator R) → Type 0
  IsStep o it it' =
      ((o ≡ some 0) × IsRead 0 it it') ⊎ ((k : ℕ) × (o ≡ some (suc k)) × IsRead (suc k) it it')

  read_more-IsStep :
      (n : ℕ) (it : ProtoMessageIterator R)
      → IsStep ((read_more read n it).0) it ((read_more read n it).1)
  unfolding read_more IsStep
  read_more-IsStep n it =
      (let m = max n 1 in
        let bytes = reader.got m it.reader in
        let r = (read m it.reader).1 in
        let given : read m it.reader ≡ (some bytes, r) =
          ap (λ x. (x, r)) (reader.reads m it.reader) in
        let more : IsRead (length bytes) it (extended read (some bytes, r) it).1 =
          extended-IsRead bytes r it (reader.in_order m it.reader)
            (reader.stops m it.reader (ground arith)) in
        rw given (
          elim (length bytes)
              as (λ k.
                IsRead k it (extended read (some bytes, r) it).1
                → IsStep (some k) it (extended read (some bytes, r) it).1) [
                  | zero ↦ λ more. inl (refl, more)
                  | suc k ↦ λ more. inr (k, refl, more)
                ]
            more))

  -- `fill` gets the bytes that it asks for if they are ahead, and then keeps what is ahead.
  fill-IsFull :
      (fuel required : ℕ) (it : ProtoMessageIterator R)
      → required - length it.buffer < fuel
      → required ≤ length (ahead remaining it)
      → (it' : ProtoMessageIterator R) × (fill read fuel required it ≡ some (true, it'))
        × (ahead remaining it' ≡ ahead remaining it)
        × (required ≤ length it'.buffer)
  unfolding fill IsStep
  fill-IsFull zero required it h there = absurd (omega arith)
  fill-IsFull (suc fuel) required it h there = elim (Bool-cases (ltb (length it.buffer) required)) [
    | inr full ↦ (it, ground arith, refl, ground arith)
    | inl short ↦
        (let n = max (required - length it.buffer) buf_capacity in
          let it' = (read_more read n it).1 in
          elim (read_more-IsStep n it) [
            | inl (stopped, more) ↦ absurd (
                let all_read = ap length (more.ended refl) in
                let none_more = more.longer in omega (arith, ltb→lt _ _ short))
            | inr (k, got, more) ↦
                (let grown = more.longer in
                  let same_length = ap length more.same in
                  let (it'', filled, same, enough) =
                    fill-IsFull fuel required it' (omega (arith, ltb→lt _ _ short)) (omega arith) in
                  (it'', rw (short, got, fill) filled, same ∙ more.same, enough))
          ])
  ]

module _ {R M : Type 0} {codec : Codec M} {read : ℕ → R → Option Bytes × R} {remaining : R → Bytes}
    (lawful : IsCodec codec) (reader : IsReader read remaining) where
  decode_next_len-delimiter :
      (fuel : ℕ) (it : ProtoMessageIterator R) (m : M) (rest : Bytes)
      → max_length_delimiter_len - length it.buffer < fuel
      → ahead remaining it ≡ delimiter codec m ++ rest
      → (it' : ProtoMessageIterator R) × (l : Bytes) × (decode_next_len codec read fuel it
          ≡ some (ok (some (length (codec.encode m), length (delimiter codec m))), it'))
        × (ahead remaining it' ≡ ahead remaining it)
        × (it'.buffer ≡ delimiter codec m ++ l)
  unfolding decode_next_len IsStep
  decode_next_len-delimiter zero it m rest h there = absurd (omega arith)
  decode_next_len-delimiter (suc fuel) it m rest h there =
      elim (beginnings it.buffer (remaining it.reader) (delimiter codec m) rest there) [
        | inl (l, full) ↦
            (let found : codec.decode_length_delimiter it.buffer
                  ≡ some (length (codec.encode m), l) =
                rw full (lawful.delimits m l) in
              let exact : length it.buffer - length l ≡ length (delimiter codec m) =
                (let size = ap length full ∙ length-append (delimiter codec m) l in omega arith) in
              (it, l, rw (found, exact, decode_next_len) refl, refl, full))
        | inr (x, l, short) ↦
            (let n = max_length_delimiter_len - length it.buffer in
              let it' = (read_more read n it).1 in
              let more = lawful.incomplete m it.buffer x l short in
              let size = ap length short ∙ length-append it.buffer (x ∷ l) in
              let room : leb max_length_delimiter_len (length it.buffer) ≡ false =
                ground (arith, lawful.short m, size) in
              elim (read_more-IsStep reader n it) [
                | inl (stopped, read_on) ↦ absurd (
                    let all_read =
                      ap length (read_on.ended refl ∙ there)
                      ∙ length-append (delimiter codec m) rest in
                    let none_more = read_on.longer in omega arith)
                | inr (k, got, read_on) ↦
                    (let grown = read_on.longer in
                      let (it'', l', went, same, full) =
                        decode_next_len-delimiter fuel it' m rest (omega (arith, lawful.short m))
                          (read_on.same ∙ there) in
                      (
                        it'',
                        l',
                        rw (more, room, got, decode_next_len) went,
                        same ∙ read_on.same,
                        full,
                      ))
              ])
      ]

  decode_next_len-end :
      (fuel : ℕ) (it : ProtoMessageIterator R)
      → ahead remaining it ≡ []
      → (it' : ProtoMessageIterator R) × (decode_next_len codec read (suc fuel) it
          ≡ some (ok none, it'))
        × (ahead remaining it' ≡ [])
  unfolding decode_next_len IsStep
  decode_next_len-end fuel it h = elim (List-cases it.buffer) [
    | inr (x, l, some_byte) ↦ absurd (let stuck = rw some_byte at h in cc)
    | inl no_byte ↦
        (let n = max_length_delimiter_len - length it.buffer in
          let it' = (read_more read n it).1 in
          let more : codec.decode_length_delimiter it.buffer ≡ none =
            rw no_byte lawful.no_delimiter in
          let room : leb max_length_delimiter_len (length it.buffer) ≡ false = rw no_byte refl in
          elim (read_more-IsStep reader n it) [
            | inl (stopped, read_on) ↦
                (let empty : it'.buffer ≡ [] = read_on.ended refl ∙ h in
                  (it', rw (more, room, stopped, empty, decode_next_len) refl, read_on.same ∙ h))
            | inr (k, got, read_on) ↦ absurd (
                let grown = read_on.longer in
                let size = ap length (read_on.same ∙ h) in
                let total = length-append it'.buffer (remaining it'.reader) in omega arith)
          ])
  ]

  -- What a long enough buffer begins with.
  filled :
      (first rest : Bytes) (it : ProtoMessageIterator R)
      → ahead remaining it ≡ first ++ rest
      → length first ≤ length it.buffer
      → (l : Bytes) × (it.buffer ≡ first ++ l) × (l ++ remaining it.reader ≡ rest)
  filled first rest it h enough = elim (beginnings it.buffer (remaining it.reader) first rest h) [
    | inl (l, full) ↦
        (let tail : drop (length first) (it.buffer ++ remaining it.reader) ≡ rest =
            ap (drop (length first)) h ∙ drop-append first rest in
          (l, full, rw (full, append_assoc first l (remaining it.reader), drop-append) at tail))
    | inr (x, l, short) ↦
        absurd (let size = ap length short ∙ length-append it.buffer (x ∷ l) in omega arith)
  ]

  take_message-encode :
      (it : ProtoMessageIterator R) (m : M) (l : Bytes)
      → it.buffer ≡ encode_length_delimited codec m ++ l
      → take_message codec read (length (codec.encode m)) (length (delimiter codec m)) (true, it)
        ≡ (some (ok m), record it { buffer = l })
  take_message-encode it m l h =
      rw
        (
          h,
          append_assoc (delimiter codec m) (codec.encode m) l,
          drop-append (delimiter codec m) (codec.encode m ++ l),
          take-append (codec.encode m) l,
          drop-append (codec.encode m) l,
          lawful.decodes m,
        )
        refl

  -- If a message, encoded with its length, is what the file holds next, then `next` gives this message
  -- and leaves what follows it, whatever part of it was read before.
  pub next-encode_length_delimited :
      (it : ProtoMessageIterator R) (m : M) (rest : Bytes)
      → ahead remaining it ≡ encode_length_delimited codec m ++ rest
      → (it' : ProtoMessageIterator R) × (next codec read it ≡ some (some (ok m), it'))
        × (ahead remaining it' ≡ rest)
  unfolding next
  next-encode_length_delimited it m rest h =
      (let c = length (delimiter codec m) in
        let len = length (codec.encode m) in
        let split = append_assoc (delimiter codec m) (codec.encode m) rest in
        let (it', l, went, same, full) =
          decode_next_len-delimiter (suc max_length_delimiter_len) it m (codec.encode m ++ rest)
            (omega arith) (h ∙ split) in
        let all = same ∙ h in
        let size = ap length all ∙ length-append (encode_length_delimited codec m) rest in
        let both = length-append (delimiter codec m) (codec.encode m) in
        let room : ltb max_capacity ((c + len) - length it'.buffer) ≡ false =
          (let small = lawful.allocated m in ground arith) in
        let (it'', read_on, same', enough) =
          fill-IsFull reader (suc (c + len)) (c + len) it' (omega arith) (omega arith) in
        let (l', full', left) =
          filled (encode_length_delimited codec m) rest it'' (same' ∙ all) (omega arith) in
        (
          record it'' { buffer = l' },
          rw (went, room, read_on, next, take_message-encode it'' m l' full') refl,
          left,
        ))

  -- At the end of the file `next` gives nothing.
  pub next-end :
      (it : ProtoMessageIterator R)
      → ahead remaining it ≡ []
      → (it' : ProtoMessageIterator R) × (next codec read it ≡ some (none, it'))
        × (ahead remaining it' ≡ [])
  unfolding next
  next-end it h =
      (let (it', went, empty) = decode_next_len-end max_length_delimiter_len it h in
        (it', rw (went, next) refl, empty))
