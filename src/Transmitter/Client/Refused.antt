-- ===== src/Transmitter/Client/Refused.antt =====
-- What a closed transmitter refuses (rust/src/connection/network/transmitter/transaction.rs).
use typedb_driver.Common.{
  ℕ, ◌≡◌, refl, ap, ◌∙◌, ◌⊎◌, inl, inr, Bool, true, false, ◌&&◌, not, none, some, List, [], ◌∷◌,
  arith, Bool-cases, Eq, nat_eq, Outcome, ok, err, panic, ◌>>=◌, Outcome-cases,
}
use mathlib.Core.Path.{subst}
use typedb_driver.Errors.{Error, connection, transaction_is_closed}
use typedb_driver.Transmitter.{ResponseSink, one_shot, streamed}
use typedb_driver.Transmitter.Collector.{
  ResponseCollector, Blocked, collect, close_collector, close_with_error, closing_error,
}
use typedb_driver.Transmitter.Collector.Closing.{
  close_collector-IsClosed, close_with_error-IsClosed, close_collector-closing_error,
}
use typedb_driver.Transmitter.Collector.Kept.{IsKept, collect-IsKept}
use typedb_driver.Transmitter.Client.{
  TransactionRequest, TransactionTransmitter, Event, message, status, finished, registration,
  async_listen_loop, listen_after, submit, single, stream, on_close, signal_shutdown, shut,
  with_error, heard, hear, close,
}

-- The events end the loop with the status `x`.
abbrev pub IsEndedBy : {A RequestId Q N : Type 0} → Error A → List (Event A RequestId Q N) → Type 0
IsEndedBy x [] = ⊥
IsEndedBy x (message m ∷ l) = IsEndedBy x l
IsEndedBy x (status y ∷ l) = x ≡ y
IsEndedBy x (finished ∷ l) = ⊥
IsEndedBy x (registration k ∷ l) = IsEndedBy x l

module _ {A RequestId Q N : Type 0} ⦃e : Eq RequestId⦄ where
  -- From `c`, which is closed, to `d`: closed, with the error that it had or with the status of `l`.
  abbrev IsShut : List (Event A RequestId Q N) → (c d : ResponseCollector A RequestId Q N) → Type 0
  IsShut l c d =
      (d.is_open ≡ false) × ((closing_error d ≡ closing_error c) ⊎ IsEndedBy (closing_error d) l)

  loop-IsShut :
      (l : List (Event A RequestId Q N)) (c d : ResponseCollector A RequestId Q N) (ended : Bool)
      → async_listen_loop l c ≡ ok (d, ended)
      → c.is_open ≡ false
      → IsShut l c d
  unfolding async_listen_loop closing_error
  loop-IsShut [] c d ended h off =
      (let one : c ≡ d = ground arith in subst (IsShut [] c) one (off, inl refl))
  loop-IsShut (status x ∷ l) c d ended h off =
      (let one : close_with_error x c ≡ d = ground arith in
        let (closed, is) = close_with_error-IsClosed x c in
        subst (IsShut (status x ∷ l) c) one (closed.shut, inr is))
  loop-IsShut (finished ∷ l) c d ended h off =
      (let one : close_collector c ≡ d = ground arith in
        subst (IsShut (finished ∷ l) c) one
          ((close_collector-IsClosed c).shut, inl (close_collector-closing_error c)))
  loop-IsShut (registration k ∷ l) c d ended h off = loop-IsShut l _ d ended h off
  loop-IsShut (message m ∷ l) c d ended h off = elim (Outcome-cases (collect m c)) [
    | inl (b, went) ↦
        (let (_, _, same_open, same_error) : IsKept c (ok b) =
            subst (IsKept c) went (collect-IsKept m c) in
          let (shut, because) =
            loop-IsShut l b d ended (rw (went, async_listen_loop, listen_after) at h)
              (same_open ∙ off) in
          (
            shut,
            elim because [
              | inl same ↦ inl (
                  same
                  ∙ ap (λ o. elim o [ none ↦ connection transaction_is_closed | some x ↦ x ])
                      same_error)
              | inr by ↦ inr by
            ],
          ))
    | inr (inl (x, went)) ↦ (let stuck = rw (went, async_listen_loop, listen_after) at h in cc)
    | inr (inr went) ↦ (let stuck = rw (went, async_listen_loop, listen_after) at h in cc)
  ]

bind-ok :
    {X Y E : Type 0} (o : Outcome E X) (f : X → Outcome E Y) (y : Y)
    → (o >>= f) ≡ ok y
    → (x : X) × (o ≡ ok x) × (f x ≡ ok y)
bind-ok (ok x) f y h = (x, refl, h)
bind-ok (err x) f y h = cc
bind-ok panic f y h = cc

module _ {A RequestId P Q N : Type 0} ⦃e : Eq RequestId⦄ where
  submit-shut :
      (r : TransactionRequest P RequestId) (sink : ResponseSink)
      (t : TransactionTransmitter A RequestId P Q N)
      → t.collector.is_open ≡ false
      → submit r sink t ≡ (err (closing_error t.collector), t)
  unfolding submit
  submit-shut r sink t h = rw (submit, h) refl

  on_close-shut :
      (k : ℕ) (t : TransactionTransmitter A RequestId P Q N)
      → t.collector.is_open ≡ false
      → (on_close k t).collector.is_open ≡ false
  unfolding on_close
  on_close-shut k t h = elim (Bool-cases t.listening) [
    | inl hears ↦ rw (on_close, hears) h
    | inr deaf ↦ rw (on_close, deaf) h
  ]

  heard-IsShut :
      (l : List (Event A RequestId Q N)) (t u : TransactionTransmitter A RequestId P Q N)
      (p : Outcome Blocked (ResponseCollector A RequestId Q N × Bool))
      → async_listen_loop l t.collector ≡ p
      → t.collector.is_open ≡ false
      → heard t p ≡ ok u
      → IsShut l t.collector u.collector
  heard-IsShut l t u (ok (c, ended)) went off h =
      (let one : record t { collector = c; listening = not ended } ≡ u = ground arith in
        subst (λ v. IsShut l t.collector v.collector) one
          (loop-IsShut l t.collector c ended went off))
  heard-IsShut l t u (err x) went off h = cc
  heard-IsShut l t u panic went off h = cc

  hear-IsShut :
      (l : List (Event A RequestId Q N)) (t u : TransactionTransmitter A RequestId P Q N)
      → t.collector.is_open ≡ false
      → hear l t ≡ ok u
      → IsShut l t.collector u.collector
  unfolding hear
  hear-IsShut l t u off h = elim (Bool-cases t.listening) [
    | inl hears ↦
        heard-IsShut l t u (async_listen_loop l t.collector) refl off (rw (hears, hear) at h)
    | inr deaf ↦
        (let kept : t.collector ≡ u.collector = (let same = rw (deaf, hear) at h in cc) in
          subst (IsShut l t.collector) kept (off, inl refl))
  ]

  close-IsShut :
      (k : ℕ) (before between after : List (Event A RequestId Q N))
      (t u : TransactionTransmitter A RequestId P Q N) (over : Bool)
      → (t.runtime_open && t.collector.is_open) ≡ true
      → close k before between after t ≡ ok (u, over)
      → (u.collector.is_open ≡ false)
        × ((closing_error u.collector ≡ connection transaction_is_closed)
            ⊎ IsEndedBy (closing_error u.collector) after)
  unfolding close closing_error
  close-IsShut k before between after t u over is_open h =
      let (t1, went1, rest1) =
        bind-ok (hear before (shut t)) _ (u, over) (rw (is_open, close) at h) in
      let (t2, went2, rest2) = bind-ok (hear between (on_close k t1)) _ (u, over) rest1 in
      let (t3, went3, rest3) =
        bind-ok (hear after (signal_shutdown (with_error (connection transaction_is_closed) t2))) _
          (u, over) rest2 in
      let (off1, _) = hear-IsShut before (shut t) t1 refl went1 in
      let (off2, _) = hear-IsShut between (on_close k t1) t2 (on_close-shut k t1 off1) went2 in
      let one : t3 ≡ u = ground arith in
      subst
        (λ v.
          (v.collector.is_open ≡ false)
          × ((closing_error v.collector ≡ connection transaction_is_closed)
              ⊎ IsEndedBy (closing_error v.collector) after))
        one
        (hear-IsShut after (signal_shutdown (with_error (connection transaction_is_closed) t2)) t3
          off2 went3)

  -- After a transmitter that is open, in an open runtime, is closed, every request is refused, and
  -- nothing changes, in particular the queue: it fails with `TransactionIsClosed`, or with the
  -- status with which the stream ended after `close` had set this error. This holds whether the
  -- wait of `close` is over or not, and whatever the listener meets before, between and after the
  -- steps of `close`, as long as it does not block or panic.
  pub close-refuses :
      (k j : ℕ) (before between after : List (Event A RequestId Q N))
      (r : TransactionRequest P RequestId) (t u : TransactionTransmitter A RequestId P Q N)
      (over : Bool)
      → t.runtime_open ≡ true
      → t.collector.is_open ≡ true
      → close k before between after t ≡ ok (u, over)
      → (x : Error A) × ((x ≡ connection transaction_is_closed) ⊎ IsEndedBy x after)
        × (single r j u ≡ (err x, u))
        × (stream r j u ≡ (err x, u))
  unfolding single stream
  close-refuses k j before between after r t u over running is_open went =
      let (off, because) = close-IsShut k before between after t u over (ground arith) went in
      (
        closing_error u.collector,
        because,
        submit-shut r (one_shot j) u off,
        submit-shut r (streamed j) u off,
      )
