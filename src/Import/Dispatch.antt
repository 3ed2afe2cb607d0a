-- ===== src/Import/Dispatch.antt =====
-- The two workers of an import (rust/src/connection/network/transmitter/import.rs): the loop that sends
-- the queued requests, one in each round, and the task that waits for the result.
use typedb_driver.Common.{
  ℕ, zero, suc, ◌≤◌, arith, replicate, List-cases, inl, inr, ◌≡◌, refl, ap, ◌∙◌, sym, Bool, true,
  false, Option, none, some, List, [], ◌∷◌, ◌++◌, map, append-nil, append_assoc, length, Outcome,
  ok, err, panic,
}
use typedb_driver.Errors.{Error, connection, database_import_channel_is_closed}
use typedb_driver.Import.{DatabaseImportRequest}

-- The queue, and the messages that were sent.
pub record Dispatched (M P : Type 0) : Type 0 where
  pub waiting : List (DatabaseImportRequest M)
  pub messages : List P

-- `P` stands for the messages of the protocol, with their conversion from requests.
module _ {M P : Type 0} (into_proto : DatabaseImportRequest M → P) where
  -- `if let Ok(request) = request_source.try_recv()`
  abbrev pub send_first : List (DatabaseImportRequest M) → List P → Dispatched M P
  send_first [] sent = record { waiting = []; messages = sent }
  send_first (req ∷ l) sent = record { waiting = l; messages = sent ++ into_proto req ∷ [] }

  -- A round finds the shutdown signal or not, and after that some requests that were added to the queue.
  pub dispatch_loop : List (Bool × List (DatabaseImportRequest M)) → Dispatched M P → Dispatched M P
  dispatch_loop [] d = d
  dispatch_loop ((true, added) ∷ rounds) d = record d { waiting = d.waiting ++ added }
  dispatch_loop ((false, added) ∷ rounds) d =
      dispatch_loop rounds (send_first (d.waiting ++ added) d.messages)

-- The task `next`: what it finds on the stream of the server becomes the result.
abbrev pub import_result :
    {A P : Type 0} → Option (Outcome (Error A) P) → Outcome (Error A) (Unit {0})
import_result (some (ok message)) = ok tt
import_result (some (err x)) = err x
import_result (some panic) = panic
import_result none = err (connection database_import_channel_is_closed)

module _ {M P : Type 0} (into_proto : DatabaseImportRequest M → P) where
  -- The requests that reach the queue until the loop ends.
  abbrev pub arrived : List (Bool × List (DatabaseImportRequest M)) → List (DatabaseImportRequest M)
  arrived [] = []
  arrived ((true, added) ∷ rounds) = added
  arrived ((false, added) ∷ rounds) = added ++ arrived rounds

  -- What was sent, and what is left.
  abbrev all_of : Dispatched M P → List P
  all_of d = d.messages ++ map into_proto d.waiting

  map-++ :
      (l k : List (DatabaseImportRequest M))
      → map into_proto (l ++ k) ≡ map into_proto l ++ map into_proto k
  map-++ [] k = refl
  map-++ (x ∷ l) k = ap (into_proto x ∷◌) (map-++ l k)

  send_first-all :
      (l : List (DatabaseImportRequest M)) (sent : List P)
      → all_of (send_first into_proto l sent) ≡ sent ++ map into_proto l
  send_first-all [] sent = refl
  send_first-all (x ∷ l) sent = append_assoc sent (into_proto x ∷ []) (map into_proto l)

  all-added :
      (d : Dispatched M P) (l : List (DatabaseImportRequest M))
      → d.messages ++ map into_proto (d.waiting ++ l) ≡ all_of d ++ map into_proto l
  all-added d l =
      rw (map-++ d.waiting l)
        (sym (append_assoc d.messages (map into_proto d.waiting) (map into_proto l)))

  -- The loop sends requests in the order of the queue: what it has sent, followed by what it leaves in
  -- the queue, is what was sent before, what was in the queue, and what was added, each once.
  pub dispatch_loop-order :
      (rounds : List (Bool × List (DatabaseImportRequest M))) (d : Dispatched M P)
      → (dispatch_loop into_proto rounds d).messages
          ++ map into_proto ((dispatch_loop into_proto rounds d).waiting)
        ≡ (d.messages ++ map into_proto d.waiting) ++ map into_proto (arrived rounds)
  unfolding dispatch_loop
  dispatch_loop-order [] d = sym (append-nil (all_of d))
  dispatch_loop-order ((true, added) ∷ rounds) d = all-added d added
  dispatch_loop-order ((false, added) ∷ rounds) d =
      (dispatch_loop-order rounds (send_first into_proto (d.waiting ++ added) d.messages)
        ∙ (rw
            (
              send_first-all (d.waiting ++ added) d.messages,
              all-added d added,
              map-++ added (arrived rounds),
            )
            (append_assoc (all_of d) (map into_proto added) (map into_proto (arrived rounds)))))

  -- Without a shutdown signal, the loop has sent every queued request, in order, after as many rounds as
  -- requests are queued, and later rounds change nothing.
  pub dispatch_loop-all :
      (n : ℕ) (d : Dispatched M P)
      → length d.waiting ≤ n
      → dispatch_loop into_proto (replicate n (false, [])) d
        ≡ record { waiting = []; messages = d.messages ++ map into_proto d.waiting }
  unfolding dispatch_loop
  dispatch_loop-all zero d h = elim (List-cases d.waiting) [
    | inl nothing ↦ rw (nothing, dispatch_loop, append-nil d.messages) refl
    | inr (req, l, some_request) ↦ absurd (let size = ap length some_request in omega arith)
  ]
  dispatch_loop-all (suc n) d h = elim (List-cases d.waiting) [
    | inl nothing ↦
        rw (nothing, dispatch_loop)
          (dispatch_loop-all n (record { waiting = []; messages = d.messages }) (omega arith))
    | inr (req, l, some_request) ↦
        (let size = ap length some_request in
          let sent = d.messages ++ into_proto req ∷ [] in
          rw
            (
              some_request,
              dispatch_loop,
              append-nil l,
              dispatch_loop-all n (record { waiting = l; messages = sent }) (omega arith),
              append_assoc d.messages (into_proto req ∷ []) (map into_proto l),
            )
            refl)
  ]
