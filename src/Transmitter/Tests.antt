-- ===== src/Transmitter/Tests.antt =====
-- Concrete runs of the dispatch loop: a request is a number, its own length and identifier.
use typedb_driver.Common.{ℕ, ◌≡◌, refl, Option, none, some, List, [], ◌∷◌, All, nat_eq}
use typedb_driver.Transmitter.{
  ResponseSink, one_shot, streamed, Dispatcher, flush_pending, accept, drain, sync_dispatch_loop,
  idle,
}
use typedb_driver.Transmitter.Dispatch.{
  concat, IsSendable, sync_dispatch_loop-concat, sync_dispatch_loop-IsSendable,
}

abbrev same : ℕ → ℕ
same r = r

abbrev two_rounds : List (List (ℕ × Option ResponseSink))
two_rounds =
    ((600_000, some (one_shot 1)) ∷ (300_000, none) ∷ (200_000, some (streamed 2)) ∷ [])
    ∷ ((2_000_000, none) ∷ [])
    ∷ []

abbrev end_state : Dispatcher ℕ ℕ
unfolding sync_dispatch_loop
end_state = sync_dispatch_loop same same two_rounds (idle [])

-- An empty message goes before a request that is too long by itself.
batches :
    end_state.messages ≡ (600_000 ∷ 300_000 ∷ []) ∷ (200_000 ∷ []) ∷ [] ∷ (2_000_000 ∷ []) ∷ []
unfolding sync_dispatch_loop drain flush_pending accept
batches = refl

sync_dispatch_loop-concat_example :
    concat (sync_dispatch_loop same same two_rounds (idle [])).messages
    ≡ 600_000 ∷ 300_000 ∷ 200_000 ∷ 2_000_000 ∷ []
sync_dispatch_loop-concat_example = sync_dispatch_loop-concat same same two_rounds []

sync_dispatch_loop-IsSendable_example :
    All (IsSendable same same) (sync_dispatch_loop same same two_rounds (idle [])).messages
sync_dispatch_loop-IsSendable_example = sync_dispatch_loop-IsSendable same same two_rounds []
