-- ===== src/Tests/Safety.antt =====
-- A run of a block with the marketplace's handler.
use mathlib.Core.Path.{subst}
use dwh.Base.{◌≡◌, ◌≢◌, [], ◌∷◌, All}
use dwh.Database.Memory.{no_faults, memory-IsLawful}
use dwh.Env.Action.{panic}
use dwh.Marketplace.Handle.Panics.{handle-ne-panic}
use dwh.Indexer.State.{MsgHandler}
use dwh.Indexer.Blocks.{process_txs}
use dwh.Indexer.Blocks.Safety.{IsSafe, AllSafe, Sound, process_txs-Sound}
use dwh.Indexer.Routes.{marketplace_handler}
use dwh.Tests.Data.{memory_env, test_node, test_handler, test_indexer, put_on_auction, stranger}
use dwh.Tests.Messages.{honest, has_tokens}

put-IsSafe : IsSafe ⦃E = memory_env⦄ ⦃N = test_node⦄ test_indexer.handlers put_on_auction
unfolding marketplace_handler
put-IsSafe h e events db w =
    let same : marketplace_handler ⦃E = memory_env⦄ test_handler ≡ h = cc in
    subst (λ (j : MsgHandler ⦃E = memory_env⦄). (j.handle put_on_auction events db w).0 ≢ panic)
      same
      (handle-ne-panic ⦃E = memory_env⦄ test_handler (memory-IsLawful no_faults) has_tokens honest
        put_on_auction events db w tt)

test_indexer-AllSafe : AllSafe ⦃E = memory_env⦄ ⦃N = test_node⦄ test_indexer.handlers
test_indexer-AllSafe bytes msgs e =
    let same : (put_on_auction ∷ stranger ∷ []) ≡ msgs = cc in
    subst (All (IsSafe ⦃E = memory_env⦄ ⦃N = test_node⦄ test_indexer.handlers)) same
      (put-IsSafe, ((λ h f events db w. cc), tt))

process_txs-Sound_example :
    Sound ⦃E = memory_env⦄ ⦃N = test_node⦄ test_indexer.handlers
      (process_txs ⦃E = memory_env⦄ ⦃N = test_node⦄ ((0 ∷ []) ∷ (1 ∷ []) ∷ []) test_indexer)
process_txs-Sound_example =
    process_txs-Sound ⦃E = memory_env⦄ ⦃N = test_node⦄ ((0 ∷ []) ∷ (1 ∷ []) ∷ []) test_indexer
      test_indexer-AllSafe (λ e. cc)
