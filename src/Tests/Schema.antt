-- ===== src/Tests/Schema.antt =====
-- Runs of the schema operations of the handler.
use dwh.Base.{true, ⊤, ◌≡◌, refl, none, [], ◌∷◌}
use dwh.Database.Memory.{memory-IsLawfulSchema}
use dwh.Database.Schema.{contains}
use dwh.Database.Tables.{Table, nfts, users, auction_bids, offers}
use dwh.Marketplace.Schema.{key, reset, drop_tables, drop_table}
use dwh.Env.Action.{Outcome, ok, panic, errorf}
use dwh.Indexer.Lifecycle
use dwh.Indexer.Lifecycle.{setup_indexer_tables, drop_own_tables}
use dwh.Indexer.Lifecycle.Failing.{failed_reset_panics}
use dwh.Indexer.Lifecycle.Preparing.{Ready}
use dwh.Indexer.Lifecycle.Succeeding.{setup_succeeds}
use dwh.Indexer.Routes.{marketplace_handler}
use dwh.Indexer.State.{Indexer}
use dwh.Tests.Data.{test_node, test_handler, bare_indexer, memory_env, one_token}

-- The two routes of the marketplace's handler.
abbrev two_routes : Indexer ⦃E = memory_env⦄ ⦃N = test_node⦄
two_routes = record bare_indexer {
  world = record one_token {
    tables = record (one_token.tables) {
      existing = nfts ∷ users ∷ auction_bids ∷ [];
      foreign_keys = key nfts "owner_address" users ∷ key auction_bids "token_id" nfts ∷ [];
    };
  };
  handlers =
      ("marketplace", marketplace_handler ⦃E = memory_env⦄ test_handler)
      ∷ ("nft", marketplace_handler ⦃E = memory_env⦄ test_handler)
      ∷ [];
}

setup_succeeds_example :
    (s : Indexer ⦃E = memory_env⦄ ⦃N = test_node⦄) × (Lifecycle.setup ⦃E = memory_env⦄
        ⦃N = test_node⦄ true two_routes
      ≡ (ok tt, s))
    × Ready ⦃E = memory_env⦄ ⦃N = test_node⦄ s
    × ((b : Table) → contains b s.world.tables.existing ≡ true)
setup_succeeds_example =
    setup_succeeds ⦃E = memory_env⦄ ⦃N = test_node⦄ memory-IsLawfulSchema test_handler true
      "marketplace" (("nft", marketplace_handler ⦃E = memory_env⦄ test_handler) ∷ []) two_routes
      refl (refl, tt)
      (
        (none, refl, refl),
        (refl, (refl, tt)),
        (refl, (refl, (refl, (refl, (refl, (refl, (refl, (refl, tt)))))))),
      )

-- A foreign key of some other table refers to the offers, so they cannot be dropped.
abbrev held_offers : Indexer ⦃E = memory_env⦄ ⦃N = test_node⦄
held_offers = record two_routes {
  world = record one_token {
    tables = record (one_token.tables) {
      existing = nfts ∷ users ∷ auction_bids ∷ offers ∷ [];
      foreign_keys = key users "offer" offers ∷ [];
    };
  };
}

abbrev own_tables : Outcome ⊤ × Indexer ⦃E = memory_env⦄ ⦃N = test_node⦄
own_tables = setup_indexer_tables ⦃E = memory_env⦄ ⦃N = test_node⦄ true held_offers

failed_reset_panics_example :
    (Lifecycle.setup ⦃E = memory_env⦄ ⦃N = test_node⦄ true held_offers).0 ≡ panic
unfolding setup_indexer_tables drop_own_tables marketplace_handler reset drop_tables drop_table
failed_reset_panics_example =
    failed_reset_panics ⦃E = memory_env⦄ ⦃N = test_node⦄ test_handler "marketplace" "nft"
      (marketplace_handler ⦃E = memory_env⦄ test_handler) [] held_offers own_tables.1 none
      (errorf "failed to drop table Offers: fault") refl refl refl refl
