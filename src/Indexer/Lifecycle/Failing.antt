-- ===== src/Indexer/Lifecycle/Failing.antt =====
-- `Setup` of x/indexer/indexer.go when the marketplace's handler fails.
use Prim.Native.String.{String}
use dwh.Base.{◌≡◌, true, some, List, ◌∷◌, arith}
use dwh.Env.Action.{ok, err, panic, GoError}
use dwh.Env.Calls.{Env, Db}
use dwh.Marketplace.Users.{MarketplaceHandler}
use dwh.Indexer.State.{MsgHandler, Node, Indexer}
use dwh.Indexer.Lifecycle.{setup_indexer_tables, setup_module, setup_modules, setup}
use dwh.Indexer.Routes.{marketplace_handler}

module _ ⦃E : Env⦄ ⦃N : Node⦄ where
  -- The loop of `Setup` from a failed reset on.
  failed_loop_panics :
      (m : MarketplaceHandler) (route route' : String) (h : MsgHandler)
      (l : List (String × MsgHandler)) (s : Indexer) (e : GoError)
      → (h.reset s.db s.world).0 ≡ err e
      → (setup_modules true ((route, h) ∷ (route', marketplace_handler m) ∷ l) s).0 ≡ panic
  unfolding setup_modules setup_module marketplace_handler
  failed_loop_panics m route route' h l s e failed = ground arith

  -- When the indexer's own tables are set up without an error and then the reset of one route's
  -- handler fails, where the marketplace's handler comes next, `Setup` with a reset panics: the
  -- failed call has left a nil handle, which that handler's reset dereferences.
  pub failed_reset_panics :
      (m : MarketplaceHandler) (route route' : String) (h : MsgHandler)
      (l : List (String × MsgHandler)) (s s1 : Indexer) (db : Db) (e : GoError)
      → s.db ≡ some db
      → s.handlers ≡ (route, h) ∷ (route', marketplace_handler m) ∷ l
      → setup_indexer_tables true s ≡ (ok tt, s1)
      → (h.reset s1.db s1.world).0 ≡ err e
      → (setup true s).0 ≡ panic
  unfolding setup
  failed_reset_panics m route route' h l s s1 db e there routes own failed =
      ground (arith, there, routes, own, failed_loop_panics m route route' h l s1 e failed)
