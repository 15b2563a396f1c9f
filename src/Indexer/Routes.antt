-- ===== src/Indexer/Routes.antt =====
-- The handlers of the indexer: `WithHandler`, and MarketplaceHandler as a `MsgHandler`
-- (x/indexer/handlers/interface.go).
use Prim.Native.String.{String}
use dwh.Base.{
  ◌≡◌, refl, ap, Bool, false, some, List, [], ◌∷◌, arith, ◌||◌, str_eq, eq_iff, if◌then◌else◌,
}
use dwh.Database.Gorm.{IsLawful}
use dwh.Env.Action.{ok, deref, ◌>>=◌}
use dwh.Env.Calls.{Env, close_sender}
use dwh.Marketplace.Users.{MarketplaceHandler}
use dwh.Marketplace.Handle.{handle}
use dwh.Marketplace.Handle.Log.{handle-log}
use dwh.Marketplace.Schema.{router_keys, setup, reset}
use dwh.Indexer.State.{MsgHandler, Node, Indexer, find_handler, set_handler}
use dwh.Indexer.Messages.Rows.{KeepsLog}
use dwh.Indexer.Lifecycle.{set_handlers, with_handler}

module _ ⦃E : Env⦄ where
  -- `Setup` and `Reset` use the handle at once, so a nil one is dereferenced. `Stop` closes the
  -- sender, and logs its error.
  unfoldable pub marketplace_handler : MarketplaceHandler → MsgHandler
  unfolding handle setup reset router_keys close_sender
  marketplace_handler m = record {
    handle = λ msg events db. handle m msg events db;
    setup = λ db. deref db >>= setup;
    reset = λ db. deref db >>= reset;
    router_keys = router_keys;
    stop = λ w. (ok tt, (close_sender w).1);
  }

  pub marketplace_handler-KeepsLog :
      (L : IsLawful E.gorm) (m : MarketplaceHandler) → KeepsLog (marketplace_handler m)
  unfolding marketplace_handler
  marketplace_handler-KeepsLog L m msg events db w =
      let same = handle-log L m msg events db w in
      (ap (λ l. l.messages) same, ap (λ l. l.txes) same)

-- A route is among some keys.
abbrev pub has_route : String → List String → Bool
has_route route [] = false
has_route route (key ∷ keys) = str_eq key route || has_route route keys

module _ ⦃E : Env⦄ ⦃N : Node⦄ where
  find_handler-set_handler :
      (route key : String) (h : MsgHandler) (l : List (String × MsgHandler))
      → find_handler route (set_handler key h l)
        ≡ (if str_eq key route then some h else find_handler route l)
  find_handler-set_handler route key h [] = ground arith
  find_handler-set_handler route key h ((k, j) ∷ l) = ground (
    arith,
    find_handler-set_handler route key h l,
    eq_iff k key,
    eq_iff k route,
    eq_iff key route,
  )

  find_handler-set_handlers :
      (route : String) (keys : List String) (h : MsgHandler) (l : List (String × MsgHandler))
      → find_handler route (set_handlers keys h l)
        ≡ (if has_route route keys then some h else find_handler route l)
  find_handler-set_handlers route [] h l = refl
  find_handler-set_handlers route (key ∷ keys) h l = ground (
    arith,
    find_handler-set_handlers route keys h (set_handler key h l),
    find_handler-set_handler route key h l,
  )

  -- After `WithHandler`, messages of each of the handler's routes go to it, also where another
  -- handler was registered before, and those of every other route go where they went before.
  pub with_handler_routes :
      (h : MsgHandler) (s : Indexer) (route : String)
      → find_handler route (with_handler h s).handlers
        ≡ (if has_route route h.router_keys then some h else find_handler route s.handlers)
  unfolding with_handler
  with_handler_routes h s route = find_handler-set_handlers route h.router_keys h s.handlers
