-- ===== src/Marketplace/Handle/Log.antt =====
-- `Handle` of x/indexer/handlers/marketplace.go and the rows of transactions and messages.
use Prim.Native.String.{String}
use dwh.Base.{◌≡◌, refl, List, [], ◌∷◌, arith}
use dwh.Common.Metrics.{received, common}
use dwh.Common.Types.{AccAddress}
use dwh.Database.Gorm.{IsLawful}
use dwh.Database.Log.{
  log, create-log, delete-log, update_columns-log, update_sequence-log, append_transfer-log,
}
use dwh.Env.Action.{World}
use dwh.Env.Calls.{Env, Db, increase_counter}
use dwh.Marketplace.Messages.{MsgValue, mint_nft, transfer_fungible_tokens, Msg, Event}
use dwh.Marketplace.Lookup.{get_msg_addresses}
use dwh.Marketplace.Users.{MarketplaceHandler, find_or_create_user, create_users}
use dwh.Marketplace.Users.Cases.{find_or_create_user_cases}
use dwh.Marketplace.Handle.{dispatch, handle}

module _ ⦃E : Env⦄ (L : IsLawful E.gorm) where
  find_or_create_user-log :
      (addr : AccAddress) (db : Db) (w : World)
      → log (find_or_create_user addr db w).1.tables ≡ log w.tables
  find_or_create_user-log addr db w =
      find_or_create_user_cases addr db w (λ r t. log t ≡ log w.tables) (λ s. refl)
        (λ acc _ _ _. create-log L db w.tables _ refl)
        (λ acc x s _. create-log L db w.tables _ refl)
        (λ acc u _ _. update_sequence-log L db w.tables _ _)
        (λ acc u x s _. update_sequence-log L db w.tables _ _)

  create_users-log :
      (addrs : List AccAddress) (db : Db) (w : World)
      → log (create_users addrs db w).1.tables ≡ log w.tables
  unfolding create_users
  create_users-log [] db w = refl
  create_users-log (a ∷ addrs) db w = ground (
    arith,
    find_or_create_user-log a db w,
    create_users-log addrs db (find_or_create_user a db w).1,
  )

  dispatch-log :
      (m : MarketplaceHandler) (value : MsgValue) (kind : String) (events : List Event) (db : Db)
      (w : World)
      → log (dispatch m value kind events db w).1.tables ≡ log w.tables
  unfolding dispatch
  dispatch-log m (mint_nft v) kind events db w =
      grind (arith, create-log L, delete-log L, update_columns-log L)
  dispatch-log m (transfer_fungible_tokens v) kind events db w =
      grind (arith, find_or_create_user-log, append_transfer-log L)
  dispatch-log m value kind events db w =
      grind (arith, create-log L, delete-log L, update_columns-log L)

  -- However a call of `Handle` ends on a lawful database, it has written no transaction and no
  -- message: those rows are the indexer's.
  pub handle-log :
      (m : MarketplaceHandler) (msg : Msg) (events : List Event) (db : Db) (w : World)
      → log (handle m msg events db w).1.tables ≡ log w.tables
  unfolding handle
  handle-log m msg events db w =
      let addrs = get_msg_addresses msg in
      let w1 = (increase_counter received common w).1 in
      ground (
        arith,
        create_users-log addrs db w1,
        dispatch-log m msg.value msg.kind events db (create_users addrs db w1).1,
      )
