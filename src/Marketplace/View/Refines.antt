-- ===== src/Marketplace/View/Refines.antt =====
-- `Handle` against the step on the view of a token.
use Prim.Native.String.{String}
use mathlib.Core.Option
use dwh.Base.{◌≡◌, List, arith, str_eq, true, inl, inr, if◌then◌else◌}
use dwh.Common.Metrics.{received, common}
use dwh.Database.Tables.{write_all}
use dwh.Database.Gorm.{IsLawful}
use dwh.Env.Action.{World, ok, Outcome-cases}
use dwh.Env.Calls.{Env, Db, increase_counter}
use dwh.Marketplace.Messages.{Msg, Event}
use dwh.Marketplace.Lookup.{get_msg_addresses}
use dwh.Marketplace.Users.{MarketplaceHandler, create_users}
use dwh.Marketplace.Users.Keeps.{create_users-nfts}
use dwh.Marketplace.Handle.{dispatch, handle}
use dwh.Marketplace.View.Rows.{view}
use dwh.Marketplace.View.Step.{writes, token_of, is_update, offer_of, dispatch-view}

module _ ⦃E : Env⦄ (m : MarketplaceHandler) (msg : Msg) (events : List Event) (db : Db)
    (w : World) where
  -- The world in which the switch runs: the message is counted and its users are there.
  abbrev pub prepared : World
  prepared = (create_users (get_msg_addresses msg) db (increase_counter received common w).1).1

  -- A call that succeeds is a switch that succeeded in the prepared world, up to the counters.
  pub handle-ok :
      (w' : World)
      → handle m msg events db w ≡ (ok tt, w')
      → (w1 : World) × (dispatch m msg.value msg.kind events db prepared ≡ (ok tt, w1))
        × (w1.tables ≡ w'.tables)
  unfolding handle
  handle-ok w' h =
      elim (Outcome-cases
        (create_users (get_msg_addresses msg) db (increase_counter received common w).1).0) [
          | inl (x, e) ↦
              ((dispatch m msg.value msg.kind events db prepared).1, ground arith, ground arith)
          | inr (inl (x, e)) ↦ absurd (ground arith)
          | inr (inr e) ↦ absurd (ground arith)
        ]

  -- A call of `Handle` that succeeds, on a message that neither makes nor burns a token and on a
  -- lawful database, writes to the view of the token that the message names exactly the columns
  -- that belong to the message, and leaves the view of every other token as it was.
  pub handle-view :
      IsLawful E.gorm
      → (w' : World) (j : String) → is_update msg.value ≡ true
      → handle m msg events db w ≡ (ok tt, w')
      → let columns = writes msg.value msg.kind events (offer_of msg.value db prepared.tables) in
        let seen = view j w.tables.nfts in
        view j w'.tables.nfts
        ≡ (if str_eq (token_of msg.value) j then Option.map (write_all columns) seen else seen)
  unfolding increase_counter
  handle-view L w' j u h =
      let (w1, done, same) = handle-ok w' h in
      grind (
        arith,
        dispatch-view L m msg.value msg.kind events db prepared w1 j u done,
        create_users-nfts L (get_msg_addresses msg) db (increase_counter received common w).1,
      )
