-- ===== src/Marketplace/View/Trips.antt =====
-- Sequences of messages: what a token looks like after it was put up for sale and taken back.
use Prim.Native.String.{String}
use mathlib.Core.Option
use mathlib.Core.Option.{Option}
use dwh.Base.{◌≡◌, refl, none, some, List, arith, eq_iff, ⊤}
use dwh.Common.Types.{no_coins, zero_time}
use dwh.Common.Rows.{Nft}
use dwh.Database.Tables.{write_all}
use dwh.Database.Gorm.{IsLawful, no_rows}
use dwh.Env.Action.{World, ok}
use dwh.Env.Calls.{Env, Db}
use dwh.Marketplace.Messages.{
  put_nft_on_auction, remove_nft_from_auction, put_nft_on_market, remove_nft_from_market,
  MsgPutNftOnAuction, MsgRemoveNftFromAuction, MsgPutNftOnMarket, MsgRemoveNftFromMarket, Msg,
  Event,
}
use dwh.Marketplace.Users.{MarketplaceHandler}
use dwh.Marketplace.Handle.{handle}
use dwh.Marketplace.View.Rows.{view}
use dwh.Marketplace.View.Step.{writes}
use dwh.Marketplace.View.Refines.{handle-view}

module _ ⦃E : Env⦄ where
  -- A token that nobody sells: no price, no beneficiary, no auction.
  pub record IsIdle (r : Nft) : Type 0 where
    pub no_status : r.status ≡ E.sdk.nft_status_default
    pub no_price : r.price ≡ E.sdk.coins no_coins
    pub no_beneficiary : r.seller_beneficiary ≡ ""
    pub no_buyout : r.buyout_price ≡ E.sdk.coins no_coins
    pub no_opening : r.opening_price ≡ E.sdk.coins no_coins
    pub no_time : r.time_to_sell ≡ zero_time

  -- The token under a key is idle, or there is none.
  abbrev pub AllIdle : Option Nft → Type 0
  AllIdle none = ⊤
  AllIdle (some r) = IsIdle r

  auction_undone :
      (p : MsgPutNftOnAuction) (q : MsgRemoveNftFromAuction) (kind kind' : String)
      (events events' : List Event) (o : Option Nft)
      → AllIdle o
      → Option.map
          (write_all (writes (remove_nft_from_auction q) kind' events' no_rows))
          (Option.map (write_all (writes (put_nft_on_auction p) kind events no_rows)) o)
        ≡ o
  auction_undone p q kind kind' events events' none i = refl
  auction_undone p q kind kind' events events' (some r) i = ground arith

  sale_undone :
      (p : MsgPutNftOnMarket) (q : MsgRemoveNftFromMarket) (kind kind' : String)
      (events events' : List Event) (o : Option Nft)
      → AllIdle o
      → Option.map
          (write_all (writes (remove_nft_from_market q) kind' events' no_rows))
          (Option.map (write_all (writes (put_nft_on_market p) kind events no_rows)) o)
        ≡ o
  sale_undone p q kind kind' events events' none i = refl
  sale_undone p q kind kind' events events' (some r) i = ground arith

module _ ⦃E : Env⦄ (m : MarketplaceHandler) where
  -- On a lawful database, a token that is put on auction and taken back off, by two calls of
  -- `Handle` that succeed, is as it was, if nobody was selling it before; and so is every other
  -- token.
  pub auction_round_trip :
      IsLawful E.gorm
      → (put back : Msg) (p : MsgPutNftOnAuction) (q : MsgRemoveNftFromAuction)
        (events events' : List Event) (db db' : Db) (w w1 w2 : World) (j : String)
      → put.value ≡ put_nft_on_auction p
      → back.value ≡ remove_nft_from_auction q
      → q.token_id ≡ p.token_id
      → AllIdle (view p.token_id w.tables.nfts)
      → handle m put events db w ≡ (ok tt, w1)
      → handle m back events' db' w1 ≡ (ok tt, w2)
      → view j w2.tables.nfts ≡ view j w.tables.nfts
  auction_round_trip L put back p q events events' db db' w w1 w2 j hp hq same idle h1 h2 =
      let first = handle-view m put events db w L w1 j (rw hp refl) h1 in
      let second = handle-view m back events' db' w1 L w2 j (rw hq refl) h2 in
      let undone =
        auction_undone p q put.kind back.kind events events' (view p.token_id w.tables.nfts) idle in
      ground (arith, first, second, undone, eq_iff p.token_id j, eq_iff q.token_id j)

  -- On a lawful database, a token that is put on the market and taken back off, by two calls of
  -- `Handle` that succeed, is as it was, if nobody was selling it before; and so is every other
  -- token.
  pub sale_round_trip :
      IsLawful E.gorm
      → (put back : Msg) (p : MsgPutNftOnMarket) (q : MsgRemoveNftFromMarket)
        (events events' : List Event) (db db' : Db) (w w1 w2 : World) (j : String)
      → put.value ≡ put_nft_on_market p
      → back.value ≡ remove_nft_from_market q
      → q.token_id ≡ p.token_id
      → AllIdle (view p.token_id w.tables.nfts)
      → handle m put events db w ≡ (ok tt, w1)
      → handle m back events' db' w1 ≡ (ok tt, w2)
      → view j w2.tables.nfts ≡ view j w.tables.nfts
  sale_round_trip L put back p q events events' db db' w w1 w2 j hp hq same idle h1 h2 =
      let first = handle-view m put events db w L w1 j (rw hp refl) h1 in
      let second = handle-view m back events' db' w1 L w2 j (rw hq refl) h2 in
      let undone =
        sale_undone p q put.kind back.kind events events' (view p.token_id w.tables.nfts) idle in
      ground (arith, first, second, undone, eq_iff p.token_id j, eq_iff q.token_id j)
