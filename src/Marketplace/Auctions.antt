-- ===== src/Marketplace/Auctions.antt =====
-- The cases of `Handle` for auctions.
use Prim.Native.String.{String}
use dwh.Base.{none, some, List, [], ◌∷◌, ⊤}
use dwh.Common.Types.{no_coins, zero_time}
use dwh.Common.Rows.{AuctionBid, new_model}
use dwh.Common.Metrics.{received, accepted}
use dwh.Database.Tables.{
  Row, Deletion, Column, owner_address, seller_beneficiary, buyout_price, opening_price, status,
  time_to_sell,
}
use dwh.Env.Action.{◌>>=◌, ◌>>◌, Action, fail}
use dwh.Env.Calls.{Env, Db, check, create, update_columns, delete, increase_counter}
use dwh.Marketplace.Messages.{
  MsgPutNftOnAuction, MsgRemoveNftFromAuction, MsgMakeBidOnAuction, MsgBuyoutOnAuction,
  MsgFinishAuction, Event,
}
use dwh.Marketplace.Lookup.{get_event_attr}
use dwh.Marketplace.Users.{MarketplaceHandler}
use dwh.Marketplace.Tokens.{query_and_send}

module _ ⦃E : Env⦄ where
  -- The columns that the end of an auction resets, written out in each of its four cases.
  abbrev pub reset_auction : List Column
  reset_auction =
      status E.sdk.nft_status_default
      ∷ buyout_price (E.sdk.coins no_coins)
      ∷ opening_price (E.sdk.coins no_coins)
      ∷ seller_beneficiary ""
      ∷ time_to_sell zero_time
      ∷ []

  unfoldable pub handle_put_nft_on_auction : MsgPutNftOnAuction → Db → Action ⊤
  unfolding increase_counter
  handle_put_nft_on_auction value db = do
    increase_counter received "MsgPutNFTOnAuction"
    db' ←
        update_columns value.token_id
          (status E.sdk.nft_status_on_auction
            ∷ buyout_price (E.sdk.coins value.buyout_price)
            ∷ opening_price (E.sdk.coins value.opening_price)
            ∷ seller_beneficiary (E.sdk.address value.beneficiary)
            ∷ time_to_sell value.time_to_sell
            ∷ [])
          db
    check db' "failed to update nft (MsgPutNFTOnAuction): "
    increase_counter accepted "MsgPutNFTOnAuction"

  -- The deletion of the bids is made on the new handle and its own handle is dropped.
  unfoldable pub handle_remove_nft_from_auction : MsgRemoveNftFromAuction → Db → Action ⊤
  unfolding increase_counter
  handle_remove_nft_from_auction value db = do
    increase_counter received "MsgRemoveFromAuction"
    db' ← update_columns value.token_id reset_auction db
    check db' "failed to update nft (MsgRemoveNFTFromAuction): "
    _ ← delete (Deletion.bids value.token_id) db'
    check db' "failed to delete bids (MsgRemoveNFTFromAuction): "
    increase_counter accepted "MsgRemoveFromAuction"

  -- The branch of `isBuyout`. Here the handle of the deletion is kept.
  unfoldable pub buy_out : MsgMakeBidOnAuction → Db → Action ⊤
  buy_out value db = do
    db' ←
        update_columns value.token_id (owner_address (E.sdk.address value.bidder) ∷ reset_auction)
          db
    check db' "failed to update token (MsgMakeBidOnAuction): "
    db'' ← delete (Deletion.bids value.token_id) db'
    check db'' "failed to delete auction bids (MsgMakeBidOnAuction): "

  unfoldable pub add_bid : MsgMakeBidOnAuction → Db → Action ⊤
  add_bid value db = do
    let bid : AuctionBid = record {
      model = new_model;
      bidder_address = E.sdk.address value.bidder;
      bidder_beneficiary = E.sdk.address value.buyer_beneficiary;
      beneficiary_commission = value.beneficiary_commission;
      price = E.sdk.coins value.bid;
      token_id = value.token_id;
    }
    db' ← create (Row.auction_bid bid) db
    check db' "failed to add auction bid (MsgMakeBidOnAuction): "

  -- `kind` is `msg.Type()`. Only the presence of the attribute counts, not its value.
  unfoldable pub handle_make_bid_on_auction :
      MsgMakeBidOnAuction → String → List Event → Db → Action ⊤
  unfolding increase_counter buy_out add_bid
  handle_make_bid_on_auction value kind events db = do
    increase_counter received "MsgMakeBidOnAuction"
    elim (get_event_attr events kind E.sdk.attribute_key_is_buyout) [
      | some _ ↦ buy_out value db
      | none ↦ add_bid value db
    ]
    increase_counter accepted "MsgMakeBidOnAuction"

  module _ (m : MarketplaceHandler) where
    unfoldable pub handle_buyout_on_auction : MsgBuyoutOnAuction → Db → Action ⊤
    unfolding increase_counter query_and_send
    handle_buyout_on_auction value db = do
      increase_counter received "MsgBuyoutOnAuction"
      db' ←
          update_columns value.token_id (owner_address (E.sdk.address value.buyer) ∷ reset_auction)
            db
      check db' "failed to transfer update token (MsgBuyoutOnAuction): "
      _ ← delete (Deletion.bids value.token_id) db'
      check db' "failed to delete auction bids (MsgBuyoutOnAuction): "
      query_and_send m value.token_id "MsgBuyoutOnAuction" (λ _. E.sdk.address value.buyer)
      increase_counter accepted "MsgBuyoutOnAuction"

    -- What follows once the event has named the new owner.
    unfoldable pub finish_auction : String → MsgFinishAuction → Db → Action ⊤
    unfolding increase_counter query_and_send
    finish_auction new_owner value db = do
      db' ← update_columns value.token_id (owner_address new_owner ∷ reset_auction) db
      check db' "failed to update nft (MsgFinishAuction): "
      _ ← delete (Deletion.bids value.token_id) db'
      query_and_send m value.token_id "MsgFinishAuction" (λ _. new_owner)
      increase_counter accepted "MsgFinishAuction"

    unfoldable pub handle_finish_auction : MsgFinishAuction → String → List Event → Db → Action ⊤
    unfolding increase_counter finish_auction
    handle_finish_auction value kind events db = do
      increase_counter received "MsgFinishAuction"
      elim (get_event_attr events kind E.sdk.attribute_key_owner) [
        | none ↦ fail "failed to find new owner"
        | some new_owner ↦ finish_auction new_owner value db
      ]
