-- ===== src/Marketplace/Handle.antt =====
-- `MarketplaceHandler.Handle`: create the users, dispatch on the type of the message, count.
pub mod Counting
pub mod Panics
pub mod Sending
pub mod Log
use Prim.Native.String.{String}
use dwh.Base.{List, ⊤}
use dwh.Common.Metrics.{received, accepted, common}
use dwh.Env.Action.{◌>>◌, Action, pure}
use dwh.Env.Calls.{Env, Db, increase_counter}
use dwh.Marketplace.Messages.{
  MsgValue, mint_nft, burn_nft, edit_nft_metadata, transfer_nft, put_nft_on_market,
  remove_nft_from_market, buy_nft, put_nft_on_auction, remove_nft_from_auction, make_bid_on_auction,
  buyout_on_auction, finish_auction, make_offer, accept_offer, remove_offer, create_fungible_token,
  transfer_fungible_tokens, other, Msg, Event,
}
use dwh.Marketplace.Lookup.{get_msg_addresses}
use dwh.Marketplace.Users.{MarketplaceHandler, create_users}
use dwh.Marketplace.Tokens.{
  handle_mint_nft, handle_burn_nft, handle_edit_nft_metadata, handle_transfer_nft,
  handle_put_nft_on_market, handle_remove_nft_from_market, handle_buy_nft,
}
use dwh.Marketplace.Auctions.{
  handle_put_nft_on_auction, handle_remove_nft_from_auction, handle_make_bid_on_auction,
  handle_buyout_on_auction, handle_finish_auction,
}
use dwh.Marketplace.Trades.{
  handle_make_offer, handle_accept_offer, handle_remove_offer, handle_create_fungible_token,
  handle_transfer_fungible_tokens,
}

module _ ⦃E : Env⦄ (m : MarketplaceHandler) where
  -- The type switch.
  unfoldable pub dispatch : MsgValue → String → List Event → Db → Action ⊤
  unfolding handle_mint_nft handle_burn_nft handle_edit_nft_metadata handle_transfer_nft
      handle_put_nft_on_market handle_remove_nft_from_market handle_buy_nft
      handle_put_nft_on_auction handle_remove_nft_from_auction handle_make_bid_on_auction
      handle_buyout_on_auction handle_finish_auction handle_make_offer handle_accept_offer
      handle_remove_offer handle_create_fungible_token handle_transfer_fungible_tokens
  dispatch (mint_nft v) kind events db = handle_mint_nft m v db
  dispatch (burn_nft v) kind events db = handle_burn_nft m v db
  dispatch (edit_nft_metadata v) kind events db = handle_edit_nft_metadata m v db
  dispatch (transfer_nft v) kind events db = handle_transfer_nft m v db
  dispatch (put_nft_on_market v) kind events db = handle_put_nft_on_market m v db
  dispatch (remove_nft_from_market v) kind events db = handle_remove_nft_from_market m v db
  dispatch (buy_nft v) kind events db = handle_buy_nft m v db
  dispatch (put_nft_on_auction v) kind events db = handle_put_nft_on_auction v db
  dispatch (remove_nft_from_auction v) kind events db = handle_remove_nft_from_auction v db
  dispatch (make_bid_on_auction v) kind events db = handle_make_bid_on_auction v kind events db
  dispatch (buyout_on_auction v) kind events db = handle_buyout_on_auction m v db
  dispatch (finish_auction v) kind events db = handle_finish_auction m v kind events db
  dispatch (make_offer v) kind events db = handle_make_offer v kind events db
  dispatch (accept_offer v) kind events db = handle_accept_offer m v db
  dispatch (remove_offer v) kind events db = handle_remove_offer m v db
  dispatch (create_fungible_token v) kind events db = handle_create_fungible_token v db
  dispatch (transfer_fungible_tokens v) kind events db = handle_transfer_fungible_tokens v db
  dispatch other kind events db = pure tt

  -- `getMsgAddresses` returns no error.
  unfoldable pub handle : Msg → List Event → Db → Action ⊤
  unfolding increase_counter
  handle msg events db = do
    increase_counter received common
    create_users (get_msg_addresses msg) db
    dispatch msg.value msg.kind events db
    increase_counter accepted common
