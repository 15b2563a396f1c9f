-- ===== src/Marketplace/View/Step.antt =====
-- The step on the view of a token that each message of `Handle` stands for.
use Prim.Native.String.{String}
use mathlib.Core.Option
use mathlib.Core.Option.{Option}
use dwh.Base.{◌≡◌, refl, none, some, List, [], ◌∷◌, arith, str_eq, true, false, Bool, if◌then◌else◌}
use dwh.Common.Types.{no_coins, zero_time}
use dwh.Common.Rows.{Nft, Offer}
use dwh.Database.Tables.{
  Tables, Column, token_uri, owner_address, price, seller_beneficiary, buyout_price, opening_price,
  status, time_to_sell, write_all,
}
use dwh.Database.Frame.{
  update_columns-nfts, delete_bids-nfts, delete_offers-nfts, create_bid-nfts, create_offer-nfts,
  create_token-nfts, append_transfer-nfts,
}
use dwh.Database.Gorm.{IsLawful, Scan, found, no_rows}
use dwh.Env.Action.{World, ok}
use dwh.Env.Calls.{Env, Db}
use dwh.Marketplace.Messages.{
  MsgValue, mint_nft, burn_nft, edit_nft_metadata, transfer_nft, put_nft_on_market,
  remove_nft_from_market, buy_nft, put_nft_on_auction, remove_nft_from_auction, make_bid_on_auction,
  buyout_on_auction, finish_auction, accept_offer, transfer_fungible_tokens, Event,
}
use dwh.Marketplace.Lookup.{get_event_attr}
use dwh.Marketplace.Users.{MarketplaceHandler}
use dwh.Marketplace.Users.Keeps.{find_or_create_user-nfts}
use dwh.Marketplace.Handle.{dispatch}
use dwh.Marketplace.View.Rows.{view, view-update}

module _ ⦃E : Env⦄ where
  -- A token that is for sale by nobody: its status and its auction.
  abbrev off_auction : List Column
  off_auction =
      status E.sdk.nft_status_default
      ∷ buyout_price (E.sdk.coins no_coins)
      ∷ opening_price (E.sdk.coins no_coins)
      ∷ seller_beneficiary ""
      ∷ time_to_sell zero_time
      ∷ []

  -- The token that a message is about, with the columns that it writes: `events` decide about a
  -- buyout and the new owner, `offer` is what the database has under the message's offer.
  abbrev pub writes : MsgValue → String → List Event → Scan Offer → List Column
  writes (edit_nft_metadata v) kind events offer = token_uri v.token_uri ∷ []
  writes (transfer_nft v) kind events offer = owner_address (E.sdk.address v.recipient) ∷ []
  writes (put_nft_on_market v) kind events offer =
      status E.sdk.nft_status_on_market
      ∷ price (E.sdk.coins v.price)
      ∷ seller_beneficiary (E.sdk.address v.beneficiary)
      ∷ []
  writes (remove_nft_from_market v) kind events offer =
      status E.sdk.nft_status_default ∷ seller_beneficiary "" ∷ price (E.sdk.coins no_coins) ∷ []
  writes (buy_nft v) kind events offer =
      status E.sdk.nft_status_default
      ∷ owner_address (E.sdk.address v.buyer)
      ∷ price (E.sdk.coins no_coins)
      ∷ []
  writes (put_nft_on_auction v) kind events offer =
      status E.sdk.nft_status_on_auction
      ∷ buyout_price (E.sdk.coins v.buyout_price)
      ∷ opening_price (E.sdk.coins v.opening_price)
      ∷ seller_beneficiary (E.sdk.address v.beneficiary)
      ∷ time_to_sell v.time_to_sell
      ∷ []
  writes (remove_nft_from_auction v) kind events offer = off_auction
  writes (make_bid_on_auction v) kind events offer =
      elim (get_event_attr events kind E.sdk.attribute_key_is_buyout) [
        | some _ ↦ owner_address (E.sdk.address v.bidder) ∷ off_auction
        | none ↦ []
      ]
  writes (buyout_on_auction v) kind events offer =
      owner_address (E.sdk.address v.buyer) ∷ off_auction
  writes (finish_auction v) kind events offer =
      elim (get_event_attr events kind E.sdk.attribute_key_owner) [
        | some owner ↦ owner_address owner ∷ off_auction
        | none ↦ []
      ]
  writes (accept_offer v) kind events offer = elim offer [
    | found o ↦ owner_address o.buyer ∷ []
    | _ ↦ []
  ]
  writes _ kind events offer = []

  abbrev pub token_of : MsgValue → String
  token_of (mint_nft v) = v.id
  token_of (burn_nft v) = v.id
  token_of (edit_nft_metadata v) = v.id
  token_of (transfer_nft v) = v.id
  token_of (put_nft_on_market v) = v.token_id
  token_of (remove_nft_from_market v) = v.token_id
  token_of (buy_nft v) = v.token_id
  token_of (put_nft_on_auction v) = v.token_id
  token_of (remove_nft_from_auction v) = v.token_id
  token_of (make_bid_on_auction v) = v.token_id
  token_of (buyout_on_auction v) = v.token_id
  token_of (finish_auction v) = v.token_id
  token_of (accept_offer v) = v.token_id
  token_of _ = ""

-- The messages that neither make nor burn a token.
abbrev pub is_update : MsgValue → Bool
is_update (mint_nft v) = false
is_update (burn_nft v) = false
is_update _ = true

module _ ⦃E : Env⦄ where
  -- The offer that an acceptance reads, when it reads it.
  abbrev pub offer_of : MsgValue → Db → Tables → Scan Offer
  offer_of (accept_offer v) db t = E.gorm.scan_offer v.token_id v.offer_id db t
  offer_of _ db t = no_rows

map-write_nothing : (o : Option Nft) → Option.map (write_all []) o ≡ o
map-write_nothing none = refl
map-write_nothing (some r) = refl

module _ ⦃E : Env⦄ (L : IsLawful E.gorm) (m : MarketplaceHandler) where
  pub dispatch-view :
      (value : MsgValue) (kind : String) (events : List Event) (db : Db) (w w' : World) (j : String)
      → is_update value ≡ true
      → dispatch m value kind events db w ≡ (ok tt, w')
      → let seen = view j w.tables.nfts in
        let columns = writes value kind events (offer_of value db w.tables) in
        view j w'.tables.nfts
        ≡ (if str_eq (token_of value) j then Option.map (write_all columns) seen else seen)
  unfolding dispatch
  dispatch-view (transfer_nft v) kind events db w w' j u h =
      grind (arith, update_columns-nfts L, view-update)
  dispatch-view (accept_offer v) kind events db w w' j u h =
      grind (arith, update_columns-nfts L, delete_offers-nfts L, view-update)
  dispatch-view (transfer_fungible_tokens v) kind events db w w' j u h =
      grind (arith, find_or_create_user-nfts L, append_transfer-nfts L, map-write_nothing)
  dispatch-view value kind events db w w' j u h = grind (
    arith,
    update_columns-nfts L,
    delete_bids-nfts L,
    delete_offers-nfts L,
    create_bid-nfts L,
    create_offer-nfts L,
    create_token-nfts L,
    view-update,
    map-write_nothing,
  )
