-- ===== src/Marketplace/Handle/Counting.antt =====
-- The counter of messages under `Handle`: what is counted as received and as accepted.
use Prim.Native.String.{String}
use mathlib.Core.List.{append-nil, append_assoc}
use dwh.Base.{◌≡◌, none, List, [], ◌∷◌, ◌++◌, map, arith, ⊤}
use dwh.Common.Metrics.{received, accepted, common}
use dwh.Env.Action.{World, Outcome, ok, err, panic}
use dwh.Env.Calls.{Env, Db, counted, increase_counter}
use dwh.Marketplace.Messages.{
  MsgValue, mint_nft, burn_nft, edit_nft_metadata, transfer_nft, put_nft_on_market,
  remove_nft_from_market, buy_nft, put_nft_on_auction, remove_nft_from_auction, make_bid_on_auction,
  buyout_on_auction, finish_auction, make_offer, accept_offer, remove_offer, create_fungible_token,
  transfer_fungible_tokens, other, Msg, Event,
}
use dwh.Marketplace.Lookup.{get_msg_addresses}
use dwh.Marketplace.Users.{MarketplaceHandler, create_users}
use dwh.Marketplace.Users.Frame.{find_or_create_user-counters, create_users-counters}
use dwh.Marketplace.Handle.{dispatch, handle}

-- The label of a message's type, where the handler knows the type.
abbrev pub labels : MsgValue → List String
labels (mint_nft _) = "MsgMintNFT" ∷ []
labels (burn_nft _) = "MsgBurnNFT" ∷ []
labels (edit_nft_metadata _) = "MsgEditNFTMetadata" ∷ []
labels (transfer_nft _) = "MsgTransferNFT" ∷ []
labels (put_nft_on_market _) = "MsgPutNFTOnMarket" ∷ []
labels (remove_nft_from_market _) = "MsgRemoveNFTFromMarket" ∷ []
labels (buy_nft _) = "MsgBuyNFT" ∷ []
labels (put_nft_on_auction _) = "MsgPutNFTOnAuction" ∷ []
labels (remove_nft_from_auction _) = "MsgRemoveFromAuction" ∷ []
labels (make_bid_on_auction _) = "MsgMakeBidOnAuction" ∷ []
labels (buyout_on_auction _) = "MsgBuyoutOnAuction" ∷ []
labels (finish_auction _) = "MsgFinishAuction" ∷ []
labels (make_offer _) = "MsgMakeOffer" ∷ []
labels (accept_offer _) = "MsgAcceptOffer" ∷ []
labels (remove_offer _) = "MsgRemoveOffer" ∷ []
labels (create_fungible_token _) = "MsgCreateFungibleToken" ∷ []
labels (transfer_fungible_tokens _) = "MsgTransferFungibleTokens" ∷ []
labels other = []

abbrev pub increments : String → List String → List (String × String)
increments status l = map (λ t. (status, t)) l

-- What follows the outcome of the case of a message: the increments of the accepted messages, under
-- these labels, where it ended without an error.
abbrev pub accepted_if : Outcome ⊤ → List String → List (String × String)
accepted_if (ok _) l = increments accepted l
accepted_if (err _) l = []
accepted_if panic l = []

-- The increments after the users of a message have been dealt with, from the outcome of that.
abbrev pub counted_types : Outcome ⊤ → Outcome ⊤ → MsgValue → List (String × String)
counted_types (ok _) r v =
    increments received (labels v) ++ accepted_if r (labels v ++ (common ∷ []))
counted_types (err _) r v = []
counted_types panic r v = []

module _ ⦃E : Env⦄ (m : MarketplaceHandler) (h : (s t : String) → E.metric_error s t ≡ none) where
  dispatch-counters :
      (value : MsgValue) (kind : String) (events : List Event) (db : Db) (w : World)
      → let (r, w') = dispatch m value kind events db w in
        w'.counters
        ≡ w.counters ++ (increments received (labels value) ++ accepted_if r (labels value))
  unfolding dispatch counted
  dispatch-counters (transfer_fungible_tokens v) kind events db w =
      grind (arith, h, append-nil, append_assoc, find_or_create_user-counters)
  dispatch-counters value kind events db w = grind (arith, h, append-nil, append_assoc)

  -- Where the counters can be had, a call of `Handle` makes exactly these increments, in this
  -- order: received, under Common; where the users of the message could be dealt with, received
  -- under the label of the message's type; and where the call returns without an error, accepted
  -- under that label and under Common. A type that the handler does not know has no label of its
  -- own.
  pub handle_counts :
      (msg : Msg) (events : List Event) (db : Db) (w : World)
      → let (r, w') = handle m msg events db w in
        let w1 = (increase_counter received common w).1 in
        let users = (create_users (get_msg_addresses msg) db w1).0 in
        w'.counters ≡ w.counters ++ ((received, common) ∷ counted_types users r msg.value)
  unfolding handle counted
  handle_counts msg events db w =
      let addrs = get_msg_addresses msg in
      let w1 = (increase_counter received common w).1 in
      let w2 = (create_users addrs db w1).1 in
      grind (
        arith,
        h,
        append-nil,
        append_assoc,
        create_users-counters,
        dispatch-counters msg.value msg.kind events db w2,
      )
