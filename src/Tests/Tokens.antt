-- ===== src/Tests/Tokens.antt =====
-- Runs of the cases of `Handle` on a world with one token, which has one bid.
use dwh.Base.{true, false, ◌≡◌, ◌≢◌, refl, none, some, List, [], ◌∷◌, All}
use dwh.Database.Memory.{Faults, no_faults, memory-IsLawful}
use dwh.Database.Tables.{is_bid}
use dwh.Env.Action.{World, ok}
use dwh.Env.Memory.{alice}
use dwh.Marketplace.Messages.{
  Event, burn_nft, transfer_nft, make_bid_on_auction, MsgMakeBidOnAuction,
}
use dwh.Env.Calls.{increase_counter}
use dwh.Common.Rows.{new_user}
use dwh.Marketplace.Lookup.{get_event_attr, get_msg_addresses, collect_addresses}
use dwh.Marketplace.Users.{create_users, find_or_create_user, get_account, create_user, update_user}
use dwh.Marketplace.Handle.{handle, dispatch}
use dwh.Marketplace.View.Rows.{view, body}
use dwh.Marketplace.View.Trips.{auction_round_trip, sale_round_trip}
use dwh.Marketplace.View.Refines.{handle-view}
use dwh.Marketplace.View.Faults.{
  burn_hides_failure, burn_removes, transfer_keeps_writes, buyout_bid_clears_bids,
}
use dwh.Tests.Data.{
  memory_env, failing_delete, silent_env, test_handler, bob, idle_token, one_token, put_on_auction,
  off_auction, put_on_market, off_market,
}

abbrev delete_fails : Faults
delete_fails = record { create = false; update = false; delete = true }

-- The world after the token is put on auction.
abbrev auctioned : World
auctioned = (handle ⦃E = memory_env⦄ test_handler put_on_auction [] none one_token).1

abbrev marketed : World
marketed = (handle ⦃E = memory_env⦄ test_handler put_on_market [] none one_token).1

handle-view_example :
    view "t" auctioned.tables.nfts
    ≡ some (record (body idle_token) {
      status = 2;
      buyout_price = "9coin";
      opening_price = "1coin";
      seller_beneficiary = "alice";
      time_to_sell = 77;
    })
unfolding handle create_users get_msg_addresses collect_addresses find_or_create_user get_account
    create_user update_user new_user dispatch increase_counter view
handle-view_example =
    handle-view ⦃E = memory_env⦄ test_handler put_on_auction [] none one_token
      (memory-IsLawful no_faults) auctioned "t" refl refl

auction_round_trip_example :
    view "t" (handle ⦃E = memory_env⦄ test_handler off_auction [] none auctioned).1.tables.nfts
    ≡ some (body idle_token)
unfolding handle create_users get_msg_addresses collect_addresses find_or_create_user get_account
    create_user update_user new_user dispatch increase_counter view
auction_round_trip_example =
    auction_round_trip ⦃E = memory_env⦄ test_handler (memory-IsLawful no_faults) put_on_auction
      off_auction _ _ [] [] none none one_token auctioned
      (handle ⦃E = memory_env⦄ test_handler off_auction [] none auctioned).1 "t" refl refl refl
      (record {
        no_status = refl;
        no_price = refl;
        no_beneficiary = refl;
        no_buyout = refl;
        no_opening = refl;
        no_time = refl;
      })
      refl refl

sale_round_trip_example :
    view "t" (handle ⦃E = memory_env⦄ test_handler off_market [] none marketed).1.tables.nfts
    ≡ some (body idle_token)
unfolding handle create_users get_msg_addresses collect_addresses find_or_create_user get_account
    create_user update_user new_user dispatch increase_counter view
sale_round_trip_example =
    sale_round_trip ⦃E = memory_env⦄ test_handler (memory-IsLawful no_faults) put_on_market
      off_market _ _ [] [] none none one_token marketed
      (handle ⦃E = memory_env⦄ test_handler off_market [] none marketed).1 "t" refl refl refl
      (record {
        no_status = refl;
        no_price = refl;
        no_beneficiary = refl;
        no_buyout = refl;
        no_opening = refl;
        no_time = refl;
      })
      refl refl

burn_hides_failure_example :
    let (r, w) =
      dispatch ⦃E = failing_delete⦄ test_handler
        (burn_nft (record { id = "t" }))
        "msg"
        []
        none
        one_token in
    (r ≡ ok tt) × (view "t" w.tables.nfts ≡ view "t" one_token.tables.nfts)
unfolding dispatch view
burn_hides_failure_example =
    burn_hides_failure ⦃E = failing_delete⦄ (memory-IsLawful delete_fails) test_handler
      (record { id = "t" }) "msg" [] none one_token "fault" "t" refl refl

burn_removes_example :
    let (r, w) =
      dispatch ⦃E = memory_env⦄ test_handler
        (burn_nft (record { id = "t" }))
        "msg"
        []
        none
        one_token in
    (r ≡ ok tt) × (view "t" w.tables.nfts ≡ none)
unfolding dispatch view
burn_removes_example =
    burn_removes ⦃E = memory_env⦄ (memory-IsLawful no_faults) test_handler (record { id = "t" })
      "msg" [] none one_token "t" refl refl

transfer_keeps_writes_example :
    let (r, w) =
      dispatch ⦃E = silent_env⦄ test_handler
        (transfer_nft (record { sender = alice; recipient = bob; id = "t" }))
        "msg"
        []
        none
        one_token in
    (r ≢ ok tt)
    × (view "t" w.tables.nfts ≡ some (record (body idle_token) { owner_address = "bob" }))
unfolding dispatch view
transfer_keeps_writes_example =
    transfer_keeps_writes ⦃E = silent_env⦄ (memory-IsLawful no_faults) test_handler
      (record { sender = alice; recipient = bob; id = "t" }) "msg" [] none one_token "no answer"
      refl refl

abbrev buyout : List Event
buyout = record { kind = "msg"; attributes = ("is_buyout", "true") ∷ [] } ∷ []

abbrev test_bid : MsgMakeBidOnAuction
test_bid = record {
  bidder = bob;
  buyer_beneficiary = bob;
  beneficiary_commission = "0";
  token_id = "t";
  bid = ("9coin", 9) ∷ [];
}

abbrev bought : World
bought =
    (dispatch ⦃E = memory_env⦄ test_handler (make_bid_on_auction test_bid) "msg" buyout none
      one_token).1

buyout_bid_clears_bids_example : All (λ b. is_bid "t" b ≡ false) bought.tables.auction_bids
unfolding dispatch get_event_attr
buyout_bid_clears_bids_example =
    buyout_bid_clears_bids ⦃E = memory_env⦄ (memory-IsLawful no_faults) test_handler test_bid "msg"
      buyout none one_token bought "true" refl refl
