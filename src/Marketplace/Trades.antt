-- ===== src/Marketplace/Trades.antt =====
-- The cases of `Handle` for offers and for fungible tokens.
use Prim.Native.String.{String}
use dwh.Base.{Option, none, some, List, [], ◌∷◌, ⊤, ◌<>◌, ◌==◌, if◌then◌else◌}
use dwh.Common.Rows.{
  Offer, MarketplaceOffer, new_offer, FungibleToken, FungibleTokenTransfer, User, new_model,
}
use dwh.Common.Metrics.{received, accepted}
use dwh.Database.Tables.{Row, Deletion, owner_address}
use dwh.Database.Gorm.{found, no_rows, scan_error}
use dwh.Env.Action.{◌>>=◌, ◌>>◌, Action, ok, fail, pure, deref, option_text}
use dwh.Env.Calls.{Env, Db, db_error, check, create, update_columns, delete, increase_counter}
use dwh.Marketplace.Messages.{
  MsgMakeOffer, MsgAcceptOffer, MsgRemoveOffer, MsgCreateFungibleToken, MsgTransferFungibleTokens,
  Event,
}
use dwh.Marketplace.Lookup.{get_event_attr}
use dwh.Marketplace.Users.{MarketplaceHandler, find_or_create_user}
use dwh.Marketplace.Tokens.{query_and_send}

module _ ⦃E : Env⦄ where
  -- What follows once the event has given the key of the offer.
  unfoldable pub make_offer : String → MsgMakeOffer → Db → Action ⊤
  unfolding increase_counter
  make_offer offer_id value db = do
    let offer : MarketplaceOffer = record {
      id = offer_id;
      price = value.price;
      buyer = value.buyer;
      buyer_beneficiary = value.buyer_beneficiary;
      beneficiary_commission = value.beneficiary_commission;
    }
    db' ← create (Row.offer (new_offer E.sdk offer value.token_id)) db
    check db' "failed to create an offer: "
    increase_counter accepted "MsgMakeOffer"

  unfoldable pub handle_make_offer : MsgMakeOffer → String → List Event → Db → Action ⊤
  unfolding increase_counter make_offer
  handle_make_offer value kind events db = do
    increase_counter received "MsgMakeOffer"
    elim (get_event_attr events kind E.sdk.attribute_key_offer_id) [
      | none ↦ fail ("failed to find offer for token " <> value.token_id)
      | some offer_id ↦ make_offer offer_id value db
    ]

  -- `Row().Scan(…)` of an offer, where a missing row is an error like any other.
  abbrev pub scan_offer : String → String → Db → Action Offer
  scan_offer token_id offer_id db w = elim (E.gorm.scan_offer token_id offer_id db w.tables) [
    | found offer ↦ pure offer w
    | no_rows ↦ fail "failed to scan offers (MsgAcceptOffer): sql: no rows in result set" w
    | scan_error e ↦ fail ("failed to scan offers (MsgAcceptOffer): " <> e) w
  ]

  module _ (m : MarketplaceHandler) where
    -- What follows a scan that found an offer with a key.
    unfoldable pub accept_offer : Offer → MsgAcceptOffer → Db → Action ⊤
    unfolding increase_counter query_and_send
    accept_offer offer value db = do
      db' ← update_columns value.token_id (owner_address offer.buyer ∷ []) db
      check db' "failed to update token (MsgAcceptOffer): "
      _ ← delete (Deletion.offers value.token_id value.offer_id) db'
      check db' "failed to delete offers (MsgAcceptOffer): "
      query_and_send m value.token_id "MsgAcceptOffer" (λ _. offer.buyer)
      increase_counter accepted "MsgAcceptOffer"

    unfoldable pub handle_accept_offer : MsgAcceptOffer → Db → Action ⊤
    unfolding increase_counter accept_offer
    handle_accept_offer value db = do
      increase_counter received "MsgAcceptOffer"
      offer ← scan_offer value.token_id value.offer_id db
      if offer.model.id == 0
          then fail ("unknown offer ID (not found in related offers): " <> value.offer_id)
          else accept_offer offer value db

    unfoldable pub handle_remove_offer : MsgRemoveOffer → Db → Action ⊤
    unfolding increase_counter query_and_send
    handle_remove_offer value db = do
      increase_counter received "MsgRemoveOffer"
      _ ← delete (Deletion.offers value.token_id value.offer_id) db
      check db "failed to delete offers (MsgRemoveOffer): "
      query_and_send m value.token_id "MsgRemoveOffer" (λ info. E.sdk.address info.owner)
      increase_counter accepted "MsgRemoveOffer"

  unfoldable pub handle_create_fungible_token : MsgCreateFungibleToken → Db → Action ⊤
  unfolding increase_counter
  handle_create_fungible_token value db = do
    increase_counter received "MsgCreateFungibleToken"
    let token : FungibleToken = record {
      model = new_model;
      owner_address = E.sdk.address value.creator;
      denom = value.denom;
      emission_amount = value.amount;
    }
    db' ← create (Row.fungible_token token) db
    check db' "failed to create nft: "
    increase_counter accepted "MsgCreateFungibleToken"

  -- `db.Where("denom = ?", …).First(&ft)`; its handle is dropped.
  abbrev pub first_token : String → Db → Action FungibleToken
  first_token denom db w = (ok (E.gorm.first_token denom db w.tables), w)

  abbrev pub append_transfer : FungibleToken → FungibleTokenTransfer → Db → Action ⊤
  append_transfer ft transfer db w =
      (ok tt, record w { tables = E.gorm.append_transfer ft transfer db w.tables })

  -- What follows once both users are at hand. Their addresses are read through the pointers.
  unfoldable pub transfer_tokens :
      Option User → Option User → MsgTransferFungibleTokens → Db → Action ⊤
  unfolding increase_counter
  transfer_tokens sender recipient value db = do
    ft ← first_token value.denom db
    if ft.model.id == 0
        then fail ("failed to transfer fungible token: " <> option_text (db_error db))
        else do
          s ← deref sender
          r ← deref recipient
          append_transfer ft
              (record {
                model = new_model;
                sender_address = s.address;
                recipient_address = r.address;
                fungible_token_id = 0;
                amount = value.amount;
              })
              db
          check db "failed to transfer fungible token: "
          increase_counter accepted "MsgTransferFungibleTokens"

  unfoldable pub handle_transfer_fungible_tokens : MsgTransferFungibleTokens → Db → Action ⊤
  unfolding increase_counter transfer_tokens
  handle_transfer_fungible_tokens value db = do
    increase_counter received "MsgTransferFungibleTokens"
    sender ← find_or_create_user value.owner db
    recipient ← find_or_create_user value.recipient db
    transfer_tokens sender recipient value db
