-- ===== src/Marketplace/Tokens.antt =====
-- The cases of `Handle` for a token and for its sale at a fixed price.
use Prim.Native.String.{String}
use dwh.Base.{ℕ, [], ◌∷◌, ⊤, ◌<>◌}
use dwh.Common.Types.{no_coins}
use dwh.Common.Rows.{new_nft_from_marketplace_nft}
use dwh.Common.Metrics.{received, accepted}
use dwh.Common.Queue.{transfer_triggered_priority, freshly_made_priority, forced_updates_priority}
use dwh.Database.Tables.{Row, Deletion, token_uri, owner_address, price, seller_beneficiary, status}
use dwh.Env.Action.{◌>>=◌, ◌>>◌, Action, wrap, deref}
use dwh.Env.Calls.{
  Env, NftInfo, Db, check, create, update_columns, delete, increase_counter, publish,
}
use dwh.Marketplace.Messages.{
  MsgMintNft, MsgBurnNft, MsgEditNftMetadata, MsgTransferNft, MsgPutNftOnMarket,
  MsgRemoveNftFromMarket, MsgBuyNft,
}
use dwh.Marketplace.Users.{MarketplaceHandler, query_nft}

module _ ⦃E : Env⦄ (m : MarketplaceHandler) where
  -- `m.uriSender.Publish(…)` with its error wrapped.
  unfoldable pub send : String → String → String → ℕ → Action ⊤
  unfolding publish
  send url owner token_id priority =
      wrap "failed to send message to RabbitMQ: " (publish m.uri_sender url owner token_id priority)

  -- The end of most cases: ask the node for the token and send its URI on.
  unfoldable pub query_and_send : String → String → (NftInfo → String) → Action ⊤
  unfolding query_nft send
  query_and_send token_id case_name owner = do
    info ←
        wrap ("failed to query nft #" <> (token_id <> (" (" <> (case_name <> "): "))))
          (query_nft token_id)
    token_info ← deref info
    send token_info.token_uri (owner token_info) token_id transfer_triggered_priority

  unfoldable pub handle_mint_nft : MsgMintNft → Db → Action ⊤
  unfolding send increase_counter
  handle_mint_nft value db = do
    increase_counter received "MsgMintNFT"
    let owner = E.sdk.address value.recipient
    db' ←
        create
          (Row.nft (new_nft_from_marketplace_nft E.sdk value.denom value.id owner value.token_uri))
          db
    check db' "failed to create nft: "
    send value.token_uri owner value.id freshly_made_priority
    increase_counter accepted "MsgMintNFT"

  -- The handle that `Delete` returns is dropped: what is checked is the one that came in.
  unfoldable pub handle_burn_nft : MsgBurnNft → Db → Action ⊤
  unfolding increase_counter
  handle_burn_nft value db = do
    increase_counter received "MsgBurnNFT"
    _ ← delete (Deletion.tokens value.id) db
    check db "failed to delete token (MsgBurnNFT): "
    increase_counter accepted "MsgBurnNFT"

  unfoldable pub handle_edit_nft_metadata : MsgEditNftMetadata → Db → Action ⊤
  unfolding send increase_counter
  handle_edit_nft_metadata value db = do
    increase_counter received "MsgEditNFTMetadata"
    db' ← update_columns value.id (token_uri value.token_uri ∷ []) db
    check db' "failed to update nft (MsgEditNFTMetadata): "
    send value.token_uri (E.sdk.address value.sender) value.id forced_updates_priority
    increase_counter accepted "MsgEditNFTMetadata"

  unfoldable pub handle_transfer_nft : MsgTransferNft → Db → Action ⊤
  unfolding query_and_send increase_counter
  handle_transfer_nft value db = do
    increase_counter received "MsgTransferNFT"
    db' ← update_columns value.id (owner_address (E.sdk.address value.recipient) ∷ []) db
    check db' "failed to update nft (MsgTransferNFT): "
    query_and_send value.id "MsgTransferNFT" (λ _. E.sdk.address value.sender)
    increase_counter accepted "MsgTransferNFT"

  unfoldable pub handle_put_nft_on_market : MsgPutNftOnMarket → Db → Action ⊤
  unfolding increase_counter
  handle_put_nft_on_market value db = do
    increase_counter received "MsgPutNFTOnMarket"
    db' ←
        update_columns value.token_id
          (status E.sdk.nft_status_on_market
            ∷ price (E.sdk.coins value.price)
            ∷ seller_beneficiary (E.sdk.address value.beneficiary)
            ∷ [])
          db
    check db' "failed to update nft (MsgPutNFTOnMarket): "
    increase_counter accepted "MsgPutNFTOnMarket"

  unfoldable pub handle_remove_nft_from_market : MsgRemoveNftFromMarket → Db → Action ⊤
  unfolding increase_counter
  handle_remove_nft_from_market value db = do
    increase_counter received "MsgRemoveNFTFromMarket"
    db' ←
        update_columns value.token_id
          (status E.sdk.nft_status_default
            ∷ seller_beneficiary ""
            ∷ price (E.sdk.coins no_coins)
            ∷ [])
          db
    check db' "failed to update nft (MsgRemoveNFTFromMarket): "
    increase_counter accepted "MsgRemoveNFTFromMarket"

  unfoldable pub handle_buy_nft : MsgBuyNft → Db → Action ⊤
  unfolding query_and_send increase_counter
  handle_buy_nft value db = do
    increase_counter received "MsgBuyNFT"
    db' ←
        update_columns value.token_id
          (status E.sdk.nft_status_default
            ∷ owner_address (E.sdk.address value.buyer)
            ∷ price (E.sdk.coins no_coins)
            ∷ [])
          db
    check db' "failed to update nft (MsgBuyNFT): "
    query_and_send value.token_id "MsgBuyNFT" (λ _. E.sdk.address value.buyer)
    increase_counter accepted "MsgBuyNFT"
