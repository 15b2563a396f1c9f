-- ===== src/Marketplace/Handle/Panics.antt =====
-- Nil pointers under `Handle` of x/indexer/handlers/marketplace.go: `findOrCreateUser` returns one
-- for a new user, and `queryNFT` for an answer null.
use Prim.Native.String.{String}
use dwh.Base.{
  ◌≡◌, ◌≢◌, inl, inr, none, some, List, [], ◌∷◌, arith, Any, All, All-at, All-mono, refl, Option,
  ◌<>◌,
}
use dwh.Common.Types.{AccAddress}
use dwh.Common.Rows.{User}
use dwh.Common.Metrics.{received, common}
use dwh.Database.Gorm.{IsLawful}
use dwh.Env.Action.{World, panic, Outcome-cases}
use dwh.Env.Calls.{Env, Db, reply, increase_counter}
use dwh.Marketplace.Messages.{
  MsgValue, transfer_fungible_tokens, transfer_nft, Msg, Event, MsgTransferFungibleTokens,
  acc_address,
}
use dwh.Marketplace.Lookup.{get_msg_addresses}
use dwh.Marketplace.Lookup.Attributes.{get_msg_addresses_iff}
use dwh.Marketplace.Users.{MarketplaceHandler, find_or_create_user, create_users}
use dwh.Marketplace.Users.Known.{
  IsKnown, IsHonest, find_or_create_user-keeps, find_or_create_user-found, create_users-IsKnown,
  create_users-ne-panic,
}
use dwh.Marketplace.Trades.{transfer_tokens, handle_transfer_fungible_tokens}
use dwh.Marketplace.Handle.{dispatch, handle}

module _ ⦃E : Env⦄ where
  -- The node never answers a query for a token with null. Of the texts that it does not answer,
  -- null among them, nothing is said.
  abbrev pub HasTokens : Type 0
  HasTokens =
      (token_id res : String)
      → E.query_with_data ("custom/marketplace/nft/" <> token_id) ≡ reply res
      → E.unmarshal_nft res ≢ reply none

  -- The users that a message moves fungible tokens between, which `Handle` dereferences.
  abbrev pub named_users : MsgValue → List AccAddress
  named_users (transfer_fungible_tokens v) = v.owner ∷ v.recipient ∷ []
  named_users _ = []

  transfer_tokens-ne-panic :
      (s r : Option User) (v : MsgTransferFungibleTokens) (db : Db) (w : World)
      → s ≢ none
      → r ≢ none
      → (transfer_tokens s r v db w).0 ≢ panic
  unfolding transfer_tokens
  transfer_tokens-ne-panic none r v db w hs hr = absurd (hs refl)
  transfer_tokens-ne-panic (some s) none v db w hs hr = absurd (hr refl)
  transfer_tokens-ne-panic (some s) (some r) v db w hs hr = ground arith

  transfer-ne-panic :
      IsLawful E.gorm
      → (v : MsgTransferFungibleTokens) (db : Db) (w : World)
      → IsKnown (E.sdk.address v.owner) w.tables
      → IsKnown (E.sdk.address v.recipient) w.tables
      → (handle_transfer_fungible_tokens v db w).0 ≢ panic
  unfolding handle_transfer_fungible_tokens
  transfer-ne-panic L v db w ho hr =
      let w1 = (increase_counter received "MsgTransferFungibleTokens" w).1 in
      let w2 = (find_or_create_user v.owner db w1).1 in
      let kept = find_or_create_user-keeps L db (E.sdk.address v.recipient) v.owner w1 hr in
      grind (
        arith,
        find_or_create_user-found L db v.owner w1 ho,
        find_or_create_user-found L db v.recipient w2 kept,
        transfer_tokens-ne-panic,
      )

module _ ⦃E : Env⦄ (m : MarketplaceHandler) where
  dispatch-ne-panic :
      IsLawful E.gorm
      → HasTokens
      → (value : MsgValue) (kind : String) (events : List Event) (db : Db) (w : World)
      → All (λ a. IsKnown (E.sdk.address a) w.tables) (named_users value)
      → (dispatch m value kind events db w).0 ≢ panic
  unfolding dispatch
  dispatch-ne-panic L ht (transfer_nft v) kind events db w h = grind arith
  dispatch-ne-panic L ht (transfer_fungible_tokens v) kind events db w h =
      transfer-ne-panic L v db w h.0 h.1.0
  dispatch-ne-panic L ht value kind events db w h = grind arith

  -- `Handle` ends in a value or an error, never by a nil pointer, provided that the database and
  -- the node keep their promises, that the node does not answer a query for a token with null, and
  -- that the owner and the recipient of fungible tokens are among the address fields of their
  -- message.
  pub handle-ne-panic :
      IsLawful E.gorm
      → HasTokens
      → IsHonest
      → (msg : Msg) (events : List Event) (db : Db) (w : World)
      → All (λ a. Any (λ f. f ≡ acc_address a) msg.fields) (named_users msg.value)
      → (handle m msg events db w).0 ≢ panic
  unfolding handle
  handle-ne-panic L ht honest msg events db w named =
      let addrs = get_msg_addresses msg in
      let w1 = (increase_counter received common w).1 in
      let w2 = (create_users addrs db w1).1 in
      elim (Outcome-cases (create_users addrs db w1).0) [
        | inl (x, e) ↦
            let known : All (λ a. IsKnown (E.sdk.address a) w2.tables) addrs =
              create_users-IsKnown L db honest addrs w1 e in
            let users =
              All-mono (named_users msg.value)
                (λ a field.
                  All-at (λ b. IsKnown (E.sdk.address b) w2.tables) addrs a known
                    ((get_msg_addresses_iff msg a).1 field))
                named in
            ground (arith, dispatch-ne-panic L ht msg.value msg.kind events db w2 users)
        | inr (inl (x, e)) ↦ ground arith
        | inr (inr e) ↦ absurd (create_users-ne-panic L db addrs w1 e)
      ]
