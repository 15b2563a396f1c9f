-- ===== src/Marketplace/Messages.antt =====
-- Messages and events. The message types belong to the marketplace and nft modules; their fields
-- here are those that the handler reads. What reflection sees of a message, its fields in order,
-- is kept beside it, since the handler walks over all of them.
use Prim.Native.String.{String}
use dwh.Base.{ℕ, List}
use dwh.Common.Types.{AccAddress, Coins, Time}

pub record MsgMintNft : Type 0 where
  pub id : String
  pub recipient : AccAddress
  pub denom : String
  pub token_uri : String

pub record MsgBurnNft : Type 0 where
  pub id : String

pub record MsgEditNftMetadata : Type 0 where
  pub sender : AccAddress
  pub id : String
  pub token_uri : String

pub record MsgTransferNft : Type 0 where
  pub sender : AccAddress
  pub recipient : AccAddress
  pub id : String

pub record MsgPutNftOnMarket : Type 0 where
  pub beneficiary : AccAddress
  pub token_id : String
  pub price : Coins

pub record MsgRemoveNftFromMarket : Type 0 where
  pub token_id : String

pub record MsgBuyNft : Type 0 where
  pub buyer : AccAddress
  pub token_id : String

pub record MsgPutNftOnAuction : Type 0 where
  pub beneficiary : AccAddress
  pub token_id : String
  pub opening_price : Coins
  pub buyout_price : Coins
  pub time_to_sell : Time

pub record MsgRemoveNftFromAuction : Type 0 where
  pub token_id : String

pub record MsgMakeBidOnAuction : Type 0 where
  pub bidder : AccAddress
  pub buyer_beneficiary : AccAddress
  pub beneficiary_commission : String
  pub token_id : String
  pub bid : Coins

pub record MsgBuyoutOnAuction : Type 0 where
  pub buyer : AccAddress
  pub token_id : String

pub record MsgFinishAuction : Type 0 where
  pub token_id : String

pub record MsgMakeOffer : Type 0 where
  pub buyer : AccAddress
  pub buyer_beneficiary : AccAddress
  pub beneficiary_commission : String
  pub token_id : String
  pub price : Coins

pub record MsgAcceptOffer : Type 0 where
  pub token_id : String
  pub offer_id : String

pub record MsgRemoveOffer : Type 0 where
  pub token_id : String
  pub offer_id : String

pub record MsgCreateFungibleToken : Type 0 where
  pub creator : AccAddress
  pub denom : String
  pub amount : ℕ

pub record MsgTransferFungibleTokens : Type 0 where
  pub owner : AccAddress
  pub recipient : AccAddress
  pub denom : String
  pub amount : ℕ

-- The dynamic type of a message. `other` is a type that the switch of `Handle` has no case for.
pub data MsgValue : Type 0 where
  mint_nft : MsgMintNft → MsgValue
  burn_nft : MsgBurnNft → MsgValue
  edit_nft_metadata : MsgEditNftMetadata → MsgValue
  transfer_nft : MsgTransferNft → MsgValue
  put_nft_on_market : MsgPutNftOnMarket → MsgValue
  remove_nft_from_market : MsgRemoveNftFromMarket → MsgValue
  buy_nft : MsgBuyNft → MsgValue
  put_nft_on_auction : MsgPutNftOnAuction → MsgValue
  remove_nft_from_auction : MsgRemoveNftFromAuction → MsgValue
  make_bid_on_auction : MsgMakeBidOnAuction → MsgValue
  buyout_on_auction : MsgBuyoutOnAuction → MsgValue
  finish_auction : MsgFinishAuction → MsgValue
  make_offer : MsgMakeOffer → MsgValue
  accept_offer : MsgAcceptOffer → MsgValue
  remove_offer : MsgRemoveOffer → MsgValue
  create_fungible_token : MsgCreateFungibleToken → MsgValue
  transfer_fungible_tokens : MsgTransferFungibleTokens → MsgValue
  other : MsgValue

-- A field of a message as reflection sees it: assignable to sdk.AccAddress or not.
pub data Field : Type 0 where
  acc_address : AccAddress → Field
  unassignable : Field

-- sdk.Msg, by its methods, with its dynamic value and its fields.
pub record Msg : Type 0 where
  pub route : String
  pub kind : String
  pub sign_bytes : String
  pub signers : List AccAddress
  pub fields : List Field
  pub value : MsgValue

-- abciTypes.Event
pub record Event : Type 0 where
  pub kind : String
  pub attributes : List (String × String)
