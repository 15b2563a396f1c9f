-- ===== src/Common/Rows.antt =====
-- x/common/types.go: the rows of the database and the functions that build them. A struct literal
-- leaves the fields that it does not name at their zero values.
use Prim.Native.String.{String}
use mathlib.Core.List.{map}
use dwh.Base.{ℕ, Bool, none, List, [], ◌∷◌, ◌<>◌}
use dwh.Common.Types.{AccAddress, Coins, Time, zero_time, Sdk, Model}

-- `gorm.Model{}`
abbrev pub new_model : Model
new_model = record { id = 0; created_at = zero_time; updated_at = zero_time; deleted_at = none }

pub record Nft : Type 0 where
  pub model : Model
  pub denom : String
  pub token_id : String
  pub owner_address : String
  pub token_uri : String
  pub status : ℕ
  pub price : String
  pub seller_beneficiary : String
  pub buyout_price : String
  pub opening_price : String
  pub time_to_sell : Time

unfoldable pub new_nft_from_marketplace_nft : Sdk → String → String → String → String → Nft
new_nft_from_marketplace_nft sdk denom token_id owner_address token_uri = record {
  model = new_model;
  denom = denom;
  token_id = token_id;
  owner_address = owner_address;
  token_uri = token_uri;
  status = sdk.nft_status_default;
  price = "";
  seller_beneficiary = "";
  buyout_price = "";
  opening_price = "";
  time_to_sell = zero_time;
}

pub record Offer : Type 0 where
  pub model : Model
  pub offer_id : String
  pub buyer : String
  pub price : String
  pub buyer_beneficiary : String
  pub beneficiary_commission : String
  pub token_id : String

-- mptypes.Offer, the marketplace's own record of an offer.
pub record MarketplaceOffer : Type 0 where
  pub id : String
  pub price : Coins
  pub buyer : AccAddress
  pub buyer_beneficiary : AccAddress
  pub beneficiary_commission : String

unfoldable pub new_offer : Sdk → MarketplaceOffer → String → Offer
new_offer sdk offer token_id = record {
  model = new_model;
  offer_id = offer.id;
  buyer = sdk.address offer.buyer;
  price = sdk.coins offer.price;
  buyer_beneficiary = sdk.address offer.buyer_beneficiary;
  beneficiary_commission = offer.beneficiary_commission;
  token_id = token_id;
}

pub record AuctionBid : Type 0 where
  pub model : Model
  pub bidder_address : String
  pub bidder_beneficiary : String
  pub beneficiary_commission : String
  pub price : String
  pub token_id : String

pub record FungibleToken : Type 0 where
  pub model : Model
  pub owner_address : String
  pub denom : String
  pub emission_amount : ℕ

pub record FungibleTokenTransfer : Type 0 where
  pub model : Model
  pub sender_address : String
  pub recipient_address : String
  pub fungible_token_id : ℕ
  pub amount : ℕ

pub record User : Type 0 where
  pub model : Model
  pub name : String
  pub address : String
  pub balance : String
  pub account_number : ℕ
  pub sequence_number : ℕ

-- The callers pass no tokens.
unfoldable pub new_user : Sdk → String → AccAddress → Coins → ℕ → ℕ → User
new_user sdk name addr balance account_number sequence_number = record {
  model = new_model;
  name = name;
  address = sdk.address addr;
  balance = sdk.coins balance;
  account_number = account_number;
  sequence_number = sequence_number;
}

pub record Tx : Type 0 where
  pub model : Model
  pub hash : String
  pub height : ℕ
  pub index : ℕ
  pub code : ℕ
  pub content : List ℕ
  pub log : String
  pub info : String
  pub gas_wanted : ℕ
  pub gas_used : ℕ

-- coreTypes.ResultTx with its TxResult.
pub record ResultTx (E : Type 0) : Type 0 where
  pub hash : String
  pub height : ℕ
  pub index : ℕ
  pub code : ℕ
  pub content : List ℕ
  pub log : String
  pub info : String
  pub gas_wanted : ℕ
  pub gas_used : ℕ
  pub events : List E

unfoldable pub new_tx : {E : Type 0} → ResultTx E → Tx
new_tx tx = record {
  model = new_model;
  hash = tx.hash;
  height = tx.height;
  index = tx.index;
  code = tx.code;
  content = tx.content;
  log = tx.log;
  info = tx.info;
  gas_wanted = tx.gas_wanted;
  gas_used = tx.gas_used;
}

pub record Message : Type 0 where
  pub model : Model
  pub route : String
  pub msg_type : String
  pub signature : String
  pub signers : String
  pub failed : Bool
  pub error : String
  pub tx_id : ℕ

-- strings.Join(texts, ", ")
unfoldable pub join_comma : List String → String
join_comma [] = ""
join_comma (s ∷ []) = s
join_comma (s ∷ t ∷ rest) = s <> (", " <> join_comma (t ∷ rest))

unfoldable pub new_message :
    Sdk → String → String → String → List AccAddress → Bool → String → ℕ → Message
unfolding join_comma
new_message sdk route msg_type sign signers failed error tx_id = record {
  model = new_model;
  route = route;
  msg_type = msg_type;
  signature = sign;
  signers = join_comma (map sdk.address signers);
  failed = failed;
  error = error;
  tx_id = tx_id;
}
