-- ===== src/Common/Types.antt =====
-- The types of the libraries that x/common/types.go builds on, as far as the code reads them.
-- An address is a slice of bytes and a set of coins a slice of denominations with amounts; only
-- their texts are used. How those are spelled is the argument `Sdk` of the model. A signed number
-- that is only stored or passed on is a number here, its bit pattern.
use Prim.Native.String.{String}
use dwh.Base.{ℕ, Option, List, []}

-- sdk.AccAddress
abbrev pub AccAddress : Type 0
AccAddress = List ℕ

-- sdk.Coins
abbrev pub Coins : Type 0
Coins = List (String × ℕ)

-- `sdk.Coins{}`
abbrev pub no_coins : Coins
no_coins = []

-- time.Time, counted from its zero value `time.Time{}`.
abbrev pub Time : Type 0
Time = ℕ

abbrev pub zero_time : Time
zero_time = 0

-- What the code takes from the SDK and the marketplace module: the `String()` methods of addresses
-- and coins, the statuses of a token, the keys of event attributes, and two module names.
pub record Sdk : Type 0 where
  pub address : AccAddress → String
  pub coins : Coins → String
  pub nft_status_default : ℕ
  pub nft_status_on_market : ℕ
  pub nft_status_on_auction : ℕ
  pub attribute_key_is_buyout : String
  pub attribute_key_owner : String
  pub attribute_key_offer_id : String
  pub marketplace_module_name : String
  pub nft_module_name : String

-- gorm.Model, embedded in every row type. A row with a `deleted_at` is soft-deleted.
pub record Model : Type 0 where
  pub id : ℕ
  pub created_at : Time
  pub updated_at : Time
  pub deleted_at : Option Time
