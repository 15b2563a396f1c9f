-- ===== src/Env/Memory.antt =====
-- Surroundings that the examples run in: a database in memory, a node that knows every account and
-- one token, a broker that takes everything, and counters that are always there.
use Prim.Native.String.{String}
use dwh.Base.{false, none, some, [], ◌∷◌, str_eq, if◌then◌else◌}
use dwh.Common.Types.{AccAddress, Coins, Sdk, no_coins}
use dwh.Database.Tables.{Tables}
use dwh.Database.Memory.{Faults, memory}
use dwh.Env.Action.{World}
use dwh.Env.Calls.{Env, reply}

abbrev pub alice : AccAddress
alice = 1 ∷ []

-- The names of two addresses.
abbrev spell : AccAddress → String
spell [] = ""
spell (a ∷ l) = elim l [ [] ↦ "alice" | _ ∷ _ ↦ "bob" ]

abbrev spell_coins : Coins → String
spell_coins [] = ""
spell_coins (c ∷ _) = c.0

abbrev pub test_sdk : Sdk
test_sdk = record {
  address = spell;
  coins = spell_coins;
  nft_status_default = 0;
  nft_status_on_market = 1;
  nft_status_on_auction = 2;
  attribute_key_is_buyout = "is_buyout";
  attribute_key_owner = "owner";
  attribute_key_offer_id = "offer_id";
  marketplace_module_name = "marketplace";
  nft_module_name = "nft";
}

abbrev pub test_env : Faults → Env
test_env faults = record {
  gorm = memory faults;
  sdk = test_sdk;
  ensure_exists = λ _. none;
  get_account =
      λ a. reply (record { address = a; coins = no_coins; account_number = 4; sequence = 5 });
  query_with_data = λ _. reply "token";
  unmarshal_nft = λ res.
      if str_eq res "null"
      then reply none
      else reply (some (record { token_uri = "uri"; owner = alice }));
  refuses = λ closed _. if closed then some "channel/connection is not open" else none;
  close_error = λ closed. if closed then some "channel/connection is not open" else none;
  metric_error = λ _ _. none;
}

abbrev pub no_tables : Tables
no_tables = record {
  nfts = [];
  offers = [];
  auction_bids = [];
  fungible_tokens = [];
  fungible_token_transfers = [];
  users = [];
  txes = [];
  messages = [];
  existing = [];
  foreign_keys = [];
}

abbrev pub no_world : World
no_world = record { tables = no_tables; queue = []; counters = []; sender_closed = false }
