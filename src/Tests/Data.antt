-- ===== src/Tests/Data.antt =====
-- The data that the runs share.
use dwh.Base.{Bool, ℕ, none, some, List, [], ◌∷◌, true, false, refl, Option}
use dwh.Common.Types.{AccAddress}
use dwh.Common.Rows.{Nft, AuctionBid, ResultTx}
use dwh.Database.Memory.{no_faults}
use dwh.Database.Tables.{stamped}
use dwh.Env.Action.{World}
use dwh.Env.Calls.{Env, Reply, reply, failure}
use dwh.Env.Memory.{test_env, no_tables, alice}
use dwh.Marketplace.Messages.{
  Msg, MsgValue, Event, acc_address, put_nft_on_auction, remove_nft_from_auction, put_nft_on_market,
  remove_nft_from_market, other,
}
use dwh.Marketplace.Users.{MarketplaceHandler}
use dwh.Indexer.Cursor.{Stored}
use dwh.Indexer.State.{Node, IsStore, Indexer}
use dwh.Indexer.Routes.{marketplace_handler}

abbrev pub memory_env : Env
memory_env = test_env no_faults

abbrev pub failing_delete : Env
failing_delete = test_env (record { create = false; update = false; delete = true })

abbrev pub silent_env : Env
silent_env =
    let E = test_env no_faults in record E { query_with_data = λ path. failure "no answer" }

abbrev pub test_handler : MarketplaceHandler
test_handler = record { uri_sender = record { queue = "uris" } }

abbrev pub bob : AccAddress
bob = 2 ∷ 3 ∷ []

abbrev pub idle_token : Nft
idle_token = record {
  model = stamped (record { key = 1; now = 2 });
  denom = "coin";
  token_id = "t";
  owner_address = "alice";
  token_uri = "uri";
  status = 0;
  price = "";
  seller_beneficiary = "";
  buyout_price = "";
  opening_price = "";
  time_to_sell = 0;
}

abbrev pub some_bid : AuctionBid
some_bid = record {
  model = stamped (record { key = 1; now = 2 });
  bidder_address = "bob";
  bidder_beneficiary = "bob";
  beneficiary_commission = "0";
  price = "5";
  token_id = "t";
}

abbrev pub one_token : World
one_token = record {
  tables = record no_tables { nfts = idle_token ∷ []; auction_bids = some_bid ∷ [] };
  queue = [];
  counters = [];
  sender_closed = false;
}

abbrev pub message : MsgValue → Msg
message value = record {
  route = "marketplace";
  kind = "msg";
  sign_bytes = "{}";
  signers = alice ∷ [];
  fields = acc_address alice ∷ acc_address bob ∷ [];
  value = value;
}

abbrev pub put_on_auction : Msg
put_on_auction = message (
    put_nft_on_auction (record {
      beneficiary = alice;
      token_id = "t";
      opening_price = ("1coin", 1) ∷ [];
      buyout_price = ("9coin", 9) ∷ [];
      time_to_sell = 77;
    }))

abbrev pub off_auction : Msg
off_auction = message (remove_nft_from_auction (record { token_id = "t" }))

abbrev pub put_on_market : Msg
put_on_market =
    message (
      put_nft_on_market (record { beneficiary = alice; token_id = "t"; price = ("3coin", 3) ∷ [] }))

abbrev pub off_market : Msg
off_market = message (remove_nft_from_market (record { token_id = "t" }))

abbrev pub stranger : Msg
stranger = record {
  route = "bank";
  kind = "send";
  sign_bytes = "{}";
  signers = [];
  fields = [];
  value = other;
}

-- The transaction of some bytes: their number is its index.
abbrev test_result : List ℕ → ResultTx Event
test_result bytes = record {
  hash = "hash";
  height = 1;
  index = elim bytes [ [] ↦ 0 | n ∷ _ ↦ n ];
  code = 0;
  content = [];
  log = "";
  info = "";
  gas_wanted = 0;
  gas_used = 0;
  events = [];
}

abbrev pub is_there : Option Stored → Reply Bool
is_there none = reply false
is_there (some b) = reply true

abbrev pub read : Option Stored → Reply Stored
read none = failure "not found"
read (some b) = reply b

-- A transaction of two messages, the second of which has no handler.
abbrev pub test_node : Node
test_node = record {
  tx = λ bytes. reply (test_result bytes);
  tx_decoder = λ bytes. reply (put_on_auction ∷ stranger ∷ []);
  code_unknown_request = 6;
  show_msg = λ msg. msg.kind;
  Store = Option Stored;
  has = is_there;
  get = read;
  put = λ b s. (none, some b);
  close = λ s. s;
}

pub test_node-IsStore : IsStore test_node
test_node-IsStore = record { has_put = λ b s h. refl; get_put = λ b s h. refl }

abbrev pub bare_indexer : Indexer ⦃E = memory_env⦄ ⦃N = test_node⦄
bare_indexer = record {
  db = some none;
  store = none;
  handlers = [];
  cursor = record { height = 5; tx_index = 0; msg_id = 0 };
  cancelled = false;
  closed = false;
  world = one_token;
}

abbrev pub test_indexer : Indexer ⦃E = memory_env⦄ ⦃N = test_node⦄
test_indexer = record bare_indexer {
  handlers = ("marketplace", marketplace_handler ⦃E = memory_env⦄ test_handler) ∷ [];
}
