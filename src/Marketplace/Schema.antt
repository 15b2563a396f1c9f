-- ===== src/Marketplace/Schema.antt =====
-- `MarketplaceHandler.Setup`, `Reset` and `RouterKeys`. The source writes the same few lines for
-- each table and each foreign key in turn; here they are a walk over the list of them.
pub mod Fitting
pub mod Dropping
pub mod Adding
pub mod Creating
use Prim.Native.String.{String}
use dwh.Base.{Bool, List, [], ◌∷◌, ◌<>◌, if◌then◌else◌}
use dwh.Database.Tables.{
  Table, nfts, offers, auction_bids, fungible_tokens, fungible_token_transfers, users, ForeignKey,
}
use dwh.Env.Action.{Action, ok, pure, ◌>>=◌, ◌>>◌}
use dwh.Env.Calls.{Env, Db, check}

module _ ⦃E : Env⦄ where
  abbrev pub has_table : Table → Db → Action Bool
  has_table a db w = (ok (E.gorm.has_table a db w.tables), w)

  abbrev pub create_table : Table → Db → Action Db
  create_table a db w =
      let (db', t) = E.gorm.create_table a db w.tables in (ok db', record w { tables = t })

  abbrev pub drop_table_if_exists : Table → Db → Action Db
  drop_table_if_exists a db w =
      let (db', t) = E.gorm.drop_table_if_exists a db w.tables in (ok db', record w { tables = t })

  abbrev pub add_foreign_key : ForeignKey → Db → Action Db
  add_foreign_key k db w =
      let (db', t) = E.gorm.add_foreign_key k db w.tables in (ok db', record w { tables = t })

  -- `if !db.HasTable(…) { db = db.CreateTable(…); if db.Error != nil … }`
  unfoldable pub ensure_table : Table → String → Db → Action Db
  ensure_table a name db = do
    there ← has_table a db
    if there then pure db else do
      db' ← create_table a db
      check db' ("failed to create table " <> (name <> ": "))
      pure db'

  unfoldable pub ensure_tables : List (Table × String) → Db → Action Db
  ensure_tables [] db = pure db
  ensure_tables ((a, name) ∷ l) db = ensure_table a name db >>= λ db'. ensure_tables l db'

  unfoldable pub add_key : ForeignKey → String → Db → Action Db
  add_key k name db = do
    db' ← add_foreign_key k db
    check db' ("failed to add foreign key (" <> (name <> "): "))
    pure db'

  unfoldable pub add_keys : List (ForeignKey × String) → Db → Action Db
  add_keys [] db = pure db
  add_keys ((k, name) ∷ l) db = add_key k name db >>= λ db'. add_keys l db'

  unfoldable pub drop_table : Table → String → Db → Action Db
  drop_table a name db = do
    db' ← drop_table_if_exists a db
    check db' ("failed to drop table " <> (name <> ": "))
    pure db'

  unfoldable pub drop_tables : List (Table × String) → Db → Action Db
  drop_tables [] db = pure db
  drop_tables ((a, name) ∷ l) db = drop_table a name db >>= λ db'. drop_tables l db'

-- The tables that `Setup` creates, with the names in its messages.
abbrev pub setup_tables : List (Table × String)
setup_tables =
    (nfts, "Nfts")
    ∷ (fungible_tokens, "FungibleTokens")
    ∷ (fungible_token_transfers, "FungibleTokenTransfers")
    ∷ (users, "Users")
    ∷ (offers, "Offers")
    ∷ (auction_bids, "AuctionBids")
    ∷ []

abbrev pub key : Table → String → Table → ForeignKey
key source column target = record { source = source; column = column; target = target }

-- The foreign keys that `Setup` adds.
abbrev pub setup_keys : List (ForeignKey × String)
setup_keys =
    (key nfts "owner_address" users, "nfts")
    ∷ (key fungible_tokens "owner_address" users, "fuingible_tokens")
    ∷ (key offers "token_id" nfts, "offers")
    ∷ (key auction_bids "token_id" nfts, "auction_bids")
    ∷ (key fungible_token_transfers "sender_address" users, "fungible_tokens_transfers")
    ∷ (key fungible_token_transfers "recipient_address" users, "fungible_tokens_transfers")
    ∷ (
      key fungible_token_transfers "fungible_token_id" fungible_tokens,
      "fungible_tokens_transfers",
    )
    ∷ []

-- The tables that `Reset` drops, in its order.
abbrev pub reset_tables : List (Table × String)
reset_tables =
    (offers, "Offers")
    ∷ (auction_bids, "AuctionBids")
    ∷ (nfts, "Nfts")
    ∷ (fungible_token_transfers, "FungibleTokenTransferss")
    ∷ (fungible_tokens, "FungibleTokens")
    ∷ (users, "Users")
    ∷ []

module _ ⦃E : Env⦄ where
  unfoldable pub setup : Db → Action Db
  unfolding ensure_tables add_keys
  setup db = ensure_tables setup_tables db >>= λ db'. add_keys setup_keys db'

  unfoldable pub reset : Db → Action Db
  unfolding drop_tables
  reset db = drop_tables reset_tables db

  unfoldable pub router_keys : List String
  router_keys = E.sdk.marketplace_module_name ∷ E.sdk.nft_module_name ∷ []
