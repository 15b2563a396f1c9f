-- ===== src/Database/Tables.antt =====
-- The contents of the database: a list of rows for each type of x/common/types.go that has a table,
-- in order of insertion, the tables that exist, and the foreign keys between them.
use Prim.Native.String.{String}
use dwh.Base.{
  ℕ, Bool, true, false, ◌&&◌, none, some, List, [], ◌∷◌, ◌++◌, map, str_eq, ◌==◌, if◌then◌else◌,
}
use dwh.Common.Types.{Model, Time}
use dwh.Common.Rows.{
  Nft, Offer, AuctionBid, FungibleToken, FungibleTokenTransfer, User, Tx, Message,
}

pub data Table : Type 0 where
  nfts offers auction_bids fungible_tokens fungible_token_transfers users txes messages : Table

-- `AddForeignKey(column, "target(…)", "CASCADE", "CASCADE")` on the model of `source`.
pub record ForeignKey : Type 0 where
  pub source : Table
  pub column : String
  pub target : Table

pub record Tables : Type 0 where
  pub nfts : List Nft
  pub offers : List Offer
  pub auction_bids : List AuctionBid
  pub fungible_tokens : List FungibleToken
  pub fungible_token_transfers : List FungibleTokenTransfer
  pub users : List User
  pub txes : List Tx
  pub messages : List Message
  pub existing : List Table
  pub foreign_keys : List ForeignKey

-- A row that `Create` is given.
pub data Row : Type 0 where
  nft : Nft → Row
  offer : Offer → Row
  auction_bid : AuctionBid → Row
  fungible_token : FungibleToken → Row
  user : User → Row
  tx : Tx → Row
  message : Message → Row

-- What the database fills in at an insertion: the key and the time.
pub record Stamp : Type 0 where
  pub key : ℕ
  pub now : Time

abbrev pub stamped : Stamp → Model
stamped s = record { id = s.key; created_at = s.now; updated_at = s.now; deleted_at = none }

abbrev pub insert : Stamp → Row → Tables → Tables
insert s (Row.nft r) t = record t { nfts = t.nfts ++ (record r { model = stamped s } ∷ []) }
insert s (Row.offer r) t = record t { offers = t.offers ++ (record r { model = stamped s } ∷ []) }
insert s (Row.auction_bid r) t = record t {
  auction_bids = t.auction_bids ++ (record r { model = stamped s } ∷ []);
}
insert s (Row.fungible_token r) t = record t {
  fungible_tokens = t.fungible_tokens ++ (record r { model = stamped s } ∷ []);
}
insert s (Row.user r) t = record t { users = t.users ++ (record r { model = stamped s } ∷ []) }
insert s (Row.tx r) t = record t { txes = t.txes ++ (record r { model = stamped s } ∷ []) }
insert s (Row.message r) t = record t {
  messages = t.messages ++ (record r { model = stamped s } ∷ []);
}

abbrev pub is_live : Model → Bool
is_live m = elim m.deleted_at [ none ↦ true | some _ ↦ false ]

-- The columns of a token that `UpdateColumns` is given, under the keys of its map.
pub data Column : Type 0 where
  token_uri owner_address price seller_beneficiary buyout_price opening_price : String → Column
  status : ℕ → Column
  time_to_sell : Time → Column

abbrev pub write : Column → Nft → Nft
write (token_uri v) r = record r { token_uri = v }
write (owner_address v) r = record r { owner_address = v }
write (price v) r = record r { price = v }
write (seller_beneficiary v) r = record r { seller_beneficiary = v }
write (buyout_price v) r = record r { buyout_price = v }
write (opening_price v) r = record r { opening_price = v }
write (status v) r = record r { status = v }
write (time_to_sell v) r = record r { time_to_sell = v }

abbrev pub write_all : List Column → Nft → Nft
write_all [] r = r
write_all (c ∷ cs) r = write_all cs (write c r)

-- `token_id = ?`, on the rows that are not deleted.
abbrev pub is_token : String → Nft → Bool
is_token id r = is_live r.model && str_eq r.token_id id

abbrev pub update_token : String → List Column → Nft → Nft
update_token id cs r = if is_token id r then write_all cs r else r

-- The three deletions that the code makes.
pub data Deletion : Type 0 where
  tokens : String → Deletion
  bids : String → Deletion
  offers : String → String → Deletion

abbrev pub delete_model : Time → Model → Model
delete_model now m = record m { deleted_at = some now }

abbrev pub is_bid : String → AuctionBid → Bool
is_bid id r = is_live r.model && str_eq r.token_id id

abbrev pub is_offer : String → String → Offer → Bool
is_offer id offer_id r = is_live r.model && (str_eq r.token_id id && str_eq r.offer_id offer_id)

abbrev pub delete_token : Time → String → Nft → Nft
delete_token now id r = if is_token id r then record r { model = delete_model now r.model } else r

abbrev pub delete_bid : Time → String → AuctionBid → AuctionBid
delete_bid now id r = if is_bid id r then record r { model = delete_model now r.model } else r

abbrev pub delete_offer : Time → String → String → Offer → Offer
delete_offer now id offer_id r =
    if is_offer id offer_id r then record r { model = delete_model now r.model } else r

-- A deletion sets `deleted_at` of the matching rows that are not deleted yet.
abbrev pub erase : Time → Deletion → Tables → Tables
erase now (Deletion.tokens id) t = record t { nfts = map (delete_token now id) t.nfts }
erase now (Deletion.bids id) t = record t { auction_bids = map (delete_bid now id) t.auction_bids }
erase now (Deletion.offers id offer_id) t = record t {
  offers = map (delete_offer now id offer_id) t.offers;
}

-- `Model(&user).Update("sequence_number", n)`: the row with the user's key.
abbrev pub set_sequence : Time → ℕ → ℕ → User → User
set_sequence now key n u =
    if u.model.id == key
    then record u { model = record (u.model) { updated_at = now }; sequence_number = n }
    else u

-- The row that `Association("FungibleTokenTransfers").Append` adds: it belongs to the token.
abbrev pub append_to : Stamp → FungibleToken → FungibleTokenTransfer → Tables → Tables
append_to s ft r t = record t {
  fungible_token_transfers =
      t.fungible_token_transfers
      ++ (record r { model = stamped s; fungible_token_id = ft.model.id } ∷ []);
}
