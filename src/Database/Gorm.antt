-- ===== src/Database/Gorm.antt =====
-- `*gorm.DB`: a handle with an error, and the chains of calls that the code makes on it. A call
-- returns a new handle, which carries the error of the call; the handle it was made on stays as it
-- was. `IsLawful` is what gorm and PostgreSQL document of these calls and the code relies on.
use Prim.Native.String.{String}
use dwh.Base.{ℕ, ◌<◌, ◌≡◌, ◌≢◌, ◌⊎◌, Bool, true, false, Option, none, some, List, Any, map}
use dwh.Common.Types.{Time}
use dwh.Common.Rows.{Offer, FungibleToken, FungibleTokenTransfer, User, Tx}
use dwh.Database.Tables.{
  Table, ForeignKey, Tables, Row, Stamp, stamped, insert, Column, update_token, Deletion, erase,
  set_sequence, append_to,
}
use dwh.Database.Schema.{contains, refers, fits, add_table, remove_table, add_key}

-- What `Row().Scan(…)` gives: a row, sql.ErrNoRows, or another error.
pub data Scan (A : Type 0) : Type 0 where
  found : A → Scan A
  no_rows : Scan A
  scan_error : String → Scan A

pub record Gorm : Type 1 where
  pub Db : Type 0
  -- `db.Error`
  pub error : Db → Option String
  -- `db.Close()`: the handle, once the connections behind it are closed
  pub close : Db → Db
  -- `db.Create(&row)`
  pub create : Row → Db → Tables → Db × Tables
  -- `db.Create(tx).Scan(tx)`, with the fields of `tx` afterwards
  pub create_tx : Tx → Db → Tables → Db × Tx × Tables
  -- `db.Model(&NFT{}).Where("token_id = ?", id).UpdateColumns(…)`
  pub update_columns : String → List Column → Db → Tables → Db × Tables
  -- `db.Where(…).Delete(…)`
  pub delete : Deletion → Db → Tables → Db × Tables
  -- `db.Table("users").Where("address = ?", a).Row().Scan(…)`
  pub scan_user : String → Db → Tables → Scan User
  -- `db.Model(&user).Update("sequence_number", n)`
  pub update_sequence : User → ℕ → Db → Tables → Db × Tables
  -- `db.Table("offers").Where("token_id = ? AND offer_id = ?", …).Row().Scan(…)`
  pub scan_offer : String → String → Db → Tables → Scan Offer
  -- `db.Where("denom = ?", d).First(&ft)`, with the fields of `ft` afterwards
  pub first_token : String → Db → Tables → FungibleToken
  -- `db.Model(&ft).Association("FungibleTokenTransfers").Append(…)`
  pub append_transfer : FungibleToken → FungibleTokenTransfer → Db → Tables → Tables
  pub has_table : Table → Db → Tables → Bool
  pub create_table : Table → Db → Tables → Db × Tables
  pub drop_table_if_exists : Table → Db → Tables → Db × Tables
  pub add_foreign_key : ForeignKey → Db → Tables → Db × Tables

module _ (G : Gorm) where
  open G use {
    Db, error, close, create, create_tx, update_columns, delete, scan_user, update_sequence,
    scan_offer, first_token, append_transfer, has_table, create_table, drop_table_if_exists,
    add_foreign_key,
  }

  pub record IsLawful : Type 0 where
    -- A call that reports no error has done its work; one that reports an error has done nothing.
    pub create_done :
        (r : Row) (db : Db) (t : Tables)
        → error (create r db t).0 ≡ none
        → (s : Stamp) × (0 < s.key) × ((create r db t).1 ≡ insert s r t)
    pub create_failed :
        (r : Row) (db : Db) (t : Tables) (e : String)
        → error (create r db t).0 ≡ some e
        → (create r db t).1 ≡ t
    pub create_tx_done :
        (x : Tx) (db : Db) (t : Tables)
        → error (create_tx x db t).0 ≡ none
        → (s : Stamp) × ((create_tx x db t).1 ≡ record x { model = stamped s })
          × ((create_tx x db t).2 ≡ insert s (Row.tx x) t)
    -- The insertion may have worked and the scan failed.
    pub create_tx_failed :
        (x : Tx) (db : Db) (t : Tables) (e : String)
        → error (create_tx x db t).0 ≡ some e
        → ((create_tx x db t).2 ≡ t)
          ⊎ ((s : Stamp) × ((create_tx x db t).2 ≡ insert s (Row.tx x) t))
    pub update_columns_done :
        (id : String) (cs : List Column) (db : Db) (t : Tables)
        → error (update_columns id cs db t).0 ≡ none
        → (update_columns id cs db t).1
          ≡ record t { nfts = map (update_token id cs) (Tables.nfts t) }
    pub update_columns_failed :
        (id : String) (cs : List Column) (db : Db) (t : Tables) (e : String)
        → error (update_columns id cs db t).0 ≡ some e
        → (update_columns id cs db t).1 ≡ t
    pub delete_done :
        (d : Deletion) (db : Db) (t : Tables)
        → error (delete d db t).0 ≡ none
        → (now : Time) × ((delete d db t).1 ≡ erase now d t)
    pub delete_failed :
        (d : Deletion) (db : Db) (t : Tables) (e : String)
        → error (delete d db t).0 ≡ some e
        → (delete d db t).1 ≡ t
    -- A row that is found is a row of the table, and one that is there is not missed: a query by
    -- the table's name has no model, so it also sees rows that are soft-deleted.
    pub scan_user_found :
        (a : String) (db : Db) (t : Tables) (u : User)
        → scan_user a db t ≡ found u
        → (u.address ≡ a) × Any (λ v. v ≡ u) t.users
    pub scan_user_no_rows :
        (a : String) (db : Db) (t : Tables)
        → scan_user a db t ≡ no_rows
        → ¬ Any (λ v. v.address ≡ a) t.users
    pub update_sequence_done :
        (u : User) (n : ℕ) (db : Db) (t : Tables)
        → error (update_sequence u n db t).0 ≡ none
        → (now : Time) × ((update_sequence u n db t).1
            ≡ record t { users = map (set_sequence now u.model.id n) t.users })
    pub update_sequence_failed :
        (u : User) (n : ℕ) (db : Db) (t : Tables) (e : String)
        → error (update_sequence u n db t).0 ≡ some e
        → (update_sequence u n db t).1 ≡ t
    pub scan_offer_found :
        (id offer_id : String) (db : Db) (t : Tables) (o : Offer)
        → scan_offer id offer_id db t ≡ found o
        → (o.token_id ≡ id) × (o.offer_id ≡ offer_id) × Any (λ v. v ≡ o) t.offers
    -- `ft` keeps its zero key unless a row of that denomination was found.
    pub first_token_found :
        (d : String) (db : Db) (t : Tables)
        → (first_token d db t).model.id ≢ 0
        → ((first_token d db t).denom ≡ d) × Any (λ v. v ≡ first_token d db t) t.fungible_tokens
    -- The outcome of `Append` is not looked at, so it may have failed.
    pub append_transfer_tried :
        (ft : FungibleToken) (r : FungibleTokenTransfer) (db : Db) (t : Tables)
        → (append_transfer ft r db t ≡ t)
          ⊎ ((s : Stamp) × (append_transfer ft r db t ≡ append_to s ft r t))

  -- A call on a handle with an error does nothing and returns a handle with that error.
  pub record IsSticky : Type 0 where
    pub create_sticky :
        (r : Row) (db : Db) (t : Tables) (e : String)
        → error db ≡ some e
        → (error (create r db t).0 ≡ some e) × ((create r db t).1 ≡ t)
    pub create_tx_sticky :
        (x : Tx) (db : Db) (t : Tables) (e : String)
        → error db ≡ some e
        → (error (create_tx x db t).0 ≡ some e) × ((create_tx x db t).2 ≡ t)

  -- Once the connections are closed, a row cannot be created.
  pub record IsClosing : Type 0 where
    pub create_tx_closed :
        (x : Tx) (db : Db) (t : Tables)
        → (e : String) × (error (create_tx x (close db) t).0 ≡ some e)
          × ((create_tx x (close db) t).2 ≡ t)

  -- The schema operations. A table can be dropped if no foreign key of another refers to it. A
  -- foreign key can be added to a table without rows; one that is there already is left, and of a
  -- new key on a table with rows, which PostgreSQL checks, nothing is said.
  pub record IsLawfulSchema : Type 0 where
    pub has_table_contains :
        (a : Table) (db : Db) (t : Tables) → has_table a db t ≡ contains a t.existing
    pub create_table_done :
        (a : Table) (db : Db) (t : Tables)
        → error db ≡ none
        → contains a t.existing ≡ false
        → (error (create_table a db t).0 ≡ none) × ((create_table a db t).1 ≡ add_table a t)
    pub drop_table_done :
        (a : Table) (db : Db) (t : Tables)
        → error db ≡ none
        → refers a t.foreign_keys ≡ false
        → (error (drop_table_if_exists a db t).0 ≡ none)
          × ((drop_table_if_exists a db t).1 ≡ remove_table a t)
    pub add_foreign_key_done :
        (k : ForeignKey) (db : Db) (t : Tables)
        → error db ≡ none
        → contains k.source t.existing ≡ true
        → contains k.target t.existing ≡ true
        → fits k t ≡ true
        → (error (add_foreign_key k db t).0 ≡ none) × ((add_foreign_key k db t).1 ≡ add_key k t)
