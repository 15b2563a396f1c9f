-- ===== src/Marketplace/Users.antt =====
-- The users that a message touches, and the token that the node knows: `findOrCreateUser`,
-- `getAccount` and `queryNFT`, with the struct of the handler.
pub mod Frame
pub mod Cases
pub mod Known
pub mod Keeps
use Prim.Native.String.{String}
use dwh.Base.{ℕ, Option, none, some, List, [], ◌∷◌, ⊤, ◌<>◌}
use dwh.Common.Types.{AccAddress}
use dwh.Common.Rows.{User, new_user}
use dwh.Common.Queue.{RmqSender}
use dwh.Database.Tables.{Row}
use dwh.Database.Gorm.{Scan, found, no_rows, scan_error}
use dwh.Env.Action.{Action, ok, option_text, pure, fail, wrap, ◌>>=◌, ◌>>◌, fail_if, fail_as}
use dwh.Env.Calls.{Env, Reply, reply, failure, Account, NftInfo, Db, db_error, check, create}

-- `MarketplaceHandler`: its codec, its node context and its metrics are in `Env`.
pub record MarketplaceHandler : Type 0 where
  pub uri_sender : RmqSender

module _ ⦃E : Env⦄ where
  abbrev pub answer : {A : Type 0} → Reply A → Action A
  answer (reply a) = pure a
  answer (failure e) = fail e

  unfoldable pub get_account : AccAddress → Action Account
  get_account addr = fail_if (E.ensure_exists addr) "" >> answer (E.get_account addr)

  -- `db.Table("users").Where("address = ?", …).Row().Scan(…)`
  abbrev pub scan_user : String → Db → Action (Scan User)
  scan_user address db w = (ok (E.gorm.scan_user address db w.tables), w)

  abbrev pub update_sequence : User → ℕ → Db → Action Db
  update_sequence user n db w =
      let (db', t) = E.gorm.update_sequence user n db w.tables in (ok db', record w { tables = t })

  -- The branch of sql.ErrNoRows. It returns a nil user without an error, and its error message
  -- prints the error of the handle that it was given.
  unfoldable pub create_user : AccAddress → Account → Db → Action (Option User)
  create_user addr acc db = do
    let user = new_user E.sdk "" acc.address acc.coins acc.account_number acc.sequence
    db' ← create (Row.user user) db
    fail_as (db_error db') (
        "failed to add user for address "
        <> (E.sdk.address addr <> (": " <> option_text (db_error db))))
    pure none

  unfoldable pub update_user : AccAddress → Account → User → Db → Action (Option User)
  update_user addr acc user db = do
    let user' = record user { sequence_number = acc.sequence }
    db' ← update_sequence user' acc.sequence db
    check db' ("failed to update user " <> (E.sdk.address addr <> ": "))
    pure (some user')

  unfoldable pub find_or_create_user : AccAddress → Db → Action (Option User)
  unfolding get_account create_user update_user
  find_or_create_user addr db = do
    let address = E.sdk.address addr
    acc ← wrap ("failed to find owner with addr " <> (address <> ": ")) (get_account addr)
    row ← scan_user address db
    elim row [
      | no_rows ↦ create_user addr acc db
      | scan_error e ↦ fail e
      | found user ↦ update_user addr acc user db
    ]

  -- The loop of `Handle` over the addresses of a message.
  unfoldable pub create_users : List AccAddress → Db → Action ⊤
  create_users [] db = pure tt
  create_users (addr ∷ addrs) db =
      wrap "failed to preemptively create users for message: " (find_or_create_user addr db)
      >>= λ _. create_users addrs db

  -- A nil pointer stands for the answer null.
  unfoldable pub query_nft : String → Action (Option NftInfo)
  query_nft token_id = answer (E.query_with_data ("custom/marketplace/nft/" <> token_id)) >>= λ res.
      answer (E.unmarshal_nft res)
