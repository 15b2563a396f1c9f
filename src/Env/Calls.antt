-- ===== src/Env/Calls.antt =====
-- What is outside the repository, as the record `Env`, and the calls on it as actions: gorm, the
-- node, the AMQP channel under `RMQSender.Publish` (x/common/rabbit_sender.go), and the counters.
use Prim.Native.String.{String}
use dwh.Base.{
  ◌≡◌, refl, ◌⊎◌, inl, inr, Bool, true, ℕ, Option, none, some, List, [], ◌∷◌, ◌++◌, ⊤, ◌<>◌,
}
use dwh.Common.Types.{AccAddress, Coins, Sdk}
use dwh.Common.Queue.{Publication, RmqSender, publication}
use dwh.Database.Tables.{Row, Column, Deletion}
use dwh.Database.Gorm.{Gorm}
use dwh.Env.Action.{Action, ok, err, errorf, fail_if}

-- An answer of the node, or the text of an error.
pub data Reply (A : Type 0) : Type 0 where
  reply : A → Reply A
  failure : String → Reply A

pub Reply-cases :
    {A : Type 0} (r : Reply A) → ((e : String) × (r ≡ failure e)) ⊎ ((a : A) × (r ≡ reply a))
Reply-cases (failure e) = inl (e, refl)
Reply-cases (reply a) = inr (a, refl)

-- client.Get of an http.Client, and the reading of the body.
pub data Fetched : Type 0 where
  no_answer : String → Fetched
  broken : String → Fetched
  fetched : List ℕ → Fetched

-- exported.Account
pub record Account : Type 0 where
  pub address : AccAddress
  pub coins : Coins
  pub account_number : ℕ
  pub sequence : ℕ

-- appTypes.NFTInfo, as far as the handler reads it.
pub record NftInfo : Type 0 where
  pub token_uri : String
  pub owner : AccAddress

pub record Env : Type 1 where
  pub gorm : Gorm
  pub sdk : Sdk
  -- `AccountRetriever.EnsureExists` and `GetAccount`
  pub ensure_exists : AccAddress → Option String
  pub get_account : AccAddress → Reply Account
  -- `QueryWithData`, and `UnmarshalJSON` into a nil pointer, which a null leaves nil
  pub query_with_data : String → Reply String
  pub unmarshal_nft : String → Reply (Option NftInfo)
  -- the error of `Channel.Publish`, or none when the broker takes the publication; the channel may
  -- be closed
  pub refuses : Bool → Publication → Option String
  -- the error of the sender's `Closer`
  pub close_error : Bool → Option String
  -- the error of `GetMetricWithLabelValues`
  pub metric_error : String → String → Option String

module _ ⦃E : Env⦄ where
  abbrev pub Db : Type 0
  Db = E.gorm.Db

  abbrev pub db_error : Db → Option String
  db_error = E.gorm.error

  -- `if db.Error != nil { return fmt.Errorf("…: %v", db.Error) }`
  abbrev pub check : Db → String → Action ⊤
  check db s = fail_if (db_error db) s

  abbrev pub create : Row → Db → Action Db
  create r db w = let (db', t) = E.gorm.create r db w.tables in (ok db', record w { tables = t })

  abbrev pub update_columns : String → List Column → Db → Action Db
  update_columns id cs db w =
      let (db', t) = E.gorm.update_columns id cs db w.tables in (ok db', record w { tables = t })

  abbrev pub delete : Deletion → Db → Action Db
  delete d db w = let (db', t) = E.gorm.delete d db w.tables in (ok db', record w { tables = t })

  -- The increments after one more, unless the counter cannot be had.
  unfoldable pub counted : String → String → List (String × String) → List (String × String)
  counted status msg_type l = elim (E.metric_error status msg_type) [
    | some e ↦ l
    | none ↦ l ++ ((status, msg_type) ∷ [])
  ]

  -- `increaseCounter`
  unfoldable pub increase_counter : String → String → Action ⊤
  increase_counter status msg_type w =
      (ok tt, record w { counters = counted status msg_type w.counters })

  -- `uriSender.Closer()`: the sender counts as closed also where closing it gives an error.
  unfoldable pub close_sender : Action ⊤
  close_sender w =
      let closed = record w { sender_closed = true } in
      elim (E.close_error w.sender_closed) [
        | some e ↦ (err (errorf e), closed)
        | none ↦ (ok tt, closed)
      ]

  -- `RMQSender.Publish`
  unfoldable pub publish : RmqSender → String → String → String → ℕ → Action ⊤
  publish s task_url owner token_id priority w =
      let p = publication s task_url owner token_id priority in
      elim (E.refuses w.sender_closed p) [
        | some e ↦ (err (errorf ("could not publish rabbitMQ message, error: " <> e)), w)
        | none ↦ (ok tt, record w { queue = w.queue ++ (p ∷ []) })
      ]
