-- ===== src/Indexer/State.antt =====
-- The indexer's surroundings, its handlers and its state, and Go calls on that state. `Run` is to
-- the indexer what `Action` is to a handler.
use Prim.Native.String.{String}
use dwh.Base.{ℕ, ◌≡◌, Bool, true, Option, none, some, List, [], ◌∷◌, ⊤, str_eq, if◌then◌else◌}
use dwh.Common.Rows.{ResultTx}
use dwh.Env.Action.{World, Outcome, ok, err, panic, Action, errorf}
use dwh.Env.Calls.{Env, Db, Reply, reply}
use dwh.Marketplace.Messages.{Msg, Event}
use dwh.Indexer.Cursor.{Cursor, Stored, marshal}

-- handlers.MsgHandler. `Setup` and `Reset` may get a nil handle; `Handle` gets none, since
-- `processTxs` has used the handle before.
pub record MsgHandler ⦃E : Env⦄ : Type 0 where
  pub handle : Msg → List Event → Db → Action ⊤
  pub setup : Option Db → Action Db
  pub reset : Option Db → Action Db
  pub router_keys : List String
  pub stop : Action ⊤

-- types.Tx
abbrev pub TxBytes : Type 0
TxBytes = List ℕ

-- The node, the decoder, the SDK's code of an unknown request, `%+v` of a message, and the state
-- database, whose contents are a `Store`. Its key is always "cursor".
pub record Node : Type 1 where
  pub tx : TxBytes → Reply (ResultTx Event)
  pub tx_decoder : TxBytes → Reply (List Msg)
  pub code_unknown_request : ℕ
  pub show_msg : Msg → String
  pub Store : Type 0
  pub has : Store → Reply Bool
  pub get : Store → Reply Stored
  pub put : Stored → Store → Option String × Store
  pub close : Store → Store

-- What LevelDB documents of a key: what was put without an error is there until the next put.
pub record IsStore (N : Node) : Type 0 where
  pub has_put : (b : Stored) (s : N.Store) → (N.put b s).0 ≡ none → N.has (N.put b s).1 ≡ reply true
  pub get_put : (b : Stored) (s : N.Store) → (N.put b s).0 ≡ none → N.get (N.put b s).1 ≡ reply b

-- Once the store is closed, nothing can be put there, and it stays closed.
pub record IsClosingStore (N : Node) : Type 0 where
  pub put_closed :
      (b : Stored) (s : N.Store) → (e : String) × (N.put b (N.close s) ≡ (some e, N.close s))

module _ ⦃E : Env⦄ ⦃N : Node⦄ where
  -- Indexer. `db` is none when the pointer is nil; `cancelled` says that its context is done, and
  -- `closed` that both databases were closed.
  pub record Indexer : Type 0 where
    pub db : Option Db
    pub store : N.Store
    pub handlers : List (String × MsgHandler)
    pub cursor : Cursor
    pub cancelled : Bool
    pub closed : Bool
    pub world : World

  abbrev pub Run : Type 0 → Type 0
  Run A = Indexer → Outcome A × Indexer

  abbrev pub skip : Run ⊤
  skip s = (ok tt, s)

  infixl 5 ◌>>=◌ ◌>>◌
  abbrev pub ◌>>=◌ : {A B : Type 0} → Run A → (A → Run B) → Run B
  ◌>>=◌ m f s =
      let (r, s') = m s in elim r [ ok a ↦ f a s' | err e ↦ (err e, s') | panic ↦ (panic, s') ]

  abbrev pub ◌>>◌ : {B : Type 0} → Run ⊤ → Run B → Run B
  m >> k = m >>= λ _. k

  -- A call of gorm, or of a handler's `Handle`, on `m.db`; on a nil pointer it panics.
  abbrev pub call : {A : Type 0} → (Db → Action A) → Run A
  call f s = elim s.db [
    | none ↦ (panic, s)
    | some db ↦ let (r, w) = f db s.world in (r, record s { world = w })
  ]

  -- A call that gets `m.db` as it is, nil or not.
  abbrev pub call_on : {A : Type 0} → (Option Db → Action A) → Run A
  call_on f s = let (r, w) = f s.db s.world in (r, record s { world = w })

  -- `m.db = …`
  abbrev pub set_db : Option Db → Indexer → Indexer
  set_db db s = record s { db = db }

  -- `updateCursor`. The cursor in memory changes also when the write fails.
  unfoldable pub update_cursor : ℕ → ℕ → ℕ → Run ⊤
  unfolding marshal
  update_cursor height tx_index msg_id s =
      let c : Cursor = record { height = height; tx_index = tx_index; msg_id = msg_id } in
      let (e, store) = N.put (marshal c) s.store in
      let s' = record s { cursor = c; store = store } in
      elim e [ none ↦ (ok tt, s') | some e ↦ (err (errorf e), s') ]

  -- `m.handlers[route]`
  abbrev pub find_handler : String → List (String × MsgHandler) → Option MsgHandler
  find_handler route [] = none
  find_handler route ((key, h) ∷ l) =
      let rest = find_handler route l in if str_eq key route then some h else rest

  -- `indexer.handlers[routerKey] = handler`
  abbrev pub set_handler :
      String → MsgHandler → List (String × MsgHandler) → List (String × MsgHandler)
  set_handler route h [] = (route, h) ∷ []
  set_handler route h ((key, j) ∷ l) =
      let rest = set_handler route h l in
      if str_eq key route then (route, h) ∷ l else (key, j) ∷ rest
