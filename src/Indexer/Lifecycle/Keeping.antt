-- ===== src/Indexer/Lifecycle/Keeping.antt =====
-- What `Setup` of x/indexer/indexer.go leaves as it is: the cursor.
use Prim.Native.String.{String}
use dwh.Base.{◌≡◌, refl, Bool, true, false, List, [], ◌∷◌, arith, ⊤, inl, inr}
use dwh.Database.Tables.{Table, txes, messages}
use dwh.Env.Action.{Action, Outcome-cases}
use dwh.Env.Calls.{Env, Db}
use dwh.Marketplace.Schema.{key, drop_table_if_exists, add_foreign_key}
use dwh.Indexer.State.{MsgHandler, Node, Indexer, Run, ◌>>◌}
use dwh.Indexer.Lifecycle.{
  assign, ensure, drop_own_tables, setup_indexer_tables, setup_module, setup_modules, setup,
}

module _ ⦃E : Env⦄ ⦃N : Node⦄ where
  -- An action keeps the cursor.
  abbrev pub KeepsCursor : Run ⊤ → Type 0
  KeepsCursor m = (s : Indexer) → (m s).1.cursor ≡ s.cursor

  KeepsCursor-then : (m k : Run ⊤) → KeepsCursor m → KeepsCursor k → KeepsCursor (m >> k)
  KeepsCursor-then m k hm hk s = elim (Outcome-cases (m s).0) [
    | inl (a, e) ↦ ground (arith, e, hm s, hk (m s).1)
    | inr (inl (x, e)) ↦ ground (arith, e, hm s)
    | inr (inr e) ↦ ground (arith, e, hm s)
  ]

  assign-KeepsCursor : (f : Db → Action Db) (text : String) → KeepsCursor (assign f text)
  assign-KeepsCursor f text s = ground arith

  ensure-KeepsCursor : (a : Table) (text : String) → KeepsCursor (ensure a text)
  ensure-KeepsCursor a text s = ground arith

  drop_own_tables-KeepsCursor : (reset : Bool) → KeepsCursor (drop_own_tables reset)
  unfolding drop_own_tables
  drop_own_tables-KeepsCursor true s =
      let drop_messages : Run ⊤ =
        assign (drop_table_if_exists messages) "failed to drop table messages: " in
      let drop_txes : Run ⊤ = assign (drop_table_if_exists txes) "failed to drop table txes: " in
      KeepsCursor-then drop_messages drop_txes
        (assign-KeepsCursor (drop_table_if_exists messages) "failed to drop table messages: ")
        (assign-KeepsCursor (drop_table_if_exists txes) "failed to drop table txes: ") s
  drop_own_tables-KeepsCursor false s = refl

  setup_indexer_tables-KeepsCursor : (reset : Bool) → KeepsCursor (setup_indexer_tables reset)
  unfolding setup_indexer_tables
  setup_indexer_tables-KeepsCursor reset s =
      let c1 : Run ⊤ = ensure txes "failed to create table txes: " in
      let c2 : Run ⊤ = ensure messages "failed to create table messages: " in
      let c3 : Run ⊤ =
        assign (add_foreign_key (key messages "tx_id" txes))
          "failed to add foreign key (messages): " in
      let k1 : KeepsCursor c1 = ensure-KeepsCursor txes "failed to create table txes: " in
      let k2 : KeepsCursor c2 = ensure-KeepsCursor messages "failed to create table messages: " in
      let k3 : KeepsCursor c3 =
        assign-KeepsCursor (add_foreign_key (key messages "tx_id" txes))
          "failed to add foreign key (messages): " in
      KeepsCursor-then (drop_own_tables reset) (c1 >> (c2 >> c3))
        (drop_own_tables-KeepsCursor reset)
        (KeepsCursor-then c1 (c2 >> c3) k1 (KeepsCursor-then c2 c3 k2 k3)) s

  setup_module-KeepsCursor : (reset : Bool) (h : MsgHandler) → KeepsCursor (setup_module reset h)
  unfolding setup_module
  setup_module-KeepsCursor true h s = ground arith
  setup_module-KeepsCursor false h s = ground arith

  setup_modules-KeepsCursor :
      (reset : Bool) (l : List (String × MsgHandler)) → KeepsCursor (setup_modules reset l)
  unfolding setup_modules
  setup_modules-KeepsCursor reset [] s = refl
  setup_modules-KeepsCursor reset ((route, h) ∷ l) s = ground (
    arith,
    setup_module-KeepsCursor reset h s,
    setup_modules-KeepsCursor reset l (setup_module reset h s).1,
  )

  pub setup-KeepsCursor : (reset : Bool) → KeepsCursor (setup reset)
  unfolding setup
  setup-KeepsCursor reset s = ground (
    arith,
    setup_indexer_tables-KeepsCursor reset s,
    setup_modules-KeepsCursor reset s.handlers (setup_indexer_tables reset s).1,
  )
