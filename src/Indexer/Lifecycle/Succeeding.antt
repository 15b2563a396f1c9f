-- ===== src/Indexer/Lifecycle/Succeeding.antt =====
-- `Setup` of x/indexer/indexer.go with the marketplace's handler, with or without a reset.
use Prim.Native.String.{String}
use mathlib.Core.Path.{subst}
use dwh.Base.{◌≡◌, refl, ap, sym, ◌∙◌, Bool, true, false, some, List, [], ◌∷◌, arith, ⊤, All, ◌||◌}
use dwh.Database.Gorm.{IsLawfulSchema}
use dwh.Database.Schema.{contains, same}
use dwh.Database.Tables.{Table, nfts, txes, messages}
use dwh.Env.Action.{Outcome, ok}
use dwh.Env.Calls.{Env, Db}
use dwh.Marketplace.Users.{MarketplaceHandler}
use dwh.Marketplace.Schema.{key, setup_tables, drop_table_if_exists, add_foreign_key}
use dwh.Marketplace.Schema.Dropping.{IsFree, tables_of, safe-refers, select-IsFree, reset_done}
use dwh.Marketplace.Schema.Creating.{setup_done}
use dwh.Indexer.State.{MsgHandler, Node, Indexer, Run, ◌>>◌, set_db}
use dwh.Indexer.Lifecycle.{
  assign, ensure, drop_own_tables, setup_indexer_tables, setup_module, setup_modules, setup,
}
use dwh.Indexer.Lifecycle.Preparing.{exists, Ready, run_ok, ensure_done, add_key_done, drop_done}
use dwh.Indexer.Routes.{marketplace_handler}

-- The indexer's two tables and the handler's six are all there are.
all_there :
    (b : Table) (old new : List Table)
    → contains txes old ≡ true
    → contains messages old ≡ true
    → contains b new ≡ (contains b old || contains b (tables_of setup_tables))
    → contains b new ≡ true
all_there nfts old new tx msg h = ground arith
all_there b old new tx msg h = ground arith

module _ ⦃E : Env⦄ ⦃N : Node⦄ where
  -- An action that ends without an error in a state that is ready, with the same handlers.
  abbrev pub Succeeds : Outcome ⊤ × Indexer → Indexer → Type 0
  Succeeds r s = (s' : Indexer) × (r ≡ (ok tt, s')) × Ready s' × (s'.handlers ≡ s.handlers)

  module _ (S : IsLawfulSchema E.gorm) where
    drop_own_tables_done :
        (reset : Bool) (s : Indexer) → Ready s → Succeeds (drop_own_tables reset s) s
    unfolding drop_own_tables
    drop_own_tables_done true s ready =
        let fks = s.world.tables.foreign_keys in
        let (s1, e1, ready1, h1, t1) =
          drop_done S messages "failed to drop table messages: " s ready
            (safe-refers messages [] fks refl ready.1) in
        let gone : IsFree (messages ∷ []) s1.world.tables.foreign_keys =
          subst (λ t. IsFree (messages ∷ []) t.foreign_keys) (sym t1)
            (select-IsFree messages [] fks ready.1) in
        let (s2, e2, ready2, h2, t2) =
          drop_done S txes "failed to drop table txes: " s1 ready1
            (safe-refers txes (messages ∷ []) s1.world.tables.foreign_keys refl gone) in
        let drop_messages : Run ⊤ =
          assign (drop_table_if_exists messages) "failed to drop table messages: " in
        let drop_txes : Run ⊤ = assign (drop_table_if_exists txes) "failed to drop table txes: " in
        (s2, run_ok drop_messages drop_txes s s1 _ e1 e2, ready2, h2 ∙ h1)
    drop_own_tables_done false s ready = (s, refl, ready, refl)

    own_tables_done :
        (reset : Bool) (s : Indexer)
        → Ready s
        → (s' : Indexer) × (setup_indexer_tables reset s ≡ (ok tt, s'))
          × Ready s'
          × (s'.handlers ≡ s.handlers)
          × (exists s' txes ≡ true)
          × (exists s' messages ≡ true)
    unfolding setup_indexer_tables
    own_tables_done reset s ready =
        let (s1, e1, r1, h1) = drop_own_tables_done reset s ready in
        let (s2, e2, r2, h2, x2) = ensure_done S txes "failed to create table txes: " s1 r1 in
        let (s3, e3, r3, h3, x3) =
          ensure_done S messages "failed to create table messages: " s2 r2 in
        let t3 : exists s3 txes ≡ true = ground (arith, x2 txes, x3 txes) in
        let m3 : exists s3 messages ≡ true = ground (arith, x3 messages) in
        let (s4, e4, r4, h4, x4) =
          add_key_done S (key messages "tx_id" txes) "failed to add foreign key (messages): " s3 r3
            refl m3 t3 r3.2.0 in
        let c1 : Run ⊤ = ensure txes "failed to create table txes: " in
        let c2 : Run ⊤ = ensure messages "failed to create table messages: " in
        let c3 : Run ⊤ =
          assign (add_foreign_key (key messages "tx_id" txes))
            "failed to add foreign key (messages): " in
        let steps =
          run_ok (drop_own_tables reset) (c1 >> (c2 >> c3)) s s1 _ e1
            (run_ok c1 (c2 >> c3) s1 s2 _ e2 (run_ok c2 c3 s2 s3 _ e3 e4)) in
        (s4, steps, r4, h4 ∙ (h3 ∙ (h2 ∙ h1)), x4 txes ∙ t3, x4 messages ∙ m3)

    -- One turn of the loop of `Setup`, for the marketplace's handler.
    module_done :
        (m : MarketplaceHandler) (reset : Bool) (s : Indexer)
        → Ready s
        → exists s txes ≡ true
        → exists s messages ≡ true
        → (s' : Indexer) × (setup_module reset (marketplace_handler m) s ≡ (ok tt, s'))
          × Ready s'
          × (s'.handlers ≡ s.handlers)
          × ((b : Table) → exists s' b ≡ true)
    unfolding setup_module marketplace_handler
    module_done m true s ((db, there, clean), free, fit) tx msg =
        let (db1, w1, e1, clean1, x1, free1, fit1) = reset_done S db s.world clean free fit in
        let (db2, w2, e2, clean2, x2, free2, fit2) = setup_done S db1 w1 clean1 free1 fit1 in
        (
          set_db (some db2) (record s { world = w2 }),
          ground arith,
          ((db2, refl, clean2), free2, fit2),
          refl,
          λ b.
              all_there b w1.tables.existing w2.tables.existing (ground (arith, x1 txes))
                (ground (arith, x1 messages)) (x2 b),
        )
    module_done m false s ((db, there, clean), free, fit) tx msg =
        let (db2, w2, e2, clean2, x2, free2, fit2) = setup_done S db s.world clean free fit in
        (
          set_db (some db2) (record s { world = w2 }),
          ground arith,
          ((db2, refl, clean2), free2, fit2),
          refl,
          λ b. all_there b s.world.tables.existing w2.tables.existing tx msg (x2 b),
        )

    modules_done :
        (m : MarketplaceHandler) (reset : Bool) (l : List (String × MsgHandler)) (s : Indexer)
        → All (λ p. p.1 ≡ marketplace_handler m) l
        → Ready s
        → ((b : Table) → exists s b ≡ true)
        → (s' : Indexer) × (setup_modules reset l s ≡ (ok tt, s'))
          × Ready s'
          × ((b : Table) → exists s' b ≡ true)
    unfolding setup_modules
    modules_done m reset [] s h ready all = (s, refl, ready, all)
    modules_done m reset ((route, j) ∷ l) s h ready all =
        let (s1, e1, ready1, h1, all1) = module_done m reset s ready (all txes) (all messages) in
        let (s2, e2, ready2, all2) = modules_done m reset l s1 h.1 ready1 all1 in
        let step = ap (λ x. setup_module reset x s) h.0 ∙ e1 in
        (s2, ground (arith, step, e2), ready2, all2)

    setup-ok :
        (reset : Bool) (s s1 s2 : Indexer) (db : Db)
        → s.db ≡ some db
        → setup_indexer_tables reset s ≡ (ok tt, s1)
        → setup_modules reset s.handlers s1 ≡ (ok tt, s2)
        → setup reset s ≡ (ok tt, s2)
    unfolding setup
    setup-ok reset s s1 s2 db there e1 e2 = rw (there, setup) (ground (arith, e1, e2))

    -- With the marketplace's handler under one or more routes, on a lawful database, a handle
    -- without an error, no foreign keys but those that the program sets up, and these already on
    -- each table that has rows, `Setup` of the indexer ends without an error, with or without a
    -- reset, and whichever tables are there before; afterwards all eight tables are there, the
    -- handle has no error, and the foreign keys are still of the same kind and on each table that
    -- has rows.
    pub setup_succeeds :
        (m : MarketplaceHandler) (reset : Bool) (route : String) (l : List (String × MsgHandler))
        (s : Indexer)
        → s.handlers ≡ (route, marketplace_handler m) ∷ l
        → All (λ p. p.1 ≡ marketplace_handler m) l
        → Ready s
        → (s' : Indexer) × (setup reset s ≡ (ok tt, s'))
          × Ready s'
          × ((b : Table) → exists s' b ≡ true)
    unfolding setup_modules
    setup_succeeds m reset route l s hs same ready =
        let (s1, e1, ready1, h1, tx, msg) = own_tables_done reset s ready in
        let (s2, e2, ready2, h2, all2) = module_done m reset s1 ready1 tx msg in
        let (s3, e3, ready3, all3) = modules_done m reset l s2 same ready2 all2 in
        let modules : setup_modules reset ((route, marketplace_handler m) ∷ l) s1 ≡ (ok tt, s3) =
          ground (arith, e2, e3) in
        let handlers = ap (λ x. setup_modules reset x s1) hs ∙ modules in
        let (db, there, _) = ready.0 in
        (s3, setup-ok reset s s1 s3 db there e1 handlers, ready3, all3)
