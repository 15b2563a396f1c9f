-- ===== src/IndexerMain/Following.antt =====
-- The indexer that cmd/indexer/main.go starts on an empty state database.
use Prim.Native.String.{String}
use mathlib.Core.Path.{subst}
use dwh.Base.{
  ℕ, ◌+◌, ◌%◌, ◌≡◌, refl, ap, sym, ◌∙◌, true, false, none, some, List, [], ◌∷◌, arith, inl, inr,
  Option, Option-cases, Bool-cases, All, str_eq,
}
use dwh.Common.Config.{DwhCommonServiceConfig}
use dwh.Common.Config.Reading.{
  ConfigHost, ConfigFile, Setting, read_common_config, get_db, init_config,
}
use dwh.Common.Connections.{Faults}
use dwh.Database.Gorm.{IsLawfulSchema}
use dwh.Database.Tables.{Table}
use dwh.Env.Action.{World, ok, Outcome-cases}
use dwh.Env.Calls.{Env, Db, db_error, reply}
use dwh.Marketplace.Users.{MarketplaceHandler}
use dwh.Marketplace.Schema.{router_keys}
use dwh.Marketplace.Schema.Fitting.{OwnKeysFit}
use dwh.Marketplace.Schema.Dropping.{IsFree}
use dwh.Indexer.Cursor.{first_cursor, word, marshal}
use dwh.Indexer.State.{MsgHandler, IsStore, Node, Indexer, update_cursor}
use dwh.Indexer.Blocks.{Ask, running, start}
use dwh.Indexer.Blocks.Heights.{Follows, start-Follows, Follows-height}
use dwh.Indexer.Lifecycle.{
  set_handlers, with_handler, with_handlers, restore_cursor, new_indexer, setup,
}
use dwh.Indexer.Lifecycle.Keeping.{setup-KeepsCursor}
use dwh.Indexer.Lifecycle.Preparing.{exists, Ready}
use dwh.Indexer.Lifecycle.Succeeding.{setup_succeeds}
use dwh.Indexer.Routes.{marketplace_handler}
use dwh.IndexerMain.{
  Libraries, Signal, get_env, new_marketplace_handler, run_group, run_indexer, main,
}

module _ ⦃E : Env⦄ ⦃N : Node⦄ where
  -- A new indexer on an empty state database, if there is one.
  new_indexer-fresh :
      (store : N.Store) (db : Db) (m : MarketplaceHandler) (w : World) (s : Indexer)
      → N.has store ≡ reply false
      → new_indexer (reply store) db (marketplace_handler m ∷ []) w ≡ ok s
      → (s.cursor ≡ first_cursor)
        × (s.db ≡ some db)
        × (s.world ≡ w)
        × (s.handlers ≡ set_handlers (marketplace_handler m).router_keys (marketplace_handler m) [])
  unfolding new_indexer with_handlers with_handler restore_cursor update_cursor
  new_indexer-fresh store db m w s h e =
      elim (Option-cases (N.put (marshal first_cursor) store).0) [
        | inl put ↦ ground (arith, h, put, e)
        | inr (x, put) ↦ absurd (ground (arith, h, put, e))
      ]

  -- The marketplace's two routes may be the same.
  routes :
      (m : MarketplaceHandler)
      → (route : String) × (l : List (String × MsgHandler)) × (set_handlers
            (marketplace_handler m).router_keys
            (marketplace_handler m)
            []
          ≡ (route, marketplace_handler m) ∷ l)
        × All (λ p. p.1 ≡ marketplace_handler m) l
  unfolding marketplace_handler router_keys
  routes m = elim (Bool-cases (str_eq E.sdk.marketplace_module_name E.sdk.nft_module_name)) [
    | inl e ↦ (E.sdk.nft_module_name, [], ground (arith, e), tt)
    | inr e ↦ (
      E.sdk.marketplace_module_name,
      (E.sdk.nft_module_name, marketplace_handler m) ∷ [],
      ground (arith, e),
      (refl, tt),
    )
  ]

  -- What has come before `Setup`, if the indexer is running.
  main_made :
      (L : Libraries) (F : Faults) (V : ConfigHost) (read : String → ConfigFile)
      (own : List (String × Setting)) (asks : List Ask) (signal : Option Signal) (w : World)
      (db : Db) (t : Indexer)
      → let cfg = read_common_config V "config" "/root/" in
        get_db V L.gorm_open cfg ≡ reply db
        → main L F V read own asks signal w ≡ ok (running, t)
        → (m : MarketplaceHandler) × (s : Indexer) × (new_indexer
              (L.open_store cfg.indexer.state_path)
              db
              (marketplace_handler m ∷ [])
              w
            ≡ ok s)
          × (run_indexer cfg asks signal s ≡ ok (running, t))
  unfolding main
  main_made L F V read own asks signal w db t opened h =
      let cfg = read_common_config V "config" "/root/" in
      elim (Outcome-cases (init_config read own)) [
        | inr (inl (e, i)) ↦ absurd (ground (arith, i, h))
        | inr (inr i) ↦ absurd (ground (arith, i, h))
        | inl (_, i) ↦ elim (Outcome-cases (get_env L cfg)) [
          | inr (inl (e, v)) ↦ absurd (ground (arith, i, opened, v, h))
          | inr (inr v) ↦ absurd (ground (arith, i, opened, v, h))
          | inl (_, v) ↦ elim (Outcome-cases (new_marketplace_handler F V L.register []).0) [
            | inr (inl (e, n)) ↦ absurd (ground (arith, i, opened, v, n, h))
            | inr (inr n) ↦ absurd (ground (arith, i, opened, v, n, h))
            | inl (m, n) ↦
                let made =
                  new_indexer (L.open_store cfg.indexer.state_path) db (marketplace_handler m ∷ [])
                    w in
                elim (Outcome-cases made) [
                  | inr (inl (e, x)) ↦ absurd (ground (arith, i, opened, v, n, x, h))
                  | inr (inr x) ↦ absurd (ground (arith, i, opened, v, n, x, h))
                  | inl (s, x) ↦ (m, s, x, ground (arith, i, opened, v, n, x, h))
                ]
          ]
        ]
      ]

  run_started :
      (cfg : DwhCommonServiceConfig) (asks : List Ask) (signal : Option Signal) (s s' t : Indexer)
      → setup cfg.indexer.reset_database s ≡ (ok tt, s')
      → run_indexer cfg asks signal s ≡ ok (running, t)
      → ((start asks s').0 ≡ running) × ((start asks s').1 ≡ t)
  unfolding run_indexer run_group
  run_started cfg asks signal s s' t e h = ground (arith, e, h)

  -- Where the command of the indexer is running, on a lawful database whose handle has no error,
  -- which has no foreign keys but those that the program sets up and has those already on each
  -- table that has rows, and with a state database that had no cursor and keeps what is put there,
  -- there was a state after `Setup` in which all eight tables were there, the handle had no error
  -- and the cursor was at the first block, and from it `Start` has followed the chain block by
  -- block: after n blocks the height of the cursor is 1 + n, as an int64.
  pub main-Follows :
      (S : IsLawfulSchema E.gorm) (K : IsStore N) (L : Libraries) (F : Faults) (V : ConfigHost)
      (read : String → ConfigFile) (own : List (String × Setting)) (asks : List Ask)
      (signal : Option Signal) (w : World) (db : Db) (store : N.Store) (t : Indexer)
      → let cfg = read_common_config V "config" "/root/" in
        get_db V L.gorm_open cfg ≡ reply db
        → db_error db ≡ none
        → IsFree [] w.tables.foreign_keys
        → OwnKeysFit w.tables
        → L.open_store cfg.indexer.state_path ≡ reply store
        → N.has store ≡ reply false
        → main L F V read own asks signal w ≡ ok (running, t)
        → (s : Indexer) × (n : ℕ) × (s.cursor ≡ first_cursor)
          × Ready s
          × ((b : Table) → exists s b ≡ true)
          × Follows n asks s t
          × (t.cursor.height ≡ (1 + n) % word)
  main-Follows S K L F V read own asks signal w db store t opened clean free fit path empty h =
      let cfg = read_common_config V "config" "/root/" in
      let reset = cfg.indexer.reset_database in
      let (m, s, made, runs) = main_made L F V read own asks signal w db t opened h in
      let mh = marketplace_handler m in
      let (cursor, handle, world, handlers) =
        new_indexer-fresh store db m w s empty
          (ap (λ o. new_indexer o db (mh ∷ []) w) (sym path) ∙ made) in
      let (route, l, names, same) = routes m in
      let free' : IsFree [] s.world.tables.foreign_keys =
        subst (λ x. IsFree [] x.tables.foreign_keys) (sym world) free in
      let fit' = subst (λ x. OwnKeysFit x.tables) (sym world) fit in
      let (s', done, ready, there) =
        setup_succeeds S m reset route l s (handlers ∙ names) same
          ((db, handle, clean), free', fit') in
      let (going, ends) = run_started cfg asks signal s s' t done runs in
      let first : s'.cursor ≡ first_cursor =
        ap (λ x. x.1.cursor) (sym done) ∙ (setup-KeepsCursor reset s ∙ cursor) in
      let (n, f) = start-Follows K asks s' going in
      let f' : Follows n asks s' t = subst (Follows n asks s') ends f in
      let at : s'.cursor.height ≡ 1 = ap (λ c. c.height) first in
      (
        s',
        n,
        first,
        ready,
        there,
        f',
        Follows-height n asks s' t f' (omega (arith, at)) ∙ ap (λ x. (x + n) % word) at,
      )
