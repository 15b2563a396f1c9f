-- ===== src/Indexer/Lifecycle/Preparing.antt =====
-- The steps of `setupIndexerTables` of x/indexer/indexer.go.
use Prim.Native.String.{String}
use dwh.Base.{
  ◌≡◌, refl, ap, ◌∙◌, Bool, true, false, none, some, List, [], arith, ⊤, inl, inr, Bool-cases, ◌||◌,
}
use dwh.Database.Gorm.{IsLawfulSchema}
use dwh.Database.Schema.{
  contains, same, refers, fits, add_table, remove_table, add_key as add_key_to,
}
use dwh.Database.Tables.{Table, ForeignKey}
use dwh.Env.Action.{Action, World, Outcome, ok, err, panic}
use dwh.Env.Calls.{Env, Db}
use dwh.Marketplace.Schema.{drop_table_if_exists, add_foreign_key}
use dwh.Marketplace.Schema.Fitting.{
  own_keys, OwnKeysFit, add_table-AllFit, add_key-AllFit, remove_table-AllFit,
}
use dwh.Marketplace.Schema.Dropping.{may_refer, same-eq, IsFree, remove_table-IsFree}
use dwh.Marketplace.Schema.Creating.{contains-append}
use dwh.Marketplace.Schema.Adding.{add_key-IsFree, add_key-existing}
use dwh.Indexer.State.{Node, Indexer, Run, ◌>>◌, set_db}
use dwh.Indexer.Messages.Rows.{Clean}
use dwh.Indexer.Lifecycle.{assign, ensure}

already_there :
    (a b : Table) (l : List Table) → contains a l ≡ true → contains b l ≡ (contains b l || same a b)
already_there a b l h = elim (Bool-cases (same a b)) [
  | inl e ↦ let equal : a ≡ b = same-eq a b e in ground arith
  | inr e ↦ ground arith
]

module _ ⦃E : Env⦄ ⦃N : Node⦄ where
  abbrev pub exists : Indexer → Table → Bool
  exists s b = contains b s.world.tables.existing

  -- The handle has no error, the foreign keys are those that the program sets up, and a table that
  -- has rows has its keys already.
  abbrev pub Ready : Indexer → Type 0
  Ready s = Clean s.db × IsFree [] s.world.tables.foreign_keys × OwnKeysFit s.world.tables

  -- An action that ends without an error in a state that is ready, with the same handlers, and
  -- where these tables exist.
  abbrev pub Reaches : Outcome ⊤ × Indexer → Indexer → (Table → Bool) → Type 0
  Reaches r s g =
      (s' : Indexer) × (r ≡ (ok tt, s'))
      × Ready s'
      × (s'.handlers ≡ s.handlers)
      × ((b : Table) → exists s' b ≡ g b)

  pub run_ok :
      (m k : Run ⊤) (s s' : Indexer) (r : Outcome ⊤ × Indexer)
      → m s ≡ (ok tt, s')
      → k s' ≡ r
      → (m >> k) s ≡ r
  run_ok m k s s' r h e =
      ap (λ x. elim x.0 [ ok a ↦ k x.1 | err y ↦ (err y, x.1) | panic ↦ (panic, x.1) ]) h ∙ e

  assign_done :
      (f : Db → Action Db) (text : String) (s : Indexer) (db db' : Db) (w : World)
      → s.db ≡ some db
      → f db s.world ≡ (ok db', w)
      → E.gorm.error db' ≡ none
      → assign f text s ≡ (ok tt, set_db (some db') (record s { world = w }))
  assign_done f text s db db' w h e clean = ground arith

  module _ (S : IsLawfulSchema E.gorm) where
    pub ensure_done :
        (a : Table) (text : String) (s : Indexer)
        → Ready s
        → Reaches (ensure a text s) s (λ b. exists s b || same a b)
    ensure_done a text s ((db, there, clean), free, fit) = elim (Bool-cases (exists s a)) [
      | inl e ↦ (
        s,
        ground (arith, S.has_table_contains a db s.world.tables),
        ((db, there, clean), free, fit),
        refl,
        λ b. already_there a b s.world.tables.existing e,
      )
      | inr e ↦
          let (clean', made) = S.create_table_done a db s.world.tables clean e in
          let db' = (E.gorm.create_table a db s.world.tables).0 in
          let w = record (s.world) { tables = add_table a s.world.tables } in
          (
            set_db (some db') (record s { world = w }),
            ground (arith, S.has_table_contains a db s.world.tables),
            ((db', refl, clean'), free, add_table-AllFit own_keys a s.world.tables fit),
            refl,
            λ b. contains-append b a s.world.tables.existing,
          )
    ]

    pub add_key_done :
        (k : ForeignKey) (text : String) (s : Indexer)
        → Ready s
        → may_refer k.source k.target ≡ true
        → exists s k.source ≡ true
        → exists s k.target ≡ true
        → fits k s.world.tables ≡ true
        → Reaches (assign (add_foreign_key k) text s) s (exists s)
    add_key_done k text s ((db, there, clean), free, fit) allowed from to fitting =
        let (clean', made) = S.add_foreign_key_done k db s.world.tables clean from to fitting in
        let db' = (E.gorm.add_foreign_key k db s.world.tables).0 in
        let w = record (s.world) { tables = add_key_to k s.world.tables } in
        (
          set_db (some db') (record s { world = w }),
          ground arith,
          (
            (db', refl, clean'),
            add_key-IsFree k s.world.tables allowed free,
            add_key-AllFit own_keys k s.world.tables fit,
          ),
          refl,
          λ b. ap (contains b) (add_key-existing k s.world.tables),
        )

    pub drop_done :
        (a : Table) (text : String) (s : Indexer)
        → Ready s
        → refers a s.world.tables.foreign_keys ≡ false
        → (s' : Indexer) × (assign (drop_table_if_exists a) text s ≡ (ok tt, s'))
          × Ready s'
          × (s'.handlers ≡ s.handlers)
          × (s'.world.tables ≡ remove_table a s.world.tables)
    drop_done a text s ((db, there, clean), free, fit) unused =
        let (clean', made) = S.drop_table_done a db s.world.tables clean unused in
        let db' = (E.gorm.drop_table_if_exists a db s.world.tables).0 in
        let w = record (s.world) { tables = remove_table a s.world.tables } in
        (
          set_db (some db') (record s { world = w }),
          ground arith,
          (
            (db', refl, clean'),
            remove_table-IsFree a s.world.tables free,
            remove_table-AllFit own_keys a s.world.tables fit,
          ),
          refl,
          refl,
        )
