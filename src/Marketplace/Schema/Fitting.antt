-- ===== src/Marketplace/Schema/Fitting.antt =====
-- Whether the foreign keys of the program can be set up on the rows that are there, as the tables
-- of the handler are created and dropped.
use Prim.Native.String.{String}
use dwh.Base.{◌≡◌, List, ◌∷◌, true, All, All-mono}
use dwh.Database.Tables.{Table, txes, messages, ForeignKey, Tables}
use dwh.Database.Schema.{fits, add_table, remove_table, add_key as add_key_to}
use dwh.Database.Fitting.{fits-remove_table, fits-add_table, fits-add_key}
use dwh.Marketplace.Schema.{key, setup_keys}

abbrev pub AllFit : List (ForeignKey × String) → Tables → Type 0
AllFit l t = All (λ e. fits e.0 t ≡ true) l

-- The key of the indexer's own tables and those of the handler's: each is there already, or its
-- table has no rows.
abbrev pub own_keys : List (ForeignKey × String)
own_keys = (key messages "tx_id" txes, "messages") ∷ setup_keys

abbrev pub OwnKeysFit : Tables → Type 0
OwnKeysFit = AllFit own_keys

pub remove_table-AllFit :
    (l : List (ForeignKey × String)) (a : Table) (t : Tables)
    → AllFit l t
    → AllFit l (remove_table a t)
remove_table-AllFit l a t = All-mono l (λ e. fits-remove_table e.0 a t)

pub add_table-AllFit :
    (l : List (ForeignKey × String)) (a : Table) (t : Tables)
    → AllFit l t
    → AllFit l (add_table a t)
add_table-AllFit l a t = All-mono l (λ e. fits-add_table e.0 a t)

pub add_key-AllFit :
    (l : List (ForeignKey × String)) (j : ForeignKey) (t : Tables)
    → AllFit l t
    → AllFit l (add_key_to j t)
add_key-AllFit l j t = All-mono l (λ e. fits-add_key e.0 j t)
