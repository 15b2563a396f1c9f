-- ===== src/Database/Schema.antt =====
-- Tables as a schema: which exist, which refer to which, and what creating and dropping them does.
use dwh.Base.{
  ℕ, Bool, true, false, not, ◌&&◌, ◌||◌, List, [], ◌∷◌, ◌++◌, str_eq, ◌==◌, if◌then◌else◌, select,
}
use dwh.Database.Tables.{
  Table, nfts, offers, auction_bids, fungible_tokens, fungible_token_transfers, users, txes,
  messages, ForeignKey, Tables,
}

abbrev number : Table → ℕ
number nfts = 0
number offers = 1
number auction_bids = 2
number fungible_tokens = 3
number fungible_token_transfers = 4
number users = 5
number txes = 6
number messages = 7

abbrev pub same : Table → Table → Bool
same a b = number a == number b

abbrev pub contains : Table → List Table → Bool
contains a [] = false
contains a (b ∷ l) = same b a || contains a l

-- A foreign key of another table refers to this one.
abbrev pub refers : Table → List ForeignKey → Bool
refers a [] = false
refers a (k ∷ ks) = (same k.target a && not (same k.source a)) || refers a ks

abbrev pub same_key : ForeignKey → ForeignKey → Bool
same_key a b = same a.source b.source && (str_eq a.column b.column && same a.target b.target)

abbrev pub contains_key : ForeignKey → List ForeignKey → Bool
contains_key a [] = false
contains_key a (k ∷ ks) = same_key k a || contains_key a ks

abbrev is_empty : {A : Type 0} → List A → Bool
is_empty [] = true
is_empty (x ∷ l) = false

abbrev pub has_no_rows : Table → Tables → Bool
has_no_rows nfts t = is_empty (Tables.nfts t)
has_no_rows offers t = is_empty (Tables.offers t)
has_no_rows auction_bids t = is_empty (Tables.auction_bids t)
has_no_rows fungible_tokens t = is_empty (Tables.fungible_tokens t)
has_no_rows fungible_token_transfers t = is_empty (Tables.fungible_token_transfers t)
has_no_rows users t = is_empty (Tables.users t)
has_no_rows txes t = is_empty (Tables.txes t)
has_no_rows messages t = is_empty (Tables.messages t)

-- A foreign key that is there already, or whose table has no row that could break it.
abbrev pub fits : ForeignKey → Tables → Bool
fits k t = contains_key k t.foreign_keys || has_no_rows k.source t

abbrev pub clear : Table → Tables → Tables
clear nfts t = record t { nfts = [] }
clear offers t = record t { offers = [] }
clear auction_bids t = record t { auction_bids = [] }
clear fungible_tokens t = record t { fungible_tokens = [] }
clear fungible_token_transfers t = record t { fungible_token_transfers = [] }
clear users t = record t { users = [] }
clear txes t = record t { txes = [] }
clear messages t = record t { messages = [] }

abbrev pub add_table : Table → Tables → Tables
add_table a t = record t { existing = t.existing ++ (a ∷ []) }

-- The table goes with its rows and its own foreign keys.
abbrev pub remove_table : Table → Tables → Tables
remove_table a t = record (clear a t) {
  existing = select (λ b. not (same b a)) t.existing;
  foreign_keys = select (λ k. not (same k.source a)) t.foreign_keys;
}

-- A key that is there already is left as it is.
abbrev pub add_key : ForeignKey → Tables → Tables
add_key k t =
    if contains_key k t.foreign_keys
    then t
    else record t { foreign_keys = t.foreign_keys ++ (k ∷ []) }
