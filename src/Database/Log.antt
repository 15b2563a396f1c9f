-- ===== src/Database/Log.antt =====
-- The rows of transactions and messages under the calls that the handlers make.
use Prim.Native.String.{String}
use dwh.Base.{ℕ, ◌≡◌, refl, ap, Bool, true, false, inl, inr, Option-cases, List}
use dwh.Common.Rows.{FungibleToken, FungibleTokenTransfer, User, Tx, Message}
use dwh.Database.Tables.{
  Tables, Row, nft, tx, message, Column, Deletion, tokens, bids, offers, erase, insert, Stamp,
}
use dwh.Database.Gorm.{Gorm, IsLawful}
use dwh.Database.Frame.{create_frame, delete_frame, update_columns_frame}

pub record Log : Type 0 where
  pub txes : List Tx
  pub messages : List Message

abbrev pub log : Tables → Log
log t = record { txes = t.txes; messages = t.messages }

abbrev pub is_log : Row → Bool
is_log (tx r) = true
is_log (message r) = true
is_log _ = false

insert-log : (s : Stamp) (r : Row) (t : Tables) → is_log r ≡ false → log (insert s r t) ≡ log t
insert-log s (nft r) t h = refl
insert-log s (tx r) t h = cc
insert-log s (message r) t h = cc
insert-log s r t h = refl

erase-log : (now : ℕ) (d : Deletion) (t : Tables) → log (erase now d t) ≡ log t
erase-log now (tokens id) t = refl
erase-log now (bids id) t = refl
erase-log now (offers id o) t = refl

module _ {G : Gorm} (L : IsLawful G) (db : G.Db) (t : Tables) where
  open L use {update_sequence_done, update_sequence_failed, append_transfer_tried}

  pub create-log : (r : Row) → is_log r ≡ false → log (G.create r db t).1 ≡ log t
  create-log r h = create_frame L db t log r (λ s. insert-log s r t h)

  pub delete-log : (d : Deletion) → log (G.delete d db t).1 ≡ log t
  delete-log d = delete_frame L db t log d (λ now. erase-log now d t)

  pub update_columns-log :
      (id : String) (cs : List Column) → log (G.update_columns id cs db t).1 ≡ log t
  update_columns-log id cs = update_columns_frame L db t log id cs refl

  pub update_sequence-log : (u : User) (n : ℕ) → log (G.update_sequence u n db t).1 ≡ log t
  update_sequence-log u n = elim (Option-cases (G.error (G.update_sequence u n db t).0)) [
    | inl e ↦ let (now, same) = update_sequence_done u n db t e in ap log same
    | inr (x, e) ↦ ap log (update_sequence_failed u n db t x e)
  ]

  pub append_transfer-log :
      (ft : FungibleToken) (r : FungibleTokenTransfer) → log (G.append_transfer ft r db t) ≡ log t
  append_transfer-log ft r = elim (append_transfer_tried ft r db t) [
    | inl same ↦ ap log same
    | inr (s, same) ↦ ap log same
  ]
