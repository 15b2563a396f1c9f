-- ===== src/Database/Frame.antt =====
-- What each call on a lawful database leaves alone, whether it reports an error or not.
use Prim.Native.String.{String}
use dwh.Base.{ℕ, ◌≡◌, refl, ap, ◌∙◌, none, inl, inr, Option-cases, map, List}
use dwh.Common.Rows.{Offer, AuctionBid, FungibleToken, FungibleTokenTransfer, User}
use dwh.Database.Tables.{Tables, Row, Column, update_token, Deletion, erase, insert, Stamp}
use dwh.Database.Gorm.{Gorm, IsLawful}

module _ {G : Gorm} (L : IsLawful G) (db : G.Db) (t : Tables) where
  open L use {
    create_done, create_failed, update_columns_done, update_columns_failed, delete_done,
    delete_failed, update_sequence_done, update_sequence_failed, append_transfer_tried,
  }

  module _ {X : Type 0} (f : Tables → X) where
    -- What no insertion of the row changes.
    pub create_frame :
        (r : Row) → ((s : Stamp) → f (insert s r t) ≡ f t) → f (G.create r db t).1 ≡ f t
    create_frame r h = elim (Option-cases (G.error (G.create r db t).0)) [
      | inl e ↦ let (s, _, same) = create_done r db t e in ap f same ∙ h s
      | inr (x, e) ↦ ap f (create_failed r db t x e)
    ]

    pub delete_frame :
        (d : Deletion) → ((now : ℕ) → f (erase now d t) ≡ f t) → f (G.delete d db t).1 ≡ f t
    delete_frame d h = elim (Option-cases (G.error (G.delete d db t).0)) [
      | inl e ↦ let (now, same) = delete_done d db t e in ap f same ∙ h now
      | inr (x, e) ↦ ap f (delete_failed d db t x e)
    ]

    pub update_columns_frame :
        (id : String) (cs : List Column)
        → f (record t { nfts = map (update_token id cs) t.nfts }) ≡ f t
        → f (G.update_columns id cs db t).1 ≡ f t
    update_columns_frame id cs h = elim (Option-cases (G.error (G.update_columns id cs db t).0)) [
      | inl e ↦ ap f (update_columns_done id cs db t e) ∙ h
      | inr (x, e) ↦ ap f (update_columns_failed id cs db t x e)
    ]

  pub delete_bids-nfts : (id : String) → (G.delete (Deletion.bids id) db t).1.nfts ≡ t.nfts
  delete_bids-nfts id = delete_frame (λ u. u.nfts) (Deletion.bids id) (λ now. refl)

  pub delete_offers-nfts : (id o : String) → (G.delete (Deletion.offers id o) db t).1.nfts ≡ t.nfts
  delete_offers-nfts id o = delete_frame (λ u. u.nfts) (Deletion.offers id o) (λ now. refl)

  pub create_bid-nfts : (r : AuctionBid) → (G.create (Row.auction_bid r) db t).1.nfts ≡ t.nfts
  create_bid-nfts r = create_frame (λ u. u.nfts) (Row.auction_bid r) (λ s. refl)

  pub create_offer-nfts : (r : Offer) → (G.create (Row.offer r) db t).1.nfts ≡ t.nfts
  create_offer-nfts r = create_frame (λ u. u.nfts) (Row.offer r) (λ s. refl)

  pub create_token-nfts :
      (r : FungibleToken) → (G.create (Row.fungible_token r) db t).1.nfts ≡ t.nfts
  create_token-nfts r = create_frame (λ u. u.nfts) (Row.fungible_token r) (λ s. refl)

  pub create_user-nfts : (r : User) → (G.create (Row.user r) db t).1.nfts ≡ t.nfts
  create_user-nfts r = create_frame (λ u. u.nfts) (Row.user r) (λ s. refl)

  pub update_sequence-nfts : (u : User) (n : ℕ) → (G.update_sequence u n db t).1.nfts ≡ t.nfts
  update_sequence-nfts u n = elim (Option-cases (G.error (G.update_sequence u n db t).0)) [
    | inl e ↦ let (now, same) = update_sequence_done u n db t e in ap (λ x. x.nfts) same
    | inr (x, e) ↦ ap (λ y. y.nfts) (update_sequence_failed u n db t x e)
  ]

  pub append_transfer-nfts :
      (ft : FungibleToken) (r : FungibleTokenTransfer) → (G.append_transfer ft r db t).nfts ≡ t.nfts
  append_transfer-nfts ft r = elim (append_transfer_tried ft r db t) [
    | inl same ↦ ap (λ x. x.nfts) same
    | inr (s, same) ↦ ap (λ x. x.nfts) same
  ]

  pub update_columns-nfts :
      (id : String) (cs : List Column)
      → G.error (G.update_columns id cs db t).0 ≡ none
      → (G.update_columns id cs db t).1.nfts ≡ map (update_token id cs) t.nfts
  update_columns-nfts id cs e = ap (λ x. x.nfts) (update_columns_done id cs db t e)
