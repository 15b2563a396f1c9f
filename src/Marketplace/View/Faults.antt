-- ===== src/Marketplace/View/Faults.antt =====
-- `Handle` on failures of the database and of the node, and on deletions.
use Prim.Native.String.{String}
use mathlib.Core.Option
use mathlib.Core.Path.{subst}
use dwh.Base.{
  ◌<>◌, sym, Option-cases, ◌≡◌, ◌≢◌, none, some, List, [], ◌∷◌, arith, str_eq, eq_refl,
  if◌then◌else◌, All, map, false, inl, inr,
}
use dwh.Common.Types.{Time}
use dwh.Common.Rows.{AuctionBid}
use dwh.Database.Tables.{Deletion, owner_address, write_all, is_bid, delete_bid}
use dwh.Database.Gorm.{IsLawful}
use dwh.Database.Frame.{update_columns-nfts}
use dwh.Env.Action.{World, ok}
use dwh.Env.Calls.{Env, Db, failure}
use dwh.Marketplace.Messages.{
  burn_nft, transfer_nft, make_bid_on_auction, MsgBurnNft, MsgTransferNft, MsgMakeBidOnAuction,
  Event,
}
use dwh.Marketplace.Lookup.{get_event_attr}
use dwh.Marketplace.Users.{MarketplaceHandler}
use dwh.Marketplace.Auctions.{reset_auction}
use dwh.Marketplace.Handle.{dispatch}
use dwh.Marketplace.View.Rows.{view, view-update, view-delete}

module _ ⦃E : Env⦄ (L : IsLawful E.gorm) (m : MarketplaceHandler) where
  -- On a lawful database and a handle without an error, when the database fails to delete a burnt
  -- token, the case of the burn still returns without an error, and every token is still there.
  pub burn_hides_failure :
      (v : MsgBurnNft) (kind : String) (events : List Event) (db : Db) (w : World) (e j : String)
      → E.gorm.error db ≡ none
      → E.gorm.error (E.gorm.delete (Deletion.tokens v.id) db w.tables).0 ≡ some e
      → let (r, w') = dispatch m (burn_nft v) kind events db w in
        (r ≡ ok tt) × (view j w'.tables.nfts ≡ view j w.tables.nfts)
  unfolding dispatch
  burn_hides_failure v kind events db w e j clean failed =
      ground (arith, L.delete_failed (Deletion.tokens v.id) db w.tables e failed)

  -- On a lawful database and a handle without an error, when the deletion works, the case of a
  -- burn returns without an error, the burnt token is gone from the view, and no other token is.
  pub burn_removes :
      (v : MsgBurnNft) (kind : String) (events : List Event) (db : Db) (w : World) (j : String)
      → E.gorm.error db ≡ none
      → E.gorm.error (E.gorm.delete (Deletion.tokens v.id) db w.tables).0 ≡ none
      → let (r, w') = dispatch m (burn_nft v) kind events db w in
        (r ≡ ok tt)
        × (view j w'.tables.nfts ≡ (if str_eq v.id j then none else view j w.tables.nfts))
  unfolding dispatch
  burn_removes v kind events db w j clean done =
      let (now, same) = L.delete_done (Deletion.tokens v.id) db w.tables done in
      ground (arith, view-delete now v.id j w.tables.nfts)

  -- On a lawful database, when the node cannot be asked for the token after the owner was written,
  -- the case of a transfer returns an error, and the new owner stays in the database.
  pub transfer_keeps_writes :
      (v : MsgTransferNft) (kind : String) (events : List Event) (db : Db) (w : World) (e : String)
      → E.gorm.error
          (E.gorm.update_columns v.id
            (owner_address (E.sdk.address v.recipient) ∷ [])
            db
            w.tables).0
        ≡ none
      → E.query_with_data ("custom/marketplace/nft/" <> v.id) ≡ failure e
      → let (r, w') = dispatch m (transfer_nft v) kind events db w in
        (r ≢ ok tt)
        × (view v.id w'.tables.nfts
            ≡ Option.map
                (write_all (owner_address (E.sdk.address v.recipient) ∷ []))
                (view v.id w.tables.nfts))
  unfolding dispatch
  transfer_keeps_writes v kind events db w e done silent =
      let columns = owner_address (E.sdk.address v.recipient) ∷ [] in
      ground (
        arith,
        update_columns-nfts L db w.tables v.id columns done,
        view-update v.id v.id columns w.tables.nfts,
        eq_refl v.id,
      )

delete_bid-All :
    (now : Time) (id : String) (bids : List AuctionBid)
    → All (λ b. is_bid id b ≡ false) (map (delete_bid now id) bids)
delete_bid-All now id [] = tt
delete_bid-All now id (b ∷ bids) = (ground arith, delete_bid-All now id bids)

module _ ⦃E : Env⦄ (L : IsLawful E.gorm) (m : MarketplaceHandler) where
  -- On a lawful database, a bid that buys the token out, and whose case returns without an error,
  -- leaves no live bid for the token.
  pub buyout_bid_clears_bids :
      (v : MsgMakeBidOnAuction) (kind : String) (events : List Event) (db : Db) (w w' : World)
      (x : String)
      → get_event_attr events kind E.sdk.attribute_key_is_buyout ≡ some x
      → dispatch m (make_bid_on_auction v) kind events db w ≡ (ok tt, w')
      → All (λ b. is_bid v.token_id b ≡ false) w'.tables.auction_bids
  unfolding dispatch
  buyout_bid_clears_bids v kind events db w w' x attr h =
      let columns = owner_address (E.sdk.address v.bidder) ∷ reset_auction in
      let db1 = (E.gorm.update_columns v.token_id columns db w.tables).0 in
      let t1 = (E.gorm.update_columns v.token_id columns db w.tables).1 in
      elim (Option-cases (E.gorm.error (E.gorm.delete (Deletion.bids v.token_id) db1 t1).0)) [
        | inl done ↦
            let (now, same) = L.delete_done (Deletion.bids v.token_id) db1 t1 done in
            let after : w'.tables.auction_bids ≡ map (delete_bid now v.token_id) t1.auction_bids =
              ground arith in
            subst (All (λ b. is_bid v.token_id b ≡ false)) (sym after)
              (delete_bid-All now v.token_id t1.auction_bids)
        | inr (e, failed) ↦ absurd (ground arith)
      ]
