-- ===== src/Marketplace/Handle/Sending.antt =====
-- What `Handle` puts on the queue of token metadata tasks.
use Prim.Native.String.{String}
use mathlib.Core.List.{append-nil}
use dwh.Base.{◌≡◌, none, some, List, [], ◌∷◌, ◌++◌, arith, ⊤, ◌<>◌}
use dwh.Common.Metrics.{received, common}
use dwh.Common.Queue.{
  Publication, publication, transfer_triggered_priority, freshly_made_priority,
  forced_updates_priority,
}
use dwh.Database.Gorm.{found, no_rows, scan_error}
use dwh.Database.Tables.{Tables}
use dwh.Env.Action.{World, Outcome, ok, err, panic}
use dwh.Env.Calls.{Env, NftInfo, Db, increase_counter, reply, failure}
use dwh.Marketplace.Messages.{
  MsgValue, mint_nft, edit_nft_metadata, transfer_nft, buy_nft, buyout_on_auction, finish_auction,
  accept_offer, remove_offer, transfer_fungible_tokens, Msg, Event,
}
use dwh.Marketplace.Users.{MarketplaceHandler, create_users, query_nft}
use dwh.Marketplace.Lookup.{get_msg_addresses, get_event_attr}
use dwh.Marketplace.Users.Frame.{find_or_create_user-queue, create_users-queue}
use dwh.Marketplace.Handle.{dispatch, handle}

module _ ⦃E : Env⦄ (m : MarketplaceHandler) where
  -- A task about a token, where the node knows the token: with the URI that the node answers, and
  -- of low priority.
  abbrev pub asked : String → (NftInfo → String) → List Publication
  asked token_id owner = elim (E.query_with_data ("custom/marketplace/nft/" <> token_id)) [
    | failure e ↦ []
    | reply res ↦ elim (E.unmarshal_nft res) [
      | failure e ↦ []
      | reply answer ↦ elim answer [
        | none ↦ []
        | some info ↦
            publication m.uri_sender info.token_uri (owner info) token_id
              transfer_triggered_priority
            ∷ []
      ]
    ]
  ]

  -- The tasks that a message calls for: at the mint and at a change of the metadata with the URI
  -- of the message and a high priority, at a change of the owner and at the removal of an offer
  -- with what the node answers. The owner of a task is the recipient of a mint, the sender of an
  -- edit or a transfer, the buyer, the new owner of the event, the buyer of the offer, or the
  -- owner that the node answers.
  abbrev pub tasks : MsgValue → String → List Event → Db → Tables → List Publication
  tasks (mint_nft v) kind events db t =
      publication m.uri_sender v.token_uri (E.sdk.address v.recipient) v.id freshly_made_priority
      ∷ []
  tasks (edit_nft_metadata v) kind events db t =
      publication m.uri_sender v.token_uri (E.sdk.address v.sender) v.id forced_updates_priority
      ∷ []
  tasks (transfer_nft v) kind events db t = asked v.id (λ _. E.sdk.address v.sender)
  tasks (buy_nft v) kind events db t = asked v.token_id (λ _. E.sdk.address v.buyer)
  tasks (buyout_on_auction v) kind events db t = asked v.token_id (λ _. E.sdk.address v.buyer)
  tasks (finish_auction v) kind events db t =
      elim (get_event_attr events kind E.sdk.attribute_key_owner) [
        | none ↦ []
        | some new_owner ↦ asked v.token_id (λ _. new_owner)
      ]
  tasks (accept_offer v) kind events db t = elim (E.gorm.scan_offer v.token_id v.offer_id db t) [
    | found offer ↦ asked v.token_id (λ _. offer.buyer)
    | no_rows ↦ []
    | scan_error e ↦ []
  ]
  tasks (remove_offer v) kind events db t =
      asked v.token_id (λ info. E.sdk.address (NftInfo.owner info))
  tasks _ kind events db t = []

  -- All tasks of a call that succeeded, none of one that failed.
  abbrev pub tasks_if : Outcome ⊤ → List Publication → List Publication
  tasks_if (ok _) l = l
  tasks_if (err _) l = []
  tasks_if panic l = []

  dispatch-queue :
      (value : MsgValue) (kind : String) (events : List Event) (db : Db) (w : World)
      → let (r, w') = dispatch m value kind events db w in
        w'.queue ≡ w.queue ++ tasks_if r (tasks value kind events db w.tables)
  unfolding dispatch query_nft
  dispatch-queue (transfer_fungible_tokens v) kind events db w =
      grind (arith, append-nil, find_or_create_user-queue)
  dispatch-queue value kind events db w = grind (arith, append-nil)

  -- A call of `Handle` that succeeds puts on the queue exactly the publications that its message
  -- calls for, and one that does not succeed puts nothing there. For a mint or an edit that is a
  -- task with the message's URI, and the recipient or the sender as the owner; for a transfer, a
  -- sale, a buyout, a finished auction, an accepted or a removed offer, one with the URI that the
  -- node answers, and as the owner the sender, the buyer, the buyer, the new owner that the event
  -- names, the buyer of the offer that is found once the users are created, or the owner that the
  -- node answers; for any other message there is none.
  pub handle-queue :
      (msg : Msg) (events : List Event) (db : Db) (w : World)
      → let (r, w') = handle m msg events db w in
        let w1 = (increase_counter received common w).1 in
        let t = (create_users (get_msg_addresses msg) db w1).1.tables in
        w'.queue ≡ w.queue ++ tasks_if r (tasks msg.value msg.kind events db t)
  unfolding handle
  handle-queue msg events db w =
      let addrs = get_msg_addresses msg in
      let w1 = (increase_counter received common w).1 in
      let w2 = (create_users addrs db w1).1 in
      ground (
        arith,
        append-nil w.queue,
        create_users-queue db addrs w1,
        dispatch-queue msg.value msg.kind events db w2,
      )
