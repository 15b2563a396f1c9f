-- ===== src/Tests/Messages.antt =====
-- Runs of `Handle` as a whole: users, counters, tasks, and the two lookups.
use dwh.Base.{ℕ, ◌≡◌, ◌≢◌, refl, none, List, [], ◌∷◌, All, inl, inr, Option, some, ap, ◌∙◌}
use dwh.Common.Metrics.{received, accepted, common}
use dwh.Common.Queue.{publication, transfer_triggered_priority}
use dwh.Database.Memory.{no_faults, memory-IsLawful}
use dwh.Database.Log.{log}
use dwh.Env.Action.{panic}
use dwh.Env.Calls.{increase_counter, counted, Account, NftInfo, Reply, reply}
use dwh.Env.Memory.{alice}
use dwh.Common.Rows.{new_user}
use dwh.Marketplace.Messages.{Event, Msg, edit_nft_metadata, transfer_nft, transfer_fungible_tokens}
use dwh.Marketplace.Lookup.{find_attr, get_event_attr, get_msg_addresses, collect_addresses}
use dwh.Marketplace.Lookup.Attributes.{get_event_attr-eq-find_attr, attributes_of}
use dwh.Marketplace.Users.{create_users, find_or_create_user, get_account, create_user, update_user}
use dwh.Marketplace.Users.Known.{IsKnown, create_users-IsKnown}
use dwh.Marketplace.Handle.{handle, dispatch}
use dwh.Marketplace.Handle.Counting.{handle_counts}
use dwh.Marketplace.Handle.Panics.{HasTokens, handle-ne-panic}
use dwh.Marketplace.Handle.Sending.{handle-queue}
use dwh.Marketplace.Handle.Log.{handle-log}
use dwh.Tests.Data.{memory_env, test_handler, bob, one_token, message, put_on_auction}

abbrev edit : Msg
edit = message (edit_nft_metadata (record { sender = alice; id = "t"; token_uri = "new" }))

abbrev transfer : Msg
transfer = message (transfer_nft (record { sender = alice; recipient = bob; id = "t" }))

abbrev payment : Msg
payment = message (
    transfer_fungible_tokens
      (record { owner = alice; recipient = bob; denom = "gold"; amount = 3 }))

-- The node answers for whichever account it is asked for.
pub honest :
    (addr : List ℕ) (acc : Account) → memory_env.get_account addr ≡ reply acc → acc.address ≡ addr
honest addr acc h = cc

create_users-IsKnown_example :
    All
      (λ a.
        IsKnown
          (memory_env.sdk.address a)
          (create_users ⦃E = memory_env⦄ (alice ∷ bob ∷ []) none one_token).1.tables)
      (alice ∷ bob ∷ [])
unfolding create_users find_or_create_user get_account create_user update_user new_user
create_users-IsKnown_example =
    create_users-IsKnown ⦃E = memory_env⦄ (memory-IsLawful no_faults) none honest (alice ∷ bob ∷ [])
      one_token refl

abbrev known_token : Reply (Option NftInfo)
known_token = reply (some (record { token_uri = "uri"; owner = alice }))

-- The node's answer is not null, though its decoder would leave a nil pointer on a null.
pub has_tokens : HasTokens ⦃E = memory_env⦄
has_tokens token_id res h null =
    let same : "token" ≡ res = cc in
    let known : known_token ≡ reply none = ap memory_env.unmarshal_nft same ∙ null in cc

handle-ne-panic_example : (handle ⦃E = memory_env⦄ test_handler payment [] none one_token).0 ≢ panic
handle-ne-panic_example =
    handle-ne-panic ⦃E = memory_env⦄ test_handler (memory-IsLawful no_faults) has_tokens honest
      payment [] none one_token (inl refl, (inr (inl refl), tt))

handle_counts_example :
    (handle ⦃E = memory_env⦄ test_handler edit [] none one_token).1.counters
    ≡ (received, common)
      ∷ (received, "MsgEditNFTMetadata")
      ∷ (accepted, "MsgEditNFTMetadata")
      ∷ (accepted, common)
      ∷ []
unfolding handle dispatch create_users find_or_create_user get_account create_user update_user
    new_user get_msg_addresses collect_addresses increase_counter counted
handle_counts_example =
    handle_counts ⦃E = memory_env⦄ test_handler (λ s t. refl) edit [] none one_token

handle-queue_example :
    (handle ⦃E = memory_env⦄ test_handler transfer [] none one_token).1.queue
    ≡ publication (record { queue = "uris" }) "uri" "alice" "t" transfer_triggered_priority ∷ []
unfolding handle dispatch create_users find_or_create_user get_account create_user update_user
    new_user get_msg_addresses collect_addresses
handle-queue_example = handle-queue ⦃E = memory_env⦄ test_handler transfer [] none one_token

handle-log_example :
    log (handle ⦃E = memory_env⦄ test_handler put_on_auction [] none one_token).1.tables
    ≡ log one_token.tables
handle-log_example =
    handle-log ⦃E = memory_env⦄ (memory-IsLawful no_faults) test_handler put_on_auction [] none
      one_token

abbrev some_events : List Event
some_events =
    record { kind = "other"; attributes = ("owner", "alice") ∷ [] }
    ∷ record { kind = "msg"; attributes = ("price", "3") ∷ [] }
    ∷ record { kind = "msg"; attributes = ("owner", "bob") ∷ [] }
    ∷ []

get_event_attr-eq-find_attr_example :
    get_event_attr some_events "msg" "owner" ≡ find_attr "owner" (attributes_of "msg" some_events)
get_event_attr-eq-find_attr_example = get_event_attr-eq-find_attr some_events "msg" "owner"
