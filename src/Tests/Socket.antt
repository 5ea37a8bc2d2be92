-- ===== src/Tests/Socket.antt =====
-- Concrete callbacks and clients.
use go_xpx_chain_sdk.Base.{
  Bool, Bytes, List, [], err, false, new_error, not, ok, panic, refl, some, true, ℕ, ◌&&◌, ◌++◌,
  ◌==◌, ◌∷◌, ◌≡◌,
}
use go_xpx_chain_sdk.Base.Text.{same}
use go_xpx_chain_sdk.Websocket.Client.{
  Client, Connect, SocketMessage, add_block_handlers, add_channel_handlers, confirmed_added,
  fresh_client, new_client, reconnect, route_message, status,
}
use go_xpx_chain_sdk.Websocket.Client.Listening.{Event, Loop, reading, reconnecting, run, ticked}
use go_xpx_chain_sdk.Websocket.Client.Listening.Liveness.{
  AreRetries, connection, failed_attempt, no_retry, run-reads,
}
use go_xpx_chain_sdk.Websocket.Client.Reachability.{
  Reachable-Tracks, block_more, channel_added, channel_more, connectable, nothing_added,
  reconnect-new_client, reconnected, started,
}
use go_xpx_chain_sdk.Websocket.Client.Reconnection.{reconnect-Tracks}
use go_xpx_chain_sdk.Websocket.Client.Routing.{route_message-Tracks}
use go_xpx_chain_sdk.Websocket.Client.Subscriptions.{
  Tracks, add_channel_handlers-Tracks, new_client-Tracks,
}
use go_xpx_chain_sdk.Websocket.Handlers.{handle}
use go_xpx_chain_sdk.Websocket.Handlers.Removal.{all_in, distinct, handle_lem}
use go_xpx_chain_sdk.Websocket.Subscribers.{Subscribers, get_handlers, has_handler, has_handlers}
use go_xpx_chain_sdk.Websocket.Subscribers.Contract.{
  Request, Steps, add, added, answers, found, has, registry, remove, removed,
}
use go_xpx_chain_sdk.Websocket.Subscribers.Contract.Refinement.{answers-Steps}

abbrev alice : Bytes
alice = b'S' ∷ (b'A' ∷ [])

abbrev store : Subscribers
store = (alice, 1 ∷ (2 ∷ [])) ∷ []

abbrev asks : ℕ → Bool
asks f = f == 2

alice_there : has_handlers alice store ≡ true
unfolding has_handlers
alice_there = refl

alice_all : all_in (2 ∷ (1 ∷ [])) (get_handlers alice store) ≡ true
unfolding all_in get_handlers
alice_all = refl

two_distinct : distinct (2 ∷ (1 ∷ [])) ≡ true
unfolding distinct
two_distinct = refl

handle_lem_example :
    (left : Subscribers) × (handle alice (ok asks) (2 ∷ (1 ∷ [])) store
      ≡ ok (left, has_handlers alice left))
    × ((f : ℕ)
        → has_handler f (get_handlers alice left) ≡ (
            has_handler f (get_handlers alice store)
            && not (asks f && has_handler f (2 ∷ (1 ∷ [])))))
    × ((b : Bytes) → same alice b ≡ false → get_handlers b left ≡ get_handlers b store)
handle_lem_example = handle_lem alice asks (2 ∷ (1 ∷ [])) store alice_there two_distinct alice_all

-- A connection that takes every message.
abbrev takes_all : List SocketMessage → Bool
takes_all sent = true

abbrev client : Client
client = fresh_client (7 ∷ [])

client_made : new_client (ok (7 ∷ [])) ≡ ok client
unfolding new_client
client_made = refl

client-Tracks : Tracks client
client-Tracks = new_client-Tracks (ok (7 ∷ [])) client_made

abbrev after_add : Client
after_add = (add_channel_handlers takes_all confirmed_added alice (1 ∷ (2 ∷ [])) client).0

add_channel_handlers-Tracks_example : Tracks after_add
add_channel_handlers-Tracks_example =
    add_channel_handlers-Tracks takes_all confirmed_added alice (1 ∷ (2 ∷ [])) client client-Tracks

after_add-Tracks : Tracks after_add
after_add-Tracks =
    add_channel_handlers-Tracks takes_all confirmed_added alice (1 ∷ (2 ∷ [])) client client-Tracks

after_add_all :
    all_in (2 ∷ (1 ∷ [])) (get_handlers alice (after_add.subscribers confirmed_added)) ≡ true
unfolding all_in get_handlers add_channel_handlers
after_add_all = refl

route_message-Tracks_example :
    Tracks
      (route_message takes_all (ok (confirmed_added, alice)) (ok asks) (2 ∷ (1 ∷ [])) after_add).0
route_message-Tracks_example =
    route_message-Tracks takes_all confirmed_added alice (ok asks) (2 ∷ (1 ∷ [])) after_add
      after_add-Tracks two_distinct after_add_all

-- The same client on a new connection.
abbrev connectable_client : Client
connectable_client = record after_add { connect_fn = some (ok (8 ∷ [])) }

abbrev after_reconnect : Client
after_reconnect = (reconnect takes_all connectable_client).0

reconnects : reconnect takes_all connectable_client ≡ (after_reconnect, ok true)
unfolding reconnect add_channel_handlers
reconnects = refl

reconnect-Tracks_example : Tracks after_reconnect
reconnect-Tracks_example = reconnect-Tracks takes_all connectable_client reconnects

Reachable-Tracks_example : Tracks after_reconnect
Reachable-Tracks_example = Reachable-Tracks takes_all (
    reconnected reconnects (
      connectable (some (ok (8 ∷ [])))
        (channel_added confirmed_added alice (1 ∷ (2 ∷ [])) (started (ok (7 ∷ [])) client_made))))

reconnect-new_client_example :
    (reconnect takes_all
      (add_block_handlers takes_all
        (3 ∷ [])
        (add_channel_handlers takes_all status alice (1 ∷ []) client).0).0).1
    ≡ panic
reconnect-new_client_example =
    reconnect-new_client takes_all (ok (7 ∷ [])) client_made
      (block_more (3 ∷ []) (channel_more status alice (1 ∷ []) nothing_added))

abbrev requests : List Request
requests = add alice (3 ∷ []) ∷ (remove alice (1 ∷ (2 ∷ [])) ∷ (has alice ∷ []))

answers-Steps_example :
    Steps
      (registry store)
      requests
      (added ∷ (removed (ok false) ∷ (found true ∷ [])))
      (registry (answers requests store).0)
unfolding answers
answers-Steps_example = answers-Steps requests store

abbrev again : Connect
again = ok (8 ∷ [])

abbrev lost : Loop
lost = record {
  client = record client { connect_fn = some again };
  mode = reconnecting;
  received = (1 ∷ []) ∷ [];
}

abbrev retries : List Event
retries = ticked (λ sent. true) (err (new_error "refused")) ∷ (ticked (λ sent. false) again ∷ [])

retries-AreRetries : AreRetries retries
retries-AreRetries =
    failed_attempt (λ sent. true) (new_error "refused")
      (connection (λ sent. false) (8 ∷ []) no_retry)

run-reads_example :
    let l' = run (retries ++ (ticked (λ sent. true) again ∷ [])) lost in
    (l'.mode ≡ reading) × Tracks l'.client × (l'.received ≡ lost.received)
run-reads_example = run-reads lost again retries (8 ∷ []) refl refl refl retries-AreRetries
