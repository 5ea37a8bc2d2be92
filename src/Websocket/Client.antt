-- ===== src/Websocket/Client.antt =====
-- sdk/websocket/client.go, router.go and message_publisher.go: the client with its router and its
-- publisher. Dialling, JSON and the socket belong to other packages: whether a write succeeds is a
-- parameter, and so is what a connection attempt returns. Operations run one at a time.
pub mod Server
pub mod Subscriptions
pub mod Routing
pub mod Reconnection
pub mod Reachability
pub mod Returns
pub mod Blocks
pub mod Listening
use go_xpx_chain_sdk.Base.{
  Bool, Bytes, List, Option, Result, [], err, false, if◌then◌else◌, new_error, none, not, ok, panic,
  some, true, ℕ, ◌&&◌, ◌==◌, ◌>>=◌, ◌||◌, ◌∷◌,
}
use go_xpx_chain_sdk.Base.Text.{same}
use go_xpx_chain_sdk.Websocket.Handlers.{handle}
use go_xpx_chain_sdk.Websocket.Subscribers.{
  Handlers, Subscribers, add_handlers, block_add_handlers, get_addresses, has_handlers, is_empty,
}
use go_xpx_chain_sdk.Websocket.Subscribers.Contract.{added}

-- The channels of notifications for an address, and that for blocks.
pub data Channel : Type 0 where
  confirmed_added unconfirmed_added unconfirmed_removed : Channel
  partial_added partial_removed status cosignature : Channel

abbrev pub channel_number : Channel → ℕ
channel_number confirmed_added = 0
channel_number unconfirmed_added = 1
channel_number unconfirmed_removed = 2
channel_number partial_added = 3
channel_number partial_removed = 4
channel_number status = 5
channel_number cosignature = 6

unfoldable pub same_channel : Channel → Channel → Bool
same_channel k l = channel_number k == channel_number l

-- The path of a subscription: `block`, or `channel/address`.
pub data Subscription : Type 0 where
  block_path : Subscription
  address_path : Channel → Bytes → Subscription

unfoldable pub same_path : Subscription → Subscription → Bool
unfolding same_channel same
same_path block_path block_path = true
same_path block_path (address_path k a) = false
same_path (address_path k a) block_path = false
same_path (address_path k a) (address_path l b) = same_channel k l && same a b

-- `subscribeDTO` and `unsubscribeDTO`
pub data SocketMessage : Type 0 where
  subscribe : Bytes → Subscription → SocketMessage
  unsubscribe : Bytes → Subscription → SocketMessage

-- What a connection attempt returns: the identifier that the node gives to the connection.
abbrev pub Connect : Type 0
Connect = Result Bytes

-- The fields of `CatapultWebsocketClientImpl`, of its router and its publisher. The stores of the
-- channels are one function, and so is whether a channel has a topic handler. What the publisher has
-- written to the connection is kept, the last message first, and so is the identifier that the node
-- knows the connection by.
pub record Client : Type 0 where
  pub connected : Bool
  pub closed : Bool
  pub cancelled : Bool
  pub already_listening : Bool
  pub uid : Bytes
  pub block_subscriber : Handlers
  pub subscribers : Channel → Subscribers
  pub block_topic : Bool
  pub topics : Channel → Bool
  pub router_uid : Bytes
  pub connection_uid : Bytes
  pub sent : List SocketMessage
  pub connect_fn : Option Connect

-- The literal of `NewClient`, which sets no `connectFn`.
abbrev pub fresh_client : Bytes → Client
fresh_client uid = record {
  connected = true;
  closed = false;
  cancelled = false;
  already_listening = false;
  uid = uid;
  block_subscriber = [];
  subscribers = λ k. [];
  block_topic = false;
  topics = λ k. false;
  router_uid = uid;
  connection_uid = uid;
  sent = [];
  connect_fn = none;
}

unfoldable pub new_client : Connect → Result Client
new_client attempt = do uid ← attempt; ok (fresh_client uid)

unfoldable pub set_subscribers : Channel → Subscribers → Client → Client
unfolding same_channel
set_subscribers k s c = record c {
  subscribers = λ l. if same_channel k l then s else c.subscribers l;
}

unfoldable pub set_topic_handler : Channel → Client → Client
unfolding same_channel
set_topic_handler k c = record c { topics = λ l. same_channel k l || c.topics l }

-- An operation returns the client after it, and nothing or an error.
abbrev pub Outcome : Type 0
Outcome = Client × Result Bool

unfoldable pub close : (Client → Bool) → Client → Outcome
close closes c =
    if c.connected && not (closes c) then (c, err (new_error "closing the connection")) else (
      record c { connected = false; cancelled = true; already_listening = false; closed = true },
      ok true,
    )

abbrev pub and_then : Outcome → (Client → Outcome) → Outcome
and_then (c, ok b) f = f c
and_then (c, err e) f = (c, err e)
and_then (c, panic) f = (c, panic)

-- An operation after another one that may have failed.
abbrev pub then_add : Outcome → (Client → Client) → Outcome
then_add (c, ok b) f = (f c, ok true)
then_add (c, err e) f = (c, err e)
then_add (c, panic) f = (c, panic)

-- A panic where an operation fails.
abbrev pub or_panic : Outcome → Outcome
or_panic (c, ok b) = (c, ok b)
or_panic (c, err e) = (c, panic)
or_panic (c, panic) = (c, panic)

-- The client on a new connection, with its publisher and its router.
abbrev pub on_connection : Bytes → Client → Client
on_connection uid c = record c {
  connected = true;
  uid = uid;
  router_uid = uid;
  connection_uid = uid;
  sent = [];
}

-- Whether the next write to the connection succeeds, by what was written before.
module _ (accepts : List SocketMessage → Bool) where
  -- `PublishSubscribeMessage` and `PublishUnsubscribeMessage`
  unfoldable pub publish : SocketMessage → Client → Outcome
  publish m c =
      if accepts c.sent
      then (record c { sent = m ∷ c.sent }, ok true)
      else (c, err (new_error "publishing message into websocket connection"))

  unfoldable pub add_block_handlers : List ℕ → Client → Outcome
  unfolding publish block_add_handlers
  add_block_handlers [] c = (c, ok true)
  add_block_handlers (f ∷ fs) c =
      let d = record c { block_topic = true } in
      let published =
        if is_empty c.block_subscriber
        then publish (subscribe c.uid block_path) d
        else (d, ok true) in
      let added =
        then_add published
          (λ e. record e { block_subscriber = block_add_handlers (f ∷ fs) e.block_subscriber }) in
      if c.closed then (c, panic) else added

  -- `AddConfirmedAddedHandlers` and the like for the other six channels
  unfoldable pub add_channel_handlers : Channel → Bytes → List ℕ → Client → Outcome
  unfolding set_topic_handler has_handlers publish set_subscribers add_handlers
  add_channel_handlers k address [] c = (c, ok true)
  add_channel_handlers k address (f ∷ fs) c =
      let d = if c.topics k then c else set_topic_handler k c in
      let published =
        if has_handlers address (c.subscribers k)
        then (d, ok true)
        else publish (subscribe c.uid (address_path k address)) d in
      let added =
        then_add published
          (λ e. set_subscribers k (add_handlers address (f ∷ fs) (e.subscribers k)) e) in
      if c.closed then (c, panic) else added

  -- What `RouteMessage` makes of the answer of a handler: without a callback left, it unsubscribes, and
  -- panics if that fails.
  unfoldable pub answered : Channel → Bytes → Client → Result (Subscribers × Bool) → Outcome
  unfolding publish set_subscribers
  answered k address c (ok (left, true)) = (set_subscribers k left c, ok true)
  answered k address c (ok (left, false)) =
      or_panic
        (publish (unsubscribe c.router_uid (address_path k address)) (set_subscribers k left c))
  answered k address c (err e) = (c, err e)
  answered k address c panic = (c, panic)

  -- `RouteMessage` for a message whose info, as `MapMessageInfo` gives it, is a channel and an address:
  -- a panic where it gives an error, and where no topic handler is set. `mapped` is what the mapper of the
  -- channel gives, and the callbacks finish in an order. This is one call from its beginning to its
  -- end: `Listen` starts it in a goroutine, and what others do in between is not modelled.
  unfoldable pub route_message :
      Result (Channel × Bytes) → Result (ℕ → Bool) → List ℕ → Client → Outcome
  unfolding handle answered
  route_message (err e) mapped order c = (c, panic)
  route_message panic mapped order c = (c, panic)
  route_message (ok (k, address)) mapped order c =
      let handled = answered k address c (handle address mapped order (c.subscribers k)) in
      if c.topics k then handled else (c, panic)

  -- A loop of `reconnect`, over the addresses of one store.
  unfoldable pub subscribe_all : Channel → List Bytes → Client → Outcome
  unfolding publish
  subscribe_all k [] c = (c, ok true)
  subscribe_all k (a ∷ rest) c =
      and_then (publish (subscribe c.uid (address_path k a)) c) (λ d. subscribe_all k rest d)

  unfoldable pub subscribe_channel : Channel → Client → Outcome
  unfolding subscribe_all get_addresses
  subscribe_channel k c = subscribe_all k (get_addresses (c.subscribers k)) c

  unfoldable pub subscribe_block : Client → Outcome
  unfolding publish
  subscribe_block c =
      if is_empty c.block_subscriber then (c, ok true) else publish (subscribe c.uid block_path) c

  -- What follows the call of `connectFn`: the client goes over to the new connection and subscribes
  -- again. Calling a function that is nil is a panic, and so is asking a store that `Close` has set to
  -- nil.
  unfoldable pub connected_by : Client → Option Connect → Outcome
  unfolding subscribe_channel subscribe_block
  connected_by c none = (c, panic)
  connected_by c (some panic) = (c, panic)
  connected_by c (some (err e)) = (c, err e)
  connected_by c (some (ok uid)) =
      let subscribed_again = and_then (subscribe_block (on_connection uid c)) (λ c0.
        and_then (subscribe_channel confirmed_added c0) (λ c1.
          and_then (subscribe_channel cosignature c1) (λ c2.
            and_then (subscribe_channel partial_added c2) (λ c3.
              and_then (subscribe_channel partial_removed c3) (λ c4.
                and_then (subscribe_channel status c4) (λ c5.
                  and_then (subscribe_channel unconfirmed_added c5)
                    (λ c6. subscribe_channel unconfirmed_removed c6))))))) in
      if c.closed then (on_connection uid c, panic) else subscribed_again

  unfoldable pub reconnect : Client → Outcome
  unfolding connected_by
  reconnect c = connected_by c c.connect_fn
