-- ===== src/Websocket/Client/Reachability.antt =====
-- The clients that a program can reach without `Close`, by the other operations of the client, one after
-- another in any order.
use go_xpx_chain_sdk.Base.{
  Bool, Bytes, List, Option, Result, [], err, false, if◌then◌else◌, none, ok, panic, refl, sym,
  true, ℕ, ◌∙◌, ◌∷◌, ◌≡◌,
}
use go_xpx_chain_sdk.Info.Resolver.{before}
use go_xpx_chain_sdk.Websocket.Client.{
  Channel, Client, Connect, Outcome, SocketMessage, add_block_handlers, add_channel_handlers,
  connected_by, fresh_client, new_client, publish, reconnect, route_message, set_subscribers,
  set_topic_handler, then_add,
}
use go_xpx_chain_sdk.Websocket.Client.Blocks.{route_block_message, route_block_message-Tracks}
use go_xpx_chain_sdk.Websocket.Client.Reconnection.{reconnect-Tracks}
use go_xpx_chain_sdk.Websocket.Client.Routing.{route_message-Tracks}
use go_xpx_chain_sdk.Websocket.Client.Subscriptions.{
  Tracks, add_block_handlers-Tracks, add_channel_handlers-Tracks, new_client-Tracks,
}
use go_xpx_chain_sdk.Websocket.Handlers.Removal.{all_in, distinct}
use go_xpx_chain_sdk.Websocket.Subscribers.{get_handlers, has_handlers, is_empty}

-- What the writes to the connection do is the same throughout.
pub data Reachable (accepts : List SocketMessage → Bool) : Client → Type 0 where
  started : (attempt : Connect) {c : Client} → new_client attempt ≡ ok c → Reachable accepts c
  connectable :
      {c : Client} (attempt : Option Connect)
      → Reachable accepts c
      → Reachable accepts (record c { connect_fn = attempt })
  channel_added :
      {c : Client} (k : Channel) (a : Bytes) (fs : List ℕ)
      → Reachable accepts c
      → Reachable accepts (add_channel_handlers accepts k a fs c).0
  block_added :
      {c : Client} (fs : List ℕ)
      → Reachable accepts c
      → Reachable accepts (add_block_handlers accepts fs c).0
  routed :
      {c : Client} (k : Channel) (a : Bytes) (mapped : Result (ℕ → Bool)) (order : List ℕ)
      → distinct order ≡ true
      → all_in order (get_handlers a (c.subscribers k)) ≡ true
      → Reachable accepts c
      → Reachable accepts (route_message accepts (ok (k, a)) mapped order c).0
  block_routed :
      {c : Client} (mapped : Result (ℕ → Bool)) (order : List ℕ)
      → Reachable accepts c
      → Reachable accepts (route_block_message accepts mapped order c).0
  reconnected :
      {c d : Client} {b : Bool}
      → reconnect accepts c ≡ (d, ok b)
      → Reachable accepts c
      → Reachable accepts d

connect_fn-Tracks :
    (o : Option Connect) (c : Client) → Tracks c → Tracks (record c { connect_fn = o })
connect_fn-Tracks o c t = record {
  router_agrees = t.router_agrees;
  connection_agrees = t.connection_agrees;
  channels = t.channels;
  blocks = t.blocks;
}

-- A client is made, is given a connect function or not, gets callbacks, routes messages whose
-- callbacks are in the store and finish at most once, and reconnects with success, in any order, one
-- operation after another and without `Close`. Then its node has been told of every address that has a
-- callback, and of the blocks if they have one, and the client and its router use the identifier of
-- the connection.
pub Reachable-Tracks :
    (accepts : List SocketMessage → Bool) {c : Client} → Reachable accepts c → Tracks c
Reachable-Tracks accepts (started attempt made) = new_client-Tracks attempt made
Reachable-Tracks accepts (connectable {c = c} attempt before) =
    connect_fn-Tracks attempt c (Reachable-Tracks accepts before)
Reachable-Tracks accepts (channel_added {c = c} k a fs before) =
    add_channel_handlers-Tracks accepts k a fs c (Reachable-Tracks accepts before)
Reachable-Tracks accepts (block_added {c = c} fs before) =
    add_block_handlers-Tracks accepts fs c (Reachable-Tracks accepts before)
Reachable-Tracks accepts (routed {c = c} k a mapped order d h before) =
    route_message-Tracks accepts k a mapped order c (Reachable-Tracks accepts before) d h
Reachable-Tracks accepts (block_routed {c = c} mapped order before) =
    route_block_message-Tracks accepts mapped order c (Reachable-Tracks accepts before)
Reachable-Tracks accepts (reconnected {c = c} made before) = reconnect-Tracks accepts c made

no_connect_fn : (attempt : Connect) {c : Client} → new_client attempt ≡ ok c → c.connect_fn ≡ none
unfolding new_client
no_connect_fn (ok uid) {c} h = let made : fresh_client uid ≡ c = cc in rw (sym made) refl
no_connect_fn (err e) h = cc
no_connect_fn panic h = cc

either_connect_fn :
    (o : Option Connect) (test : Bool) (x y : Outcome)
    → x.0.connect_fn ≡ o
    → y.0.connect_fn ≡ o
    → (if test then x else y).0.connect_fn ≡ o
either_connect_fn o true x y h k = h
either_connect_fn o false x y h k = k

then_connect_fn :
    (o : Option Connect) (x : Outcome) (f : Client → Client)
    → ((e : Client) → (f e).connect_fn ≡ e.connect_fn)
    → x.0.connect_fn ≡ o
    → (then_add x f).0.connect_fn ≡ o
then_connect_fn o (d, ok b) f kept h = kept d ∙ h
then_connect_fn o (d, err e) f kept h = h
then_connect_fn o (d, panic) f kept h = h

topic_connect_fn :
    (set : Bool) (k : Channel) (c : Client)
    → (if set then c else set_topic_handler k c).connect_fn ≡ c.connect_fn
unfolding set_topic_handler
topic_connect_fn true k c = refl
topic_connect_fn false k c = refl

module _ (accepts : List SocketMessage → Bool) where
  add_connect_fn :
      (k : Channel) (a : Bytes) (fs : List ℕ) (c : Client)
      → (add_channel_handlers accepts k a fs c).0.connect_fn ≡ c.connect_fn
  unfolding add_channel_handlers publish set_subscribers
  add_connect_fn k a [] c = refl
  add_connect_fn k a (f ∷ fs) c =
      let d = if c.topics k then c else set_topic_handler k c in
      let kept = topic_connect_fn (c.topics k) k c in
      either_connect_fn c.connect_fn c.closed (c, panic) _ refl
        (then_connect_fn c.connect_fn _ _ (λ e. refl)
          (either_connect_fn c.connect_fn (has_handlers a (c.subscribers k)) (d, ok true) _ kept
            (either_connect_fn c.connect_fn (accepts d.sent) _ (d, err _) kept kept)))

  add_block_connect_fn :
      (fs : List ℕ) (c : Client) → (add_block_handlers accepts fs c).0.connect_fn ≡ c.connect_fn
  unfolding add_block_handlers publish
  add_block_connect_fn [] c = refl
  add_block_connect_fn (f ∷ fs) c =
      let d : Client = record c { block_topic = true } in
      either_connect_fn c.connect_fn c.closed (c, panic) _ refl
        (then_connect_fn c.connect_fn _ _ (λ e. refl)
          (either_connect_fn c.connect_fn (is_empty c.block_subscriber) _ (d, ok true)
            (either_connect_fn c.connect_fn (accepts c.sent) _ (d, err _) refl refl) refl))

  -- What a client becomes by additions of callbacks, whether they succeed or fail.
  pub data Additions (c : Client) : Client → Type 0 where
    nothing_added : Additions c c
    channel_more :
        {d : Client} (k : Channel) (a : Bytes) (fs : List ℕ)
        → Additions c d
        → Additions c (add_channel_handlers accepts k a fs d).0
    block_more :
        {d : Client} (fs : List ℕ) → Additions c d → Additions c (add_block_handlers accepts fs d).0

  Additions-connect_fn : {c d : Client} → Additions c d → d.connect_fn ≡ c.connect_fn
  Additions-connect_fn nothing_added = refl
  Additions-connect_fn (channel_more {d} k a fs more) =
      add_connect_fn k a fs d ∙ Additions-connect_fn more
  Additions-connect_fn (block_more {d} fs more) =
      add_block_connect_fn fs d ∙ Additions-connect_fn more

  -- A client as `NewClient` makes it cannot reconnect: its connect function is nil, and calling it is a
  -- panic, after any additions of callbacks for addresses and for blocks.
  pub reconnect-new_client :
      (attempt : Connect) {c d : Client}
      → new_client attempt ≡ ok c
      → Additions c d
      → (reconnect accepts d).1 ≡ panic
  unfolding reconnect connected_by
  reconnect-new_client attempt h more =
      rw (Additions-connect_fn more ∙ no_connect_fn attempt h) refl
