-- ===== src/Websocket/Client/Reconnection.antt =====
-- `reconnect`, and the clients that a program can reach.
use go_xpx_chain_sdk.Base.{
  Bool, Bool-cases, Bytes, List, Option, [], ap, arith, err, false, if◌then◌else◌, inl, inr,
  new_error, none, ok, panic, refl, some, sym, true, ◌||◌, ◌∙◌, ◌∷◌, ◌≡◌,
}
use go_xpx_chain_sdk.Base.Text.{same, same-eq}
use go_xpx_chain_sdk.Websocket.Client.{
  Channel, Client, Connect, Outcome, SocketMessage, Subscription, address_path, and_then,
  block_path, confirmed_added, connected_by, cosignature, on_connection, partial_added,
  partial_removed, publish, reconnect, status, subscribe, subscribe_all, subscribe_block,
  subscribe_channel, unconfirmed_added, unconfirmed_removed,
}
use go_xpx_chain_sdk.Websocket.Client.Listening.{step}
use go_xpx_chain_sdk.Websocket.Client.Server.{subscribed, subscribed-subscribe, subscribed_still}
use go_xpx_chain_sdk.Websocket.Client.Subscriptions.{Tracks}
use go_xpx_chain_sdk.Websocket.Subscribers.{
  Subscribers, find, get_addresses, has_handlers, is_empty,
}

-- The same client, that has perhaps told the node of more.
pub record Extends (c d : Client) : Type 0 where
  pub same_uid : d.uid ≡ c.uid
  pub same_router : d.router_uid ≡ c.router_uid
  pub same_connection : d.connection_uid ≡ c.connection_uid
  pub same_subscribers : (k : Channel) → d.subscribers k ≡ c.subscribers k
  pub same_blocks : d.block_subscriber ≡ c.block_subscriber
  pub still :
      (p : Subscription) → subscribed c.uid p c.sent ≡ true → subscribed d.uid p d.sent ≡ true

Extends-refl : (c : Client) → Extends c c
Extends-refl c = record {
  same_uid = refl;
  same_router = refl;
  same_connection = refl;
  same_subscribers = λ k. refl;
  same_blocks = refl;
  still = λ p h. h;
}

sent-Extends :
    (p : Subscription) (c : Client) → Extends c (record c { sent = subscribe c.uid p ∷ c.sent })
sent-Extends p c = record {
  same_uid = refl;
  same_router = refl;
  same_connection = refl;
  same_subscribers = λ k. refl;
  same_blocks = refl;
  still = λ q h. subscribed_still c.uid c.uid q p c.sent h;
}

Extends-trans : {c d e : Client} → Extends c d → Extends d e → Extends c e
Extends-trans x y = record {
  same_uid = y.same_uid ∙ x.same_uid;
  same_router = y.same_router ∙ x.same_router;
  same_connection = y.same_connection ∙ x.same_connection;
  same_subscribers = λ k. y.same_subscribers k ∙ x.same_subscribers k;
  same_blocks = y.same_blocks ∙ x.same_blocks;
  still = λ p h. y.still p (x.still p h);
}

-- An address of a store that has a callback is among its addresses.
among : Bytes → List Bytes → Bool
unfolding same
among a [] = false
among a (b ∷ bs) = same b a || among a bs

among-get_addresses :
    (a : Bytes) (s : Subscribers) → has_handlers a s ≡ true → among a (get_addresses s) ≡ true
unfolding among get_addresses has_handlers find
among-get_addresses a [] h = cc
among-get_addresses a ((b, hs) ∷ s) h = elim (Bool-cases (same b a)) [
  | inl e ↦ rw e refl
  | inr e ↦ rw e (among-get_addresses a s (rw e at h))
]

-- Running one operation and then another: both succeed if the whole does.
and_then_ok :
    (o : Outcome) (f : Client → Outcome) {d : Client} {b : Bool}
    → and_then o f ≡ (d, ok b)
    → (c : Client) × (u : Bool) × (o ≡ (c, ok u)) × (f c ≡ (d, ok b))
and_then_ok (c, ok u) f h = (c, u, refl, h)
and_then_ok (c, err e) f h = cc
and_then_ok (c, panic) f h = cc

-- What succeeds was not stopped by a closed client.
not_closed :
    (closed : Bool) (x : Client) (o : Outcome) {d : Client} {b : Bool}
    → (if closed then (x, panic) else o) ≡ (d, ok b)
    → o ≡ (d, ok b)
not_closed true x o h = cc
not_closed false x o h = h

-- The node has been told of the addresses of one channel.
Told : Channel → Client → Type 0
Told k d =
    (a : Bytes)
    → has_handlers a (d.subscribers k) ≡ true
    → subscribed d.uid (address_path k a) d.sent ≡ true

still-Told : (k : Channel) {c d : Client} → Extends c d → Told k c → Told k d
unfolding Told
still-Told k x t a h =
    x.still (address_path k a) (t a (ap (has_handlers a) (sym (x.same_subscribers k)) ∙ h))

clash : (b : Bool) → b ≡ true → b ≡ false → ⊥
clash b h k = ground arith

all_channels :
    (d : Client)
    → Told confirmed_added d
    → Told unconfirmed_removed d
    → Told unconfirmed_added d
    → Told partial_added d
    → Told partial_removed d
    → Told status d
    → Told cosignature d
    → (k : Channel) → (a : Bytes) → has_handlers a (d.subscribers k) ≡ true
    → subscribed d.uid (address_path k a) d.sent ≡ true
unfolding Told
all_channels d ca ur ua pa pr st co confirmed_added = ca
all_channels d ca ur ua pa pr st co unconfirmed_added = ua
all_channels d ca ur ua pa pr st co unconfirmed_removed = ur
all_channels d ca ur ua pa pr st co partial_added = pa
all_channels d ca ur ua pa pr st co partial_removed = pr
all_channels d ca ur ua pa pr st co status = st
all_channels d ca ur ua pa pr st co cosignature = co

module _ (accepts : List SocketMessage → Bool) where
  publish_ok :
      (p : Subscription) (c : Client) {d : Client} {b : Bool}
      → publish accepts (subscribe c.uid p) c ≡ (d, ok b)
      → Extends c d × (subscribed d.uid p d.sent ≡ true)
  unfolding publish
  publish_ok p c {d} {b} h = elim (Bool-cases (accepts c.sent)) [
    | inl e ↦
        (let told : (record c { sent = subscribe c.uid p ∷ c.sent }, ok true) ≡ (d, ok b) =
            rw e at h in
          let same : record c { sent = subscribe c.uid p ∷ c.sent } ≡ d = cc in
          rw (sym same) (sent-Extends p c, subscribed-subscribe c.uid p c.sent))
    | inr e ↦
        (let failed : (c, err (new_error "publishing message into websocket connection"))
              ≡ (d, ok b) =
            rw e at h in
          cc)
  ]

  subscribe_all_ok :
      (k : Channel) (addresses : List Bytes) (c : Client) {d : Client} {b : Bool}
      → subscribe_all accepts k addresses c ≡ (d, ok b)
      → Extends c d
        × ((a : Bytes)
            → among a addresses ≡ true
            → subscribed d.uid (address_path k a) d.sent ≡ true)
  unfolding subscribe_all among
  subscribe_all_ok k [] c {d} h = let same : c ≡ d = cc in rw (sym same) (Extends-refl c, λ a e. cc)
  subscribe_all_ok k (x ∷ rest) c {d} {b} h =
      let (c1, u, first, onward) =
        and_then_ok (publish accepts (subscribe c.uid (address_path k x)) c)
          (λ e. subscribe_all accepts k rest e) h in
      let (step, told) = publish_ok (address_path k x) c first in
      let (steps, others) = subscribe_all_ok k rest c1 onward in
      (
        Extends-trans step steps,
        λ a e. elim (Bool-cases (same x a)) [
          | inl t ↦ rw (sym (same-eq x a t)) (steps.still (address_path k x) told)
          | inr f ↦ others a (rw f at e)
        ],
      )

  subscribe_channel_ok :
      (k : Channel) (c : Client) {d : Client} {b : Bool}
      → subscribe_channel accepts k c ≡ (d, ok b)
      → Extends c d × Told k d
  unfolding subscribe_channel Told
  subscribe_channel_ok k c h =
      let (steps, told) = subscribe_all_ok k (get_addresses (c.subscribers k)) c h in
      (
        steps,
        λ a e. told a (
            among-get_addresses a (c.subscribers k)
              (ap (has_handlers a) (sym (steps.same_subscribers k)) ∙ e)),
      )

  subscribe_block_ok :
      (c : Client) {d : Client} {b : Bool}
      → subscribe_block accepts c ≡ (d, ok b)
      → Extends c d
        × (is_empty d.block_subscriber ≡ false → subscribed d.uid block_path d.sent ≡ true)
  unfolding subscribe_block
  subscribe_block_ok c {d} {b} h = elim (Bool-cases (is_empty c.block_subscriber)) [
    | inl e ↦
        (let unchanged : (c, ok true) ≡ (d, ok b) = rw e at h in
          let same : c ≡ d = cc in
          rw (sym same) (Extends-refl c, λ f. absurd (clash (is_empty c.block_subscriber) e f)))
    | inr e ↦ let (step, told) = publish_ok block_path c (rw e at h) in (step, λ f. told)
  ]

  pub connected_by-Tracks :
      (c : Client) (o : Option Connect) {d : Client} {b : Bool}
      → connected_by accepts c o ≡ (d, ok b)
      → Tracks d
  unfolding connected_by
  connected_by-Tracks c none h = cc
  connected_by-Tracks c (some panic) h = cc
  connected_by-Tracks c (some (err e)) h = cc
  connected_by-Tracks c (some (ok uid)) {d} made =
      let h = not_closed c.closed (on_connection uid c) _ made in
      let (c0, u0, e0, h0) = and_then_ok (subscribe_block accepts (on_connection uid c)) _ h in
      let (c1, u1, e1, h1) = and_then_ok (subscribe_channel accepts confirmed_added c0) _ h0 in
      let (c2, u2, e2, h2) = and_then_ok (subscribe_channel accepts cosignature c1) _ h1 in
      let (c3, u3, e3, h3) = and_then_ok (subscribe_channel accepts partial_added c2) _ h2 in
      let (c4, u4, e4, h4) = and_then_ok (subscribe_channel accepts partial_removed c3) _ h3 in
      let (c5, u5, e5, h5) = and_then_ok (subscribe_channel accepts status c4) _ h4 in
      let (c6, u6, e6, h6) = and_then_ok (subscribe_channel accepts unconfirmed_added c5) _ h5 in
      let (x0, blocks) = subscribe_block_ok (on_connection uid c) e0 in
      let (x1, t1) = subscribe_channel_ok confirmed_added c0 e1 in
      let (x2, t2) = subscribe_channel_ok cosignature c1 e2 in
      let (x3, t3) = subscribe_channel_ok partial_added c2 e3 in
      let (x4, t4) = subscribe_channel_ok partial_removed c3 e4 in
      let (x5, t5) = subscribe_channel_ok status c4 e5 in
      let (x6, t6) = subscribe_channel_ok unconfirmed_added c5 e6 in
      let (x7, t7) = subscribe_channel_ok unconfirmed_removed c6 h6 in
      let from6 = x7 in
      let from5 = Extends-trans x6 from6 in
      let from4 = Extends-trans x5 from5 in
      let from3 = Extends-trans x4 from4 in
      let from2 = Extends-trans x3 from3 in
      let from1 = Extends-trans x2 from2 in
      let from0 = Extends-trans x1 from1 in
      let whole = Extends-trans x0 from0 in
      record {
        router_agrees = whole.same_router ∙ sym whole.same_uid;
        connection_agrees = whole.same_connection ∙ sym whole.same_uid;
        channels =
            all_channels d (still-Told confirmed_added from1 t1) t7
              (still-Told unconfirmed_added from6 t6) (still-Told partial_added from3 t3)
              (still-Told partial_removed from4 t4) (still-Told status from5 t5)
              (still-Told cosignature from2 t2);
        blocks = λ f. from0.still block_path (blocks (ap is_empty (sym from0.same_blocks) ∙ f));
      }

  -- A reconnection that succeeds leaves the node told of every address that has a callback, and of the
  -- blocks if they have one, on the new connection.
  pub reconnect-Tracks :
      (c : Client) {d : Client} {b : Bool} → reconnect accepts c ≡ (d, ok b) → Tracks d
  unfolding reconnect
  reconnect-Tracks c h = connected_by-Tracks c c.connect_fn h
