-- ===== src/Websocket/Client/Subscriptions.antt =====
-- The callbacks of a client are reached: the node is subscribed wherever one is registered.
use go_xpx_chain_sdk.Base.{
  Bool, Bool-cases, Bytes, List, [], ap, err, false, if◌then◌else◌, inl, inr, not, ok, panic, refl,
  sym, true, ℕ, ◌∙◌, ◌∷◌, ◌≡◌,
}
use go_xpx_chain_sdk.Base.Text.{same, same-eq}
use go_xpx_chain_sdk.Websocket.Client.{
  Channel, Client, Connect, Outcome, SocketMessage, Subscription, add_block_handlers,
  add_channel_handlers, address_path, block_path, fresh_client, new_client, publish, same_channel,
  set_subscribers, set_topic_handler, subscribe, then_add,
}
use go_xpx_chain_sdk.Websocket.Client.Server.{
  same_channel-eq, subscribed, subscribed-subscribe, subscribed_still,
}
use go_xpx_chain_sdk.Websocket.Subscribers.{
  Handlers, Subscribers, add_handlers, block_add_handlers, find, has_handlers, is_empty, or_empty,
  put, set_all,
}
use go_xpx_chain_sdk.Websocket.Subscribers.Store.{find-put}

-- The client, its router and the connection agree on the identifier, and the node has been told of
-- every address and of the blocks that have a callback.
pub record Tracks (c : Client) : Type 0 where
  pub router_agrees : c.router_uid ≡ c.uid
  pub connection_agrees : c.connection_uid ≡ c.uid
  pub channels :
      (k : Channel) (a : Bytes)
      → has_handlers a (c.subscribers k) ≡ true
      → subscribed c.uid (address_path k a) c.sent ≡ true
  pub blocks : is_empty c.block_subscriber ≡ false → subscribed c.uid block_path c.sent ≡ true

-- A client that connects has no callback, and nothing to be told.
pub new_client-Tracks : (attempt : Connect) {c : Client} → new_client attempt ≡ ok c → Tracks c
unfolding new_client has_handlers find
new_client-Tracks (ok uid) {c} h =
    let made : fresh_client uid ≡ c = cc in
    rw (sym made) (record {
      router_agrees = refl;
      connection_agrees = refl;
      channels = λ k a e. cc;
      blocks = λ e. cc;
    })
new_client-Tracks (err e) h = cc
new_client-Tracks panic h = cc

-- Other contents of one store, where the node has been told of every address of theirs.
pub replace-Tracks :
    (k : Channel) (s : Subscribers) (c : Client)
    → Tracks c
    → ((a : Bytes) → has_handlers a s ≡ true → subscribed c.uid (address_path k a) c.sent ≡ true)
    → Tracks (set_subscribers k s c)
unfolding set_subscribers
replace-Tracks k s c t told = record {
  router_agrees = t.router_agrees;
  connection_agrees = t.connection_agrees;
  channels = λ l a h. elim (Bool-cases (same_channel k l)) [
    | inl e ↦ rw (sym (same_channel-eq k l e)) (told a (rw e at h))
    | inr e ↦ t.channels l a (rw e at h)
  ];
  blocks = t.blocks;
}

topic-Tracks : (k : Channel) (c : Client) → Tracks c → Tracks (set_topic_handler k c)
unfolding set_topic_handler
topic-Tracks k c t = record {
  router_agrees = t.router_agrees;
  connection_agrees = t.connection_agrees;
  channels = t.channels;
  blocks = t.blocks;
}

-- One more message, which ends no subscription.
sent-Tracks :
    (p : Subscription) (c : Client)
    → Tracks c
    → Tracks (record c { sent = subscribe c.uid p ∷ c.sent })
sent-Tracks p c t = record {
  router_agrees = t.router_agrees;
  connection_agrees = t.connection_agrees;
  channels = λ k a h. subscribed_still c.uid c.uid (address_path k a) p c.sent (t.channels k a h);
  blocks = λ h. subscribed_still c.uid c.uid block_path p c.sent (t.blocks h);
}

find_other :
    (a b : Bytes) (hs : Handlers) (s : Subscribers)
    → same a b ≡ false
    → find b (put a hs s) ≡ find b s
find_other a b hs s h = find-put a b hs s ∙ rw h refl

has_handlers-put-other :
    (a b : Bytes) (hs : Handlers) (s : Subscribers)
    → same a b ≡ false
    → has_handlers b (put a hs s) ≡ has_handlers b s
unfolding has_handlers
has_handlers-put-other a b hs s h = ap (λ o. not (is_empty (or_empty o))) (find_other a b hs s h)

added-Tracks :
    (k : Channel) (a : Bytes) (f : ℕ) (fs : List ℕ) (d : Client)
    → Tracks d
    → subscribed d.uid (address_path k a) d.sent ≡ true
    → Tracks (set_subscribers k (add_handlers a (f ∷ fs) (d.subscribers k)) d)
unfolding add_handlers
added-Tracks k a f fs d t told =
    let hs = set_all (f ∷ fs) (or_empty (find a (d.subscribers k))) in
    replace-Tracks k (put a hs (d.subscribers k)) d t (λ b h. elim (Bool-cases (same a b)) [
      | inl e ↦ rw (sym (same-eq a b e)) told
      | inr e ↦ t.channels k b (sym (has_handlers-put-other a b hs (d.subscribers k) e) ∙ h)
    ])

pub either-Tracks :
    (test : Bool) (x y : Outcome) → Tracks x.0 → Tracks y.0 → Tracks (if test then x else y).0
either-Tracks true x y t u = t
either-Tracks false x y t u = u

topic_block-Tracks : (c : Client) → Tracks c → Tracks (record c { block_topic = true })
topic_block-Tracks c t = record {
  router_agrees = t.router_agrees;
  connection_agrees = t.connection_agrees;
  channels = t.channels;
  blocks = t.blocks;
}

block-Tracks :
    (hs : Handlers) (c : Client)
    → Tracks c
    → subscribed c.uid block_path c.sent ≡ true
    → Tracks (record c { block_subscriber = hs })
block-Tracks hs c t told = record {
  router_agrees = t.router_agrees;
  connection_agrees = t.connection_agrees;
  channels = t.channels;
  blocks = λ h. told;
}

module _ (accepts : List SocketMessage → Bool) where
  publish_subscribe-Tracks :
      (p : Subscription) (c : Client) → Tracks c → Tracks (publish accepts (subscribe c.uid p) c).0
  unfolding publish
  publish_subscribe-Tracks p c t = elim (Bool-cases (accepts c.sent)) [
    | inl e ↦ rw e (sent-Tracks p c t)
    | inr e ↦ rw e t
  ]

  add-Tracks :
      (k : Channel) (a : Bytes) (f : ℕ) (fs : List ℕ) (d : Client) (there : Bool)
      → Tracks d
      → (there ≡ true → has_handlers a (d.subscribers k) ≡ true)
      → Tracks
          (then_add
            (if there then (d, ok true) else publish accepts (subscribe d.uid (address_path k a)) d)
            (λ e. set_subscribers k (add_handlers a (f ∷ fs) (e.subscribers k)) e)).0
  unfolding publish
  add-Tracks k a f fs d true t h = added-Tracks k a f fs d t (t.channels k a (h refl))
  add-Tracks k a f fs d false t h = elim (Bool-cases (accepts d.sent)) [
    | inl e ↦ rw e (
        added-Tracks k a f fs (record d { sent = subscribe d.uid (address_path k a) ∷ d.sent })
          (sent-Tracks (address_path k a) d t)
          (subscribed-subscribe d.uid (address_path k a) d.sent))
    | inr e ↦ rw e t
  ]

  add_topic-Tracks :
      (k : Channel) (a : Bytes) (f : ℕ) (fs : List ℕ) (c : Client) (set : Bool)
      → Tracks c
      → Tracks
          (then_add
            (if has_handlers a (c.subscribers k)
              then (if set then c else set_topic_handler k c, ok true)
              else publish accepts
                  (subscribe c.uid (address_path k a))
                  (if set then c else set_topic_handler k c))
            (λ e. set_subscribers k (add_handlers a (f ∷ fs) (e.subscribers k)) e)).0
  unfolding set_topic_handler
  add_topic-Tracks k a f fs c true t =
      add-Tracks k a f fs c (has_handlers a (c.subscribers k)) t (λ h. h)
  add_topic-Tracks k a f fs c false t =
      add-Tracks k a f fs (set_topic_handler k c) (has_handlers a (c.subscribers k))
        (topic-Tracks k c t) (λ h. h)

  -- Adding callbacks for an address leaves the node of a client told of every address that has some,
  -- if it was before, whether the write succeeds or not.
  pub add_channel_handlers-Tracks :
      (k : Channel) (a : Bytes) (fs : List ℕ) (c : Client)
      → Tracks c
      → Tracks (add_channel_handlers accepts k a fs c).0
  unfolding add_channel_handlers set_topic_handler
  add_channel_handlers-Tracks k a [] c t = t
  add_channel_handlers-Tracks k a (f ∷ fs) c t =
      either-Tracks c.closed (c, panic) _ t (add_topic-Tracks k a f fs c (c.topics k) t)

  add_block-Tracks :
      (fs : List ℕ) (d : Client) (none_there : Bool)
      → Tracks d
      → (none_there ≡ false → is_empty d.block_subscriber ≡ false)
      → Tracks
          (then_add
            (if none_there then publish accepts (subscribe d.uid block_path) d else (d, ok true))
            (λ e. record e { block_subscriber = block_add_handlers fs e.block_subscriber })).0
  unfolding publish
  add_block-Tracks fs d false t h =
      block-Tracks (block_add_handlers fs d.block_subscriber) d t (t.blocks (h refl))
  add_block-Tracks fs d true t h = elim (Bool-cases (accepts d.sent)) [
    | inl e ↦ rw e (
        block-Tracks (block_add_handlers fs d.block_subscriber)
          (record d { sent = subscribe d.uid block_path ∷ d.sent }) (sent-Tracks block_path d t)
          (subscribed-subscribe d.uid block_path d.sent))
    | inr e ↦ rw e t
  ]

  -- So does adding callbacks for blocks.
  pub add_block_handlers-Tracks :
      (fs : List ℕ) (c : Client) → Tracks c → Tracks (add_block_handlers accepts fs c).0
  unfolding add_block_handlers
  add_block_handlers-Tracks [] c t = t
  add_block_handlers-Tracks (f ∷ fs) c t =
      either-Tracks c.closed (c, panic) _ t
        (add_block-Tracks (f ∷ fs) (record c { block_topic = true }) (is_empty c.block_subscriber)
          (topic_block-Tracks c t) (λ h. h))
