-- ===== src/Websocket/Client/Blocks.antt =====
-- `RouteMessage` of sdk/websocket/router.go for a message whose info names the channel of
-- blocks: `mapped` is what the mapper of blocks gives, and the callbacks finish in an order.
use go_xpx_chain_sdk.Base.{
  Bool, Bool-cases, List, Result, arith, err, false, if◌then◌else◌, inl, inr, not, ok, panic, refl,
  true, ℕ, ◌≡◌,
}
use go_xpx_chain_sdk.Websocket.Client.{
  Client, Outcome, SocketMessage, address_path, block_path, or_panic, publish, same_path,
  unsubscribe,
}
use go_xpx_chain_sdk.Websocket.Client.Server.{subscribed_beside}
use go_xpx_chain_sdk.Websocket.Client.Subscriptions.{Tracks, either-Tracks}
use go_xpx_chain_sdk.Websocket.Handlers.{handle_block}
use go_xpx_chain_sdk.Websocket.Subscribers.{Handlers, is_empty}

handle_block_none :
    (results : ℕ → Bool) (order : List ℕ) (hs : Handlers)
    → is_empty hs ≡ true
    → handle_block (ok results) order hs ≡ ok (hs, true)
unfolding handle_block
handle_block_none results order hs h = rw h refl

handle_block_some :
    (results : ℕ → Bool) (order : List ℕ) (hs : Handlers)
    → is_empty hs ≡ false
    → (left : Handlers) × (handle_block (ok results) order hs ≡ ok (left, not (is_empty left)))
unfolding handle_block
handle_block_some results order hs h = rw h (_, refl)

gone : (b : Bool) → not b ≡ false → b ≡ false → ⊥
gone b h k = ground arith

module _ (accepts : List SocketMessage → Bool) where
  -- Without a callback left, the router unsubscribes, and panics if that fails.
  unfoldable pub answered_block : Client → Result (Handlers × Bool) → Outcome
  unfolding publish
  answered_block c (ok (left, true)) = (record c { block_subscriber = left }, ok true)
  answered_block c (ok (left, false)) =
      or_panic (
        publish accepts (unsubscribe c.router_uid block_path)
          (record c { block_subscriber = left }))
  answered_block c (err e) = (c, err e)
  answered_block c panic = (c, panic)

  unfoldable pub route_block_message : Result (ℕ → Bool) → List ℕ → Client → Outcome
  unfolding handle_block answered_block
  route_block_message mapped order c =
      let handled = answered_block c (handle_block mapped order c.block_subscriber) in
      if c.block_topic then handled else (c, panic)

  unchanged : (c : Client) → Tracks c → Tracks (answered_block c (ok (c.block_subscriber, true))).0
  unfolding answered_block
  unchanged c t = t

  fewer-Tracks :
      (left : Handlers) (c : Client)
      → Tracks c
      → is_empty c.block_subscriber ≡ false
      → Tracks (record c { block_subscriber = left })
  fewer-Tracks left c t e = record {
    router_agrees = t.router_agrees;
    connection_agrees = t.connection_agrees;
    channels = t.channels;
    blocks = λ h. t.blocks e;
  }

  answered_block-Tracks :
      (left : Handlers) (more : Bool) (c : Client)
      → Tracks c
      → is_empty c.block_subscriber ≡ false
      → not (is_empty left) ≡ more
      → Tracks (answered_block c (ok (left, more))).0
  unfolding answered_block publish same_path
  answered_block-Tracks left true c t e h = fewer-Tracks left c t e
  answered_block-Tracks left false c t e h = elim (Bool-cases (accepts c.sent)) [
    | inl u ↦ rw u (record {
      router_agrees = t.router_agrees;
      connection_agrees = t.connection_agrees;
      channels = λ l b k.
          subscribed_beside c.uid c.router_uid (address_path l b) block_path c.sent refl
            (t.channels l b k);
      blocks = λ k. absurd (gone (is_empty left) h k);
    })
    | inr u ↦ rw u (fewer-Tracks left c t e)
  ]

  -- A message about a block leaves the node told of every address and of the blocks as far as they have
  -- callbacks.
  pub route_block_message-Tracks :
      (mapped : Result (ℕ → Bool)) (order : List ℕ) (c : Client)
      → Tracks c
      → Tracks (route_block_message mapped order c).0
  unfolding route_block_message
  route_block_message-Tracks (err e) order c t =
      either-Tracks c.block_topic (c, panic) (c, panic) t t
  route_block_message-Tracks panic order c t = either-Tracks c.block_topic (c, panic) (c, panic) t t
  route_block_message-Tracks (ok results) order c t =
      either-Tracks c.block_topic _ (c, panic)
        (elim (Bool-cases (is_empty c.block_subscriber)) [
          | inl e ↦ rw (handle_block_none results order c.block_subscriber e) (unchanged c t)
          | inr e ↦
              let (left, handled) = handle_block_some results order c.block_subscriber e in
              rw handled (answered_block-Tracks left (not (is_empty left)) c t e refl)
        ])
        t
