-- ===== src/Websocket/Client/Routing.antt =====
-- What a message does to the subscriptions of a client.
use go_xpx_chain_sdk.Base.{
  Bool, Bool-cases, Bytes, List, Result, and_split, ap, arith, err, false, inl, inr, not, ok, panic,
  refl, sym, true, ℕ, ◌∙◌, ◌∷◌, ◌≡◌,
}
use go_xpx_chain_sdk.Base.Text.{same, same-eq}
use go_xpx_chain_sdk.Websocket.Client.{
  Channel, Client, SocketMessage, address_path, answered, block_path, publish, route_message,
  same_channel, same_path, set_subscribers, unsubscribe,
}
use go_xpx_chain_sdk.Websocket.Client.Server.{
  same_channel-eq, same_channel_refl, subscribed, subscribed_beside,
}
use go_xpx_chain_sdk.Websocket.Client.Subscriptions.{Tracks, either-Tracks, replace-Tracks}
use go_xpx_chain_sdk.Websocket.Handlers.{handle}
use go_xpx_chain_sdk.Websocket.Handlers.Removal.{all_in, distinct, handle_lem}
use go_xpx_chain_sdk.Websocket.Subscribers.{
  Subscribers, find, get_handlers, has_handlers, is_empty, or_empty,
}

not-false : (b : Bool) → not b ≡ false → b ≡ true
not-false b h = ground arith

handle_none :
    (a : Bytes) (results : ℕ → Bool) (order : List ℕ) (s : Subscribers)
    → has_handlers a s ≡ false
    → handle a (ok results) order s ≡ ok (s, true)
unfolding handle has_handlers get_handlers
handle_none a results order s h = rw (not-false (is_empty (or_empty (find a s))) h) refl

has_handlers-others :
    (a : Bytes) (s left : Subscribers)
    → ((b : Bytes) → same a b ≡ false → get_handlers b left ≡ get_handlers b s)
    → (b : Bytes) → same a b ≡ false
    → has_handlers b left ≡ has_handlers b s
unfolding has_handlers get_handlers
has_handlers-others a s left others b h = ap (λ hs. not (is_empty hs)) (others b h)

block_apart : (k : Channel) (a : Bytes) → same_path block_path (address_path k a) ≡ false
unfolding same_path
block_apart k a = refl

impossible : (b : Bool) → b ≡ true → b ≡ false → ⊥
impossible b h k = ground arith

module _ (k : Channel) (a : Bytes) (left : Subscribers) (c : Client) (t : Tracks c)
    (told : subscribed c.uid (address_path k a) c.sent ≡ true)
    (others : (b : Bytes)
      → same a b ≡ false
      → has_handlers b left ≡ has_handlers b (c.subscribers k)) where
  left_told :
      (b : Bytes) → has_handlers b left ≡ true → subscribed c.uid (address_path k b) c.sent ≡ true
  left_told b h = elim (Bool-cases (same a b)) [
    | inl e ↦ rw (sym (same-eq a b e)) told
    | inr e ↦ t.channels k b (sym (others b e) ∙ h)
  ]

  unsubscribed-Tracks :
      has_handlers a left ≡ false
      → Tracks (record (set_subscribers k left c) {
        sent = unsubscribe c.router_uid (address_path k a) ∷ c.sent;
      })
  unfolding set_subscribers same_path
  unsubscribed-Tracks gone =
      let kept = replace-Tracks k left c t left_told in
      record {
        router_agrees = t.router_agrees;
        connection_agrees = t.connection_agrees;
        channels = λ l b h. elim (Bool-cases (same_path (address_path l b) (address_path k a))) [
          | inl e ↦
              let (on_k, on_a) = and_split (same_channel l k) (same b a) e in
              let is_k : l ≡ k = same_channel-eq l k on_k in
              let is_a : b ≡ a = same-eq b a on_a in
              let there : has_handlers a left ≡ true = rw (is_k, is_a, same_channel_refl k) at h in
              absurd (impossible (has_handlers a left) there gone)
          | inr e ↦
              subscribed_beside c.uid c.router_uid (address_path l b) (address_path k a) c.sent e
                (kept.channels l b h)
        ];
        blocks = λ h.
            subscribed_beside c.uid c.router_uid block_path (address_path k a) c.sent
              (block_apart k a) (t.blocks h);
      }

module _ (accepts : List SocketMessage → Bool) where
  answered-Tracks :
      (k : Channel) (a : Bytes) (left : Subscribers) (c : Client) (more : Bool)
      → Tracks c
      → subscribed c.uid (address_path k a) c.sent ≡ true
      → ((b : Bytes) → same a b ≡ false → has_handlers b left ≡ has_handlers b (c.subscribers k))
      → has_handlers a left ≡ more
      → Tracks (answered accepts k a c (ok (left, more))).0
  unfolding answered publish set_subscribers
  answered-Tracks k a left c true t told others e =
      replace-Tracks k left c t (left_told k a left c t told others)
  answered-Tracks k a left c false t told others e = elim (Bool-cases (accepts c.sent)) [
    | inl u ↦ rw u (unsubscribed-Tracks k a left c t told others e)
    | inr u ↦ rw u (replace-Tracks k left c t (left_told k a left c t told others))
  ]

  -- A message whose info is a channel and an address leaves the node of a client told of every address
  -- and of the blocks as far as they have callbacks, if it was before, whether the message is mapped
  -- or not and whatever the callbacks answer, in whatever order they finish, if none finishes twice
  -- and each is in the store: the node is told of the end of a subscription only when no callback is
  -- left.
  pub route_message-Tracks :
      (k : Channel) (a : Bytes) (mapped : Result (ℕ → Bool)) (order : List ℕ) (c : Client)
      → Tracks c
      → distinct order ≡ true
      → all_in order (get_handlers a (c.subscribers k)) ≡ true
      → Tracks (route_message accepts (ok (k, a)) mapped order c).0
  unfolding route_message
  route_message-Tracks k a (err e) order c t d h =
      either-Tracks (c.topics k) (c, panic) (c, panic) t t
  route_message-Tracks k a panic order c t d h =
      either-Tracks (c.topics k) (c, panic) (c, panic) t t
  route_message-Tracks k a (ok results) order c t d h =
      either-Tracks (c.topics k) _ (c, panic)
        (elim (Bool-cases (has_handlers a (c.subscribers k))) [
          | inr e ↦
              rw (handle_none a results order (c.subscribers k) e)
                (replace-Tracks k (c.subscribers k) c t (t.channels k))
          | inl e ↦
              let (left, handled, at, others) =
                handle_lem a results order (c.subscribers k) e d h in
              rw handled (
                answered-Tracks k a left c (has_handlers a left) t (t.channels k a e)
                  (has_handlers-others a (c.subscribers k) left others) refl)
        ])
        t
