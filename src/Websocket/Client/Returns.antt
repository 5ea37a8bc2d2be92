-- ===== src/Websocket/Client/Returns.antt =====
-- Connecting again never panics where the client is not closed and `connectFn` gives an identifier, and succeeds where the connection
-- takes everything.
use go_xpx_chain_sdk.Base.{
  Bool, Bool-cases, Bytes, Error, List, Option, [], arith, err, false, if◌then◌else◌, inl, inr,
  new_error, ok, panic, some, true, ◌∷◌, ◌≡◌,
}
use go_xpx_chain_sdk.Websocket.Client.{
  Channel, Client, Connect, Outcome, SocketMessage, address_path, and_then, block_path,
  confirmed_added, connected_by, cosignature, on_connection, partial_added, partial_removed,
  publish, status, subscribe, subscribe_all, subscribe_block, subscribe_channel, unconfirmed_added,
  unconfirmed_removed,
}
use go_xpx_chain_sdk.Websocket.Subscribers.{get_addresses, is_empty}

-- A client that is not closed, and its `connectFn`.
abbrev pub IsOpen : Option Connect → Client → Type 0
IsOpen f c = (c.connect_fn ≡ f) × (c.closed ≡ false)

-- An outcome that is no panic, of a client that is open with the same `connectFn`; and one that is no error, if the
-- connection takes everything.
pub data IsReturn (f : Option Connect) (sure : Bool) : Outcome → Type 0 where
  returns : (d : Client) (b : Bool) → IsOpen f d → IsReturn f sure (d, ok b)
  fails : (d : Client) (e : Error) → IsOpen f d → sure ≡ false → IsReturn f sure (d, err e)

and_then-IsReturn :
    {f : Option Connect} {sure : Bool} {o : Outcome} (next : Client → Outcome)
    → IsReturn f sure o
    → ((d : Client) → IsOpen f d → IsReturn f sure (next d))
    → IsReturn f sure (and_then o next)
and_then-IsReturn next (returns d b e) h = h d e
and_then-IsReturn next (fails d x e s) h = fails d x e s

open-IsReturn :
    {f : Option Connect} {sure : Bool} {o : Outcome} (closed : Bool) (x : Client)
    → closed ≡ false
    → IsReturn f sure o
    → IsReturn f sure (if closed then (x, panic) else o)
open-IsReturn true x h r = cc
open-IsReturn false x h r = r

unsure : (s t : Bool) → (s ≡ true → t ≡ true) → t ≡ false → s ≡ false
unsure s t h k = ground (arith, h)

module _ (accepts : List SocketMessage → Bool) (sure : Bool)
    (takes : sure ≡ true → (sent : List SocketMessage) → accepts sent ≡ true) where
  publish-IsReturn :
      (m : SocketMessage) (c : Client) {f : Option Connect}
      → IsOpen f c
      → IsReturn f sure (publish accepts m c)
  unfolding publish
  publish-IsReturn m c e = elim (Bool-cases (accepts c.sent)) [
    | inl t ↦ rw t (returns (record c { sent = m ∷ c.sent }) true e)
    | inr u ↦
        let refused = unsure sure (accepts c.sent) (λ s. takes s c.sent) u in
        rw u (fails c (new_error "publishing message into websocket connection") e refused)
  ]

  subscribe_all-IsReturn :
      (k : Channel) (addresses : List Bytes) (c : Client) {f : Option Connect}
      → IsOpen f c
      → IsReturn f sure (subscribe_all accepts k addresses c)
  unfolding subscribe_all
  subscribe_all-IsReturn k [] c e = returns c true e
  subscribe_all-IsReturn k (a ∷ rest) c e =
      and_then-IsReturn (λ d. subscribe_all accepts k rest d)
        (publish-IsReturn (subscribe c.uid (address_path k a)) c e)
        (λ d g. subscribe_all-IsReturn k rest d g)

  subscribe_channel-IsReturn :
      (k : Channel) (c : Client) {f : Option Connect}
      → IsOpen f c
      → IsReturn f sure (subscribe_channel accepts k c)
  unfolding subscribe_channel
  subscribe_channel-IsReturn k c e = subscribe_all-IsReturn k (get_addresses (c.subscribers k)) c e

  subscribe_block-IsReturn :
      (c : Client) {f : Option Connect} → IsOpen f c → IsReturn f sure (subscribe_block accepts c)
  unfolding subscribe_block
  subscribe_block-IsReturn c e = elim (Bool-cases (is_empty c.block_subscriber)) [
    | inl t ↦ rw t (returns c true e)
    | inr u ↦ rw u (publish-IsReturn (subscribe c.uid block_path) c e)
  ]

  pub connected_by-IsReturn :
      (c : Client) (uid : Bytes) {f : Option Connect}
      → IsOpen f c
      → IsReturn f sure (connected_by accepts c (some (ok uid)))
  unfolding connected_by
  connected_by-IsReturn c uid {f} opened =
      let on = λ (k : Channel) (d : Client) (e : IsOpen f d). subscribe_channel-IsReturn k d e in
      open-IsReturn c.closed (on_connection uid c) opened.1 (
        and_then-IsReturn _ (subscribe_block-IsReturn (on_connection uid c) opened) (λ c0 e0.
          and_then-IsReturn _ (on confirmed_added c0 e0) (λ c1 e1.
            and_then-IsReturn _ (on cosignature c1 e1) (λ c2 e2.
              and_then-IsReturn _ (on partial_added c2 e2) (λ c3 e3.
                and_then-IsReturn _ (on partial_removed c3 e3) (λ c4 e4.
                  and_then-IsReturn _ (on status c4 e4) (λ c5 e5.
                    and_then-IsReturn _ (on unconfirmed_added c5 e5)
                      (λ c6 e6. on unconfirmed_removed c6 e6))))))))
