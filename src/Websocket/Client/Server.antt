-- ===== src/Websocket/Client/Server.antt =====
-- What a node has been told by a connection: a path is subscribed by its last message.
use go_xpx_chain_sdk.Base.{
  ==_iff, Bool, Bytes, List, [], ap, arith, false, if◌then◌else◌, not, refl, sym, true, ℕ, ◌&&◌,
  ◌==◌, ◌||◌, ◌∙◌, ◌∷◌, ◌≡◌,
}
use go_xpx_chain_sdk.Base.Text.{same, same_refl}
use go_xpx_chain_sdk.Websocket.Client.{
  Channel, SocketMessage, Subscription, address_path, block_path, channel_number, confirmed_added,
  cosignature, partial_added, partial_removed, same_channel, same_path, status, subscribe,
  unconfirmed_added, unconfirmed_removed, unsubscribe,
}

pub subscribed : Bytes → Subscription → List SocketMessage → Bool
unfolding same same_path
subscribed uid p [] = false
subscribed uid p (subscribe v q ∷ sent) = (same uid v && same_path p q) || subscribed uid p sent
subscribed uid p (unsubscribe v q ∷ sent) =
    not (same uid v && same_path p q) && subscribed uid p sent

pub same_channel_refl : (k : Channel) → same_channel k k ≡ true
unfolding same_channel
same_channel_refl confirmed_added = refl
same_channel_refl unconfirmed_added = refl
same_channel_refl unconfirmed_removed = refl
same_channel_refl partial_added = refl
same_channel_refl partial_removed = refl
same_channel_refl status = refl
same_channel_refl cosignature = refl

pub same_path_refl : (p : Subscription) → same_path p p ≡ true
unfolding same_path
same_path_refl block_path = refl
same_path_refl (address_path k a) = rw (same_channel_refl k, same_refl a) refl

pub subscribed-subscribe :
    (uid : Bytes) (p : Subscription) (sent : List SocketMessage)
    → subscribed uid p (subscribe uid p ∷ sent) ≡ true
unfolding subscribed
subscribed-subscribe uid p sent = rw (same_refl uid, same_path_refl p) refl

-- A subscription ends none.
pub subscribed_still :
    (uid v : Bytes) (p q : Subscription) (sent : List SocketMessage)
    → subscribed uid p sent ≡ true
    → subscribed uid p (subscribe v q ∷ sent) ≡ true
unfolding subscribed
subscribed_still uid v p q sent h = ground arith

-- The end of a subscription ends no other.
pub subscribed_beside :
    (uid v : Bytes) (p q : Subscription) (sent : List SocketMessage)
    → same_path p q ≡ false
    → subscribed uid p sent ≡ true
    → subscribed uid p (unsubscribe v q ∷ sent) ≡ true
unfolding subscribed
subscribed_beside uid v p q sent d h = ground arith

channel_of : ℕ → Channel
channel_of n =
    if n == 0
    then confirmed_added
    else if n == 1
    then unconfirmed_added
    else if n == 2
    then unconfirmed_removed
    else if n == 3
    then partial_added
    else if n == 4
    then partial_removed
    else if n == 5
    then status
    else cosignature

channel_of-channel_number : (k : Channel) → channel_of (channel_number k) ≡ k
unfolding channel_of
channel_of-channel_number confirmed_added = refl
channel_of-channel_number unconfirmed_added = refl
channel_of-channel_number unconfirmed_removed = refl
channel_of-channel_number partial_added = refl
channel_of-channel_number partial_removed = refl
channel_of-channel_number status = refl
channel_of-channel_number cosignature = refl

channel_numbers : (k l : Channel) → channel_number k ≡ channel_number l → k ≡ l
channel_numbers k l h =
    sym (channel_of-channel_number k) ∙ ap channel_of h ∙ channel_of-channel_number l

pub same_channel-eq : (k l : Channel) → same_channel k l ≡ true → k ≡ l
unfolding same_channel
same_channel-eq k l h = channel_numbers k l ((==_iff (channel_number k) (channel_number l)).0 h)

pub same_path_parts :
    (k l : Channel) (a b : Bytes)
    → same_path (address_path k a) (address_path l b) ≡ (same_channel k l && same a b)
unfolding same_path
same_path_parts k l a b = refl
