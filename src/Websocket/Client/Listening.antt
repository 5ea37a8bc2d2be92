-- ===== src/Websocket/Client/Listening.antt =====
-- The loop of `Listen` of sdk/websocket/client.go that reads from the connection and connects again,
-- step by step: a read returns, or the ticker fires. What is read goes to the other loop, which routes
-- it.
pub mod Liveness
use go_xpx_chain_sdk.Base.{
  Bool, Bytes, List, Option, [], err, false, if◌then◌else◌, none, not, ok, panic, some, true, ◌++◌,
  ◌∷◌,
}
use go_xpx_chain_sdk.Websocket.Client.{Client, Connect, Outcome, SocketMessage, connected_by}

-- What `ReadMessage` returns: a message, or an error, which is a `*net.OpError`, a
-- `*websocket.CloseError` or another one.
pub data Read : Type 0 where
  message : Bytes → Read
  op_error : Read
  close_error : Read
  other_error : Read

-- A read that returns, or a tick, at which `connectFn` gives a result and the connection takes some
-- messages.
pub data Event : Type 0 where
  read_returned : Read → Event
  ticked : (List SocketMessage → Bool) → Connect → Event

pub data Mode : Type 0 where
  reading : Mode
  reconnecting : Mode
  stopped : Mode
  panicked : Mode

-- `received` is what was sent on `messagesChan`, in order.
pub record Loop : Type 0 where
  pub client : Client
  pub mode : Mode
  pub received : List Bytes

-- The goroutine returns, and calls `cancelFunc`.
abbrev pub stop : Loop → Loop
stop l = record l { client = record (l.client) { cancelled = true }; mode = stopped }

unfoldable pub after_read : Read → Loop → Loop
after_read (message m) l = record l { received = l.received ++ (m ∷ []) }
after_read op_error l = stop l
after_read close_error l = record l { mode = reconnecting }
after_read other_error l = stop l

-- `connectFn` gives a result where it is set.
abbrev pub attempt_of : Option Connect → Connect → Option Connect
attempt_of none attempt = none
attempt_of (some f) attempt = some attempt

abbrev pub after_attempt : Outcome → Loop → Loop
after_attempt (d, ok b) l = record l { client = d; mode = reading }
after_attempt (d, err e) l = record l { client = d }
after_attempt (d, panic) l = record l { client = d; mode = panicked }

-- An event that the loop does not wait for changes nothing.
unfoldable pub step : Mode → Event → Loop → Loop
unfolding after_read connected_by
step reading (read_returned r) l = after_read r l
step reconnecting (ticked accepts attempt) l =
    after_attempt (connected_by accepts l.client (attempt_of l.client.connect_fn attempt)) l
step mode event l = l

unfoldable pub run : List Event → Loop → Loop
unfolding step
run [] l = l
run (e ∷ es) l = run es (step l.mode e l)

-- `Listen` starts the loop where no other call has.
unfoldable pub listen : Client → Option Loop
listen c =
    if c.already_listening
    then none
    else some
        (record { client = record c { already_listening = true }; mode = reading; received = [] })

-- What `Listen` does once it is cancelled.
unfoldable pub done : (Client → Bool) → Client → Outcome
done closes c =
    if not c.connected
    then (c, ok true)
    else if closes c
    then (record c { connected = false }, ok true)
    else (c, panic)
