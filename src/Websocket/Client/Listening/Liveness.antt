-- ===== src/Websocket/Client/Listening/Liveness.antt =====
-- A loop that has lost its connection reads again as soon as an attempt gets through.
use go_xpx_chain_sdk.Base.{
  Bool, Bytes, Error, List, Option, [], ap, err, false, inl, inr, ok, panic, refl, some, true, ◌++◌,
  ◌∙◌, ◌∷◌, ◌≡◌, ◌≢◌, ◌⊎◌,
}
use go_xpx_chain_sdk.Base.Text.{same}
use go_xpx_chain_sdk.Namespace.{last}
use go_xpx_chain_sdk.Websocket.Client.{Client, Connect, Outcome, SocketMessage, connected_by}
use go_xpx_chain_sdk.Websocket.Client.Listening.{
  Event, Loop, Mode, after_attempt, attempt_of, reading, reconnecting, run, step, ticked,
}
use go_xpx_chain_sdk.Websocket.Client.Reconnection.{connected_by-Tracks}
use go_xpx_chain_sdk.Websocket.Client.Returns.{
  IsOpen, IsReturn, connected_by-IsReturn, fails, returns,
}
use go_xpx_chain_sdk.Websocket.Client.Subscriptions.{Tracks}

-- Ticks at which an attempt to connect gave an identifier or an error, whatever the connection took.
pub data AreRetries : List Event → Type 0 where
  no_retry : AreRetries []
  failed_attempt :
      {es : List Event} (accepts : List SocketMessage → Bool) (e : Error)
      → AreRetries es
      → AreRetries (ticked accepts (err e) ∷ es)
  connection :
      {es : List Event} (accepts : List SocketMessage → Bool) (uid : Bytes)
      → AreRetries es
      → AreRetries (ticked accepts (ok uid) ∷ es)

-- The loop waits for a tick, or reads again.
abbrev Waits : Connect → Loop → Type 0
Waits f l =
    ((l.mode ≡ reconnecting) × IsOpen (some f) l.client) ⊎ ((l.mode ≡ reading) × Tracks l.client)

after_attempt-Waits :
    {f : Connect} {sure : Bool} {o : Outcome} (l : Loop)
    → IsReturn (some f) sure o
    → ((d : Client) (b : Bool) → o ≡ (d, ok b) → Tracks d)
    → l.mode ≡ reconnecting
    → Waits f (after_attempt o l)
after_attempt-Waits l (returns d b e) h m = inr (refl, h d b refl)
after_attempt-Waits l (fails d x e s) h m = inl (m, e)

after_attempt-reads :
    {f : Connect} {o : Outcome} (l : Loop)
    → IsReturn (some f) true o
    → ((d : Client) (b : Bool) → o ≡ (d, ok b) → Tracks d)
    → ((after_attempt o l).mode ≡ reading)
      × Tracks (after_attempt o l).client
      × ((after_attempt o l).received ≡ l.received)
after_attempt-reads l (returns d b e) h = (refl, h d b refl, refl)
after_attempt-reads l (fails d x e s) h = cc

received-after_attempt : (o : Outcome) (l : Loop) → (after_attempt o l).received ≡ l.received
received-after_attempt (d, ok b) l = refl
received-after_attempt (d, err e) l = refl
received-after_attempt (d, panic) l = refl

step_reconnecting :
    (accepts : List SocketMessage → Bool) (attempt : Connect) {f : Connect} (l : Loop)
    → l.mode ≡ reconnecting
    → l.client.connect_fn ≡ some f
    → step l.mode (ticked accepts attempt) l
      ≡ after_attempt (connected_by accepts l.client (some attempt)) l
unfolding step
step_reconnecting accepts attempt l m e =
    ap (λ (mode : Mode). step mode (ticked accepts attempt) l) m
    ∙ ap
        (λ (o : Option Connect).
          after_attempt (connected_by accepts l.client (attempt_of o attempt)) l)
        e

step_reading :
    (accepts : List SocketMessage → Bool) (attempt : Connect) (l : Loop)
    → l.mode ≡ reading
    → step l.mode (ticked accepts attempt) l ≡ l
unfolding step
step_reading accepts attempt l m = ap (λ (mode : Mode). step mode (ticked accepts attempt) l) m

failed_step :
    (accepts : List SocketMessage → Bool) (x : Error) (l : Loop)
    → after_attempt (connected_by accepts l.client (some (err x))) l ≡ l
unfolding connected_by
failed_step accepts x l = refl

-- One retry.
retry-Waits :
    (accepts : List SocketMessage → Bool) (attempt : Connect) {f : Connect} (l : Loop)
    → attempt ≢ panic
    → Waits f l
    → Waits f (step l.mode (ticked accepts attempt) l)
      × ((step l.mode (ticked accepts attempt) l).received ≡ l.received)
retry-Waits accepts attempt l h (inr (m, t)) =
    rw (step_reading accepts attempt l m) (inr (m, t), refl)
retry-Waits accepts (ok uid) l h (inl (m, e)) =
    let o = connected_by accepts l.client (some (ok uid)) in
    rw (step_reconnecting accepts (ok uid) l m e.0) (
      after_attempt-Waits l (connected_by-IsReturn accepts false (λ s. cc) l.client uid e)
          (λ d b made. connected_by-Tracks accepts l.client (some (ok uid)) made) m,
      received-after_attempt o l,
    )
retry-Waits accepts (err x) l h (inl (m, e)) =
    rw (step_reconnecting accepts (err x) l m e.0 ∙ failed_step accepts x l) (inl (m, e), refl)
retry-Waits accepts panic l h (inl (m, e)) = absurd (h refl)

run-Waits :
    {f : Connect} {retries : List Event} (more : List Event) (l : Loop)
    → AreRetries retries
    → Waits f l
    → (l' : Loop) × (run (retries ++ more) l ≡ run more l')
      × Waits f l'
      × (l'.received ≡ l.received)
unfolding run
run-Waits more l no_retry w = (l, refl, w, refl)
run-Waits more l (failed_attempt accepts e others) w =
    let (next, same) = retry-Waits accepts (err e) l (λ p. cc) w in
    let (l', ran, last, received) =
      run-Waits more (step l.mode (ticked accepts (err e)) l) others next in
    (l', ran, last, received ∙ same)
run-Waits more l (connection accepts uid others) w =
    let (next, same) = retry-Waits accepts (ok uid) l (λ p. cc) w in
    let (l', ran, last, received) =
      run-Waits more (step l.mode (ticked accepts (ok uid)) l) others next in
    (l', ran, last, received ∙ same)

run_one : (e : Event) (l : Loop) → run (e ∷ []) l ≡ step l.mode e l
unfolding run
run_one e l = refl

last_attempt :
    {f : Connect} (uid : Bytes) (l : Loop)
    → Waits f l
    → let l' = step l.mode (ticked (λ sent. true) (ok uid)) l in
      (l'.mode ≡ reading) × Tracks l'.client × (l'.received ≡ l.received)
last_attempt uid l (inr (m, t)) = rw (step_reading (λ sent. true) (ok uid) l m) (m, t, refl)
last_attempt uid l (inl (m, e)) =
    let accepts = λ (sent : List SocketMessage). true in
    let o = connected_by accepts l.client (some (ok uid)) in
    rw (step_reconnecting accepts (ok uid) l m e.0) (
      after_attempt-reads l (connected_by-IsReturn accepts true (λ s sent. refl) l.client uid e)
        (λ d b made. connected_by-Tracks accepts l.client (some (ok uid)) made))

-- A loop that has lost its connection, of a client that is not closed and has a connect function, reads
-- again after any number of attempts to connect, failed or cut off, as soon as one gets an identifier
-- from a connection that takes what is written to it. The node is then told of every address and of the
-- blocks as far as they have callbacks, and the messages that were received before are kept.
pub run-reads :
    (l : Loop) (f : Connect) (retries : List Event) (uid : Bytes)
    → l.mode ≡ reconnecting
    → l.client.connect_fn ≡ some f
    → l.client.closed ≡ false
    → AreRetries retries
    → let l' = run (retries ++ (ticked (λ sent. true) (ok uid) ∷ [])) l in
      (l'.mode ≡ reading) × Tracks l'.client × (l'.received ≡ l.received)
run-reads l f retries uid m e opened attempts =
    let last = ticked (λ sent. true) (ok uid) in
    let (k, ran, w, received) = run-Waits {f = f} (last ∷ []) l attempts (inl (m, (e, opened))) in
    let (mode, tracks, same) = last_attempt {f = f} uid k w in
    let whole : run (retries ++ (last ∷ [])) l ≡ step k.mode last k = ran ∙ run_one last k in
    rw whole (mode, tracks, same ∙ received)
