-- ===== src/Websocket/Handlers.antt =====
-- sdk/websocket/handlers: what a message for an address does to the callbacks of that address. Each
-- callback runs in a goroutine of its own, and `order` is the order in which they finish. The message
-- is mapped first: `mapped` is what the mapping gave, as what each callback answers to the mapped
-- message, and a mapping that failed is a panic.
pub mod Removal
use go_xpx_chain_sdk.Base.{
  Bool, Bytes, List, Result, [], err, if◌then◌else◌, not, ok, panic, true, ℕ, ◌>>=◌, ◌∷◌,
}
use go_xpx_chain_sdk.Namespace.{last}
use go_xpx_chain_sdk.Websocket.Subscribers.{
  Handlers, Subscribers, block_remove_handlers, get_handlers, has_handlers, is_empty,
  remove_handlers,
}
use go_xpx_chain_sdk.Websocket.Subscribers.Contract.{removed}

-- The goroutines of one message: a callback that returns true is removed.
unfoldable pub run_callbacks : Bytes → (ℕ → Bool) → List ℕ → Subscribers → Result Subscribers
unfolding remove_handlers
run_callbacks address results [] s = ok s
run_callbacks address results (f ∷ order) s =
    let removed = remove_handlers address (f ∷ []) s in
    let rest = run_callbacks address results order removed.0 in
    let others = run_callbacks address results order s in
    if results f then after rest removed.1 else others
  where
    after : Result Subscribers → Result Bool → Result Subscribers
    after rest (ok last) = rest
    after rest (err e) = panic
    after rest panic = panic

-- `Handle`: the store after it, and whether a callback is left
unfoldable pub handle :
    Bytes → Result (ℕ → Bool) → List ℕ → Subscribers → Result (Subscribers × Bool)
unfolding run_callbacks get_handlers has_handlers
handle address (err e) order s = panic
handle address panic order s = panic
handle address (ok results) order s =
    if is_empty (get_handlers address s)
    then ok (s, true)
    else (do left ← run_callbacks address results order s; ok (left, has_handlers address left))

-- The handler of messages about blocks, whose store does not report a missing callback.
unfoldable pub handle_block : Result (ℕ → Bool) → List ℕ → Handlers → Result (Handlers × Bool)
unfolding block_remove_handlers
handle_block (err e) order hs = panic
handle_block panic order hs = panic
handle_block (ok results) order hs =
    if is_empty hs
    then ok (hs, true)
    else (let left = removals results order hs in ok (left, not (is_empty left)))
  where
    removals : (ℕ → Bool) → List ℕ → Handlers → Handlers
    removals results [] hs = hs
    removals results (f ∷ order) hs =
        let with_removal = removals results order (block_remove_handlers (f ∷ []) hs).0 in
        let without = removals results order hs in if results f then with_removal else without
