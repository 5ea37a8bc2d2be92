-- ===== src/Websocket/Subscribers.antt =====
-- The stores of callbacks in sdk/websocket/subscribers. A callback is a pointer, so it stands here for
-- itself as a number; the seven stores by address are alike.
pub mod Store
pub mod Contract
use go_xpx_chain_sdk.Base.{
  Bool, Bytes, List, Option, Result, [], err, false, if◌then◌else◌, new_error, none, not, ok, some,
  true, ℕ, ◌==◌, ◌||◌, ◌∷◌,
}
use go_xpx_chain_sdk.Base.Text.{same}

-- A set of callbacks: the keys of a `map[*Handler]struct{}`.
abbrev pub Handlers : Type 0
Handlers = List ℕ

unfoldable pub has_handler : ℕ → Handlers → Bool
has_handler f [] = false
has_handler f (h ∷ hs) = f == h || has_handler f hs

-- `handlers[f] = struct{}{}` and `delete(handlers, f)`
unfoldable pub set_handler : ℕ → Handlers → Handlers
unfolding has_handler
set_handler f hs = if has_handler f hs then hs else f ∷ hs

unfoldable pub delete_handler : ℕ → Handlers → Handlers
delete_handler f [] = []
delete_handler f (h ∷ hs) = let rest = delete_handler f hs in if f == h then rest else h ∷ rest

unfoldable pub set_all : List ℕ → Handlers → Handlers
unfolding set_handler
set_all [] hs = hs
set_all (f ∷ fs) hs = set_all fs (set_handler f hs)

unfoldable pub delete_all : List ℕ → Handlers → Handlers
unfolding delete_handler
delete_all [] hs = hs
delete_all (f ∷ fs) hs = delete_all fs (delete_handler f hs)

abbrev pub is_empty : Handlers → Bool
is_empty [] = true
is_empty (h ∷ hs) = false

-- `map[string]map[*Handler]struct{}`
abbrev pub Subscribers : Type 0
Subscribers = List (Bytes × Handlers)

unfoldable pub find : Bytes → Subscribers → Option Handlers
unfolding same
find address [] = none
find address ((a, hs) ∷ rest) =
    let found = find address rest in if same a address then some hs else found

unfoldable pub put : Bytes → Handlers → Subscribers → Subscribers
unfolding same
put address new [] = (address, new) ∷ []
put address new ((a, hs) ∷ rest) =
    let others = put address new rest in
    if same a address then (a, new) ∷ rest else (a, hs) ∷ others

-- The handlers of an address, where a missing key reads as an empty map
abbrev pub or_empty : Option Handlers → Handlers
or_empty none = []
or_empty (some hs) = hs

unfoldable pub get_handlers : Bytes → Subscribers → Handlers
unfolding find
get_handlers address s = or_empty (find address s)

unfoldable pub add_handlers : Bytes → List ℕ → Subscribers → Subscribers
unfolding find put set_all
add_handlers address [] s = s
add_handlers address (f ∷ fs) s = put address (set_all (f ∷ fs) (or_empty (find address s))) s

-- `RemoveHandlers`: the store after it, and whether no callback is left
unfoldable pub remove_handlers : Bytes → List ℕ → Subscribers → Subscribers × Result Bool
unfolding find put delete_all
remove_handlers address [] s = (s, ok false)
remove_handlers address (f ∷ fs) s =
    let left = delete_all (f ∷ fs) (or_empty (find address s)) in
    if is_empty (or_empty (find address s))
    then (s, err (new_error "handlers not found in handlers storage"))
    else (put address left s, ok (is_empty left))

unfoldable pub has_handlers : Bytes → Subscribers → Bool
unfolding find
has_handlers address s = not (is_empty (or_empty (find address s)))

unfoldable pub get_addresses : Subscribers → List Bytes
get_addresses [] = []
get_addresses ((a, hs) ∷ rest) = a ∷ get_addresses rest

-- The store of the callbacks for blocks, which has no address.
unfoldable pub block_add_handlers : List ℕ → Handlers → Handlers
unfolding set_all
block_add_handlers fs hs = set_all fs hs

unfoldable pub block_remove_handlers : List ℕ → Handlers → Handlers × Result Bool
unfolding delete_all
block_remove_handlers [] hs = (hs, err (new_error "handlers not found in handlers storage"))
block_remove_handlers (f ∷ fs) hs = let left = delete_all (f ∷ fs) hs in (left, ok (is_empty left))
