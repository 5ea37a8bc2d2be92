-- ===== src/Websocket/Subscribers/Contract.antt =====
-- What a store of callbacks promises, as a step relation on sets of callbacks by address, and that the
-- stores of sdk/websocket/subscribers keep it. Addresses whose callbacks are gone are not told apart
-- from others.
pub mod Refinement
use go_xpx_chain_sdk.Base.{
  Bool, Bytes, List, Result, [], err, false, new_error, not, ok, true, ℕ, ◌&&◌, ◌||◌, ◌∷◌, ◌≡◌,
}
use go_xpx_chain_sdk.Base.Text.{same}
use go_xpx_chain_sdk.Websocket.Subscribers.{
  Handlers, Subscribers, add_handlers, get_handlers, has_handler, has_handlers, remove_handlers,
}

pub data Request : Type 0 where
  add : Bytes → List ℕ → Request
  remove : Bytes → List ℕ → Request
  has : Bytes → Request
  get : Bytes → Request

pub data Answer : Type 0 where
  added : Answer
  removed : Result Bool → Answer
  found : Bool → Answer
  got : Handlers → Answer

-- Whether a callback is registered at an address.
abbrev pub Registry : Type 0
Registry = Bytes → ℕ → Bool

unfoldable pub registered : Bytes → List ℕ → Registry → Registry
unfolding same has_handler
registered a fs m = λ b f. m b f || (same a b && has_handler f fs)

unfoldable pub dropped : Bytes → List ℕ → Registry → Registry
unfolding same has_handler
dropped a fs m = λ b f. m b f && not (same a b && has_handler f fs)

-- What a request may be answered, and the registry after it.
pub data Step (m : Registry) : Request → Answer → Registry → Type 0 where
  adds : (a : Bytes) (fs : List ℕ) → Step m (add a fs) added (registered a fs m)
  removes_none : (a : Bytes) → Step m (remove a []) (removed (ok false)) m
  removes_absent :
      (a : Bytes) (f : ℕ) (fs : List ℕ)
      → ((g : ℕ) → m a g ≡ false)
      → Step m
          (remove a (f ∷ fs))
          (removed (err (new_error "handlers not found in handlers storage")))
          m
  removes_last :
      (a : Bytes) (f g : ℕ) (fs : List ℕ)
      → m a g ≡ true
      → ((h : ℕ) → dropped a (f ∷ fs) m a h ≡ false)
      → Step m (remove a (f ∷ fs)) (removed (ok true)) (dropped a (f ∷ fs) m)
  removes_some :
      (a : Bytes) (f g : ℕ) (fs : List ℕ)
      → dropped a (f ∷ fs) m a g ≡ true
      → Step m (remove a (f ∷ fs)) (removed (ok false)) (dropped a (f ∷ fs) m)
  has_none : (a : Bytes) → ((g : ℕ) → m a g ≡ false) → Step m (has a) (found false) m
  has_some : (a : Bytes) (g : ℕ) → m a g ≡ true → Step m (has a) (found true) m
  gets :
      (a : Bytes) (hs : Handlers) → ((g : ℕ) → has_handler g hs ≡ m a g) → Step m (get a) (got hs) m

pub data Steps : Registry → List Request → List Answer → Registry → Type 0 where
  stays : {m : Registry} → Steps m [] [] m
  then_steps :
      {q : Request} {qs : List Request} {r : Answer} {rs : List Answer} {m n o : Registry}
      → Step m q r n
      → Steps n qs rs o
      → Steps m (q ∷ qs) (r ∷ rs) o

-- The methods of a store, by request.
unfoldable pub answer : Request → Subscribers → Subscribers × Answer
unfolding add_handlers remove_handlers has_handlers get_handlers
answer (add a fs) s = (add_handlers a fs s, added)
answer (remove a fs) s = ((remove_handlers a fs s).0, removed (remove_handlers a fs s).1)
answer (has a) s = (s, found (has_handlers a s))
answer (get a) s = (s, got (get_handlers a s))

unfoldable pub answers : List Request → Subscribers → Subscribers × List Answer
unfolding answer
answers [] s = (s, [])
answers (q ∷ qs) s = let (s', r) = answer q s in let (s'', rs) = answers qs s' in (s'', r ∷ rs)

-- The registry that a store stands for.
unfoldable pub registry : Subscribers → Registry
unfolding get_handlers has_handler
registry s = λ a f. has_handler f (get_handlers a s)
