-- ===== src/Websocket/Subscribers/Contract/Refinement.antt =====
-- The stores answer as the contract allows, for any sequence of requests.
use go_xpx_chain_sdk.Base.{
  Bool-cases, Bytes, List, [], arith, err, false, fun_ext, if◌then◌else◌, inl, inr, new_error, not,
  ok, refl, subst, sym, true, ℕ, ◌&&◌, ◌||◌, ◌∙◌, ◌∷◌, ◌≡◌, ◌⊎◌,
}
use go_xpx_chain_sdk.Base.Text.{same, same-eq, same_refl}
use go_xpx_chain_sdk.Websocket.Subscribers.{
  Handlers, Subscribers, add_handlers, delete_all, delete_handler, get_handlers, has_handler,
  has_handlers, is_empty, put, remove_handlers, set_all, set_handler,
}
use go_xpx_chain_sdk.Websocket.Subscribers.Contract.{
  Registry, Request, Step, Steps, add, added, adds, answer, answers, dropped, found, get, gets, has,
  has_none, has_some, registered, registry, remove, removes_absent, removes_last, removes_none,
  removes_some, stays, then_steps,
}
use go_xpx_chain_sdk.Websocket.Subscribers.Store.{
  find-put, has_handler-delete_handler, has_handler-set_handler,
}

has_handler-set_all :
    (g : ℕ) (fs : List ℕ) (hs : Handlers)
    → has_handler g (set_all fs hs) ≡ (has_handler g hs || has_handler g fs)
unfolding set_all has_handler
has_handler-set_all g [] hs = ground arith
has_handler-set_all g (f ∷ fs) hs =
    rw (has_handler-set_all g fs (set_handler f hs), has_handler-set_handler g f hs) ground arith

has_handler-delete_all :
    (g : ℕ) (fs : List ℕ) (hs : Handlers)
    → has_handler g (delete_all fs hs) ≡ (has_handler g hs && not (has_handler g fs))
unfolding delete_all has_handler
has_handler-delete_all g [] hs = ground arith
has_handler-delete_all g (f ∷ fs) hs =
    rw (has_handler-delete_all g fs (delete_handler f hs), has_handler-delete_handler g f hs) ground
      arith

-- A set of callbacks is empty, or has one.
is_empty-cases :
    (hs : Handlers)
    → ((is_empty hs ≡ true) × ((g : ℕ) → has_handler g hs ≡ false))
      ⊎ ((is_empty hs ≡ false) × ((g : ℕ) × (has_handler g hs ≡ true)))
unfolding has_handler
is_empty-cases [] = inl (refl, λ g. refl)
is_empty-cases (h ∷ hs) = inr (refl, (h, ground arith))

-- The registry after an address was given other callbacks.
registry-put :
    (a b : Bytes) (hs : Handlers) (s : Subscribers) (g : ℕ)
    → registry (put a hs s) b g ≡ (if same a b then has_handler g hs else registry s b g)
unfolding registry get_handlers
registry-put a b hs s g = elim (Bool-cases (same a b)) [
  | inl t ↦ rw (find-put a b hs s, t) refl
  | inr f ↦ rw (find-put a b hs s, f) refl
]

put-registered :
    (a : Bytes) (fs : List ℕ) (s : Subscribers)
    → registry (put a (set_all fs (get_handlers a s)) s) ≡ registered a fs (registry s)
unfolding registered registry get_handlers
put-registered a fs s = fun_ext (λ b. fun_ext (λ g. elim (Bool-cases (same a b)) [
  | inl t ↦
      let is_b : a ≡ b = same-eq a b t in
      rw
        (
          registry-put a b (set_all fs (get_handlers a s)) s g,
          t,
          has_handler-set_all g fs (get_handlers a s),
          is_b,
        )
        refl
  | inr f ↦ rw (registry-put a b (set_all fs (get_handlers a s)) s g, f) ground arith
]))

put-dropped :
    (a : Bytes) (fs : List ℕ) (s : Subscribers)
    → registry (put a (delete_all fs (get_handlers a s)) s) ≡ dropped a fs (registry s)
unfolding dropped registry get_handlers
put-dropped a fs s = fun_ext (λ b. fun_ext (λ g. elim (Bool-cases (same a b)) [
  | inl t ↦
      let is_b : a ≡ b = same-eq a b t in
      rw
        (
          registry-put a b (delete_all fs (get_handlers a s)) s g,
          t,
          has_handler-delete_all g fs (get_handlers a s),
          is_b,
        )
        refl
  | inr f ↦ rw (registry-put a b (delete_all fs (get_handlers a s)) s g, f) ground arith
]))

registered_none : (a : Bytes) (m : Registry) → registered a [] m ≡ m
unfolding registered has_handler
registered_none a m = fun_ext (λ b. fun_ext (λ g. ground arith))

at_address :
    (a : Bytes) (fs : List ℕ) (s : Subscribers) (g : ℕ)
    → dropped a fs (registry s) a g ≡ has_handler g (delete_all fs (get_handlers a s))
unfolding dropped registry
at_address a fs s g = rw (has_handler-delete_all g fs (get_handlers a s), same_refl a) refl

remove_absent :
    (a : Bytes) (f : ℕ) (fs : List ℕ) (s : Subscribers)
    → is_empty (get_handlers a s) ≡ true
    → remove_handlers a (f ∷ fs) s ≡ (s, err (new_error "handlers not found in handlers storage"))
unfolding remove_handlers get_handlers
remove_absent a f fs s h = rw h refl

remove_present :
    (a : Bytes) (f : ℕ) (fs : List ℕ) (s : Subscribers)
    → is_empty (get_handlers a s) ≡ false
    → remove_handlers a (f ∷ fs) s ≡ (
      put a (delete_all (f ∷ fs) (get_handlers a s)) s,
      ok (is_empty (delete_all (f ∷ fs) (get_handlers a s))),
    )
unfolding remove_handlers get_handlers
remove_present a f fs s h = rw h refl

removal-Step :
    (a : Bytes) (f : ℕ) (fs : List ℕ) (s : Subscribers)
    → Step
        (registry s)
        (remove a (f ∷ fs))
        (answer (remove a (f ∷ fs)) s).1
        (registry (answer (remove a (f ∷ fs)) s).0)
unfolding answer registry
removal-Step a f fs s =
    let m = registry s in
    let hs = get_handlers a s in
    let left = delete_all (f ∷ fs) hs in
    let after : registry (put a left s) ≡ dropped a (f ∷ fs) m = put-dropped a (f ∷ fs) s in
    let here : (g : ℕ) → dropped a (f ∷ fs) m a g ≡ has_handler g left = at_address a (f ∷ fs) s in
    elim (is_empty-cases hs) [
      | inl (empty, none_there) ↦
          rw (remove_absent a f fs s empty) (removes_absent a f fs none_there)
      | inr (full, (g, there)) ↦ elim (is_empty-cases left) [
        | inl (empty, none_left) ↦
            rw (remove_present a f fs s full, after, empty)
              (removes_last a f g fs there (λ h. here h ∙ none_left h))
        | inr (some_left, (h, kept)) ↦
            rw (remove_present a f fs s full, after, some_left)
              (removes_some a f h fs (here h ∙ kept))
      ]
    ]

has-Step :
    (a : Bytes) (s : Subscribers)
    → Step (registry s) (has a) (found (has_handlers a s)) (registry s)
unfolding has_handlers registry
has-Step a s = elim (is_empty-cases (get_handlers a s)) [
  | inl (empty, none_there) ↦ rw empty (has_none a none_there)
  | inr (full, (g, there)) ↦ rw full (has_some a g there)
]

answer-Step :
    (q : Request) (s : Subscribers) → Step (registry s) q (answer q s).1 (registry (answer q s).0)
unfolding answer add_handlers remove_handlers registry
answer-Step (add a []) s =
    subst (Step (registry s) (add a []) added) (registered_none a (registry s)) (adds a [])
answer-Step (add a (f ∷ fs)) s =
    subst (Step (registry s) (add a (f ∷ fs)) added) (sym (put-registered a (f ∷ fs) s))
      (adds a (f ∷ fs))
answer-Step (remove a []) s = removes_none a
answer-Step (remove a (f ∷ fs)) s = removal-Step a f fs s
answer-Step (has a) s = has-Step a s
answer-Step (get a) s = gets a (get_handlers a s) (λ g. refl)

-- Whatever requests a store is sent one after another, its answers and the registry it ends with are
-- ones that the contract allows.
pub answers-Steps :
    (qs : List Request) (s : Subscribers)
    → Steps (registry s) qs (answers qs s).1 (registry (answers qs s).0)
unfolding answers
answers-Steps [] s = stays
answers-Steps (q ∷ qs) s = then_steps (answer-Step q s) (answers-Steps qs (answer q s).0)
