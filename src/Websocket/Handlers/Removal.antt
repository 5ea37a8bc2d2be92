-- ===== src/Websocket/Handlers/Removal.antt =====
-- A message removes the callbacks that ask for it, in whatever order they finish.
use go_xpx_chain_sdk.Base.{
  ==_iff, Bool, Bool-cases, Bytes, List, [], and_split, ap, arith, false, inl, inr, not, ok, refl,
  true, ℕ, ◌&&◌, ◌==◌, ◌||◌, ◌∙◌, ◌∷◌, ◌≡◌,
}
use go_xpx_chain_sdk.Base.Text.{same, same_refl}
use go_xpx_chain_sdk.Websocket.Handlers.{handle, run_callbacks}
use go_xpx_chain_sdk.Websocket.Subscribers.{
  Handlers, Subscribers, delete_all, delete_handler, find, get_handlers, has_handler, has_handlers,
  is_empty, or_empty, put, remove_handlers,
}
use go_xpx_chain_sdk.Websocket.Subscribers.Store.{find-put, has_handler-delete_handler}

unfoldable pub distinct : List ℕ → Bool
unfolding has_handler
distinct [] = true
distinct (f ∷ fs) = not (has_handler f fs) && distinct fs

unfoldable pub all_in : List ℕ → Handlers → Bool
unfolding has_handler
all_in [] hs = true
all_in (f ∷ fs) hs = has_handler f hs && all_in fs hs

neither : (b c : Bool) → (b || c) ≡ false → (b ≡ false) × (c ≡ false)
neither b c h = ground arith

not-true : (b : Bool) → not b ≡ true → b ≡ false
not-true b h = ground arith

step_removed :
    (e h r o : Bool)
    → (e ≡ true → r ≡ true)
    → ((not e && h) && not (r && o)) ≡ (h && not (r && (e || o)))
step_removed e h r o k = ground arith

step_kept :
    (e h r o : Bool) → (e ≡ true → r ≡ false) → (h && not (r && o)) ≡ (h && not (r && (e || o)))
step_kept e h r o k = ground arith

step_none : (h r : Bool) → h ≡ (h && not (r && false))
step_none h r = ground arith

nonempty : (f : ℕ) (hs : Handlers) → has_handler f hs ≡ true → is_empty hs ≡ false
unfolding has_handler
nonempty f [] h = cc
nonempty f (x ∷ hs) h = refl

all_in-delete_handler :
    (f : ℕ) (fs : List ℕ) (hs : Handlers)
    → has_handler f fs ≡ false
    → all_in fs hs ≡ true
    → all_in fs (delete_handler f hs) ≡ true
unfolding all_in has_handler
all_in-delete_handler f [] hs h k = refl
all_in-delete_handler f (g ∷ fs) hs h k =
    let (apart, p) = neither (f == g) (has_handler f fs) h in
    let (q, r) = and_split (has_handler g hs) (all_in fs hs) k in
    let other : (g == f) ≡ false = ground arith in
    rw (has_handler-delete_handler g f hs, other, q, all_in-delete_handler f fs hs p r) refl

-- Removing one callback that is there.
remove_one :
    (a : Bytes) (f : ℕ) (s : Subscribers)
    → has_handler f (get_handlers a s) ≡ true
    → remove_handlers a (f ∷ []) s ≡ (
      put a (delete_handler f (get_handlers a s)) s,
      ok (is_empty (delete_handler f (get_handlers a s))),
    )
unfolding remove_handlers get_handlers delete_all
remove_one a f s h = rw (nonempty f (or_empty (find a s)) h) refl

get_handlers-put : (a : Bytes) (hs : Handlers) (s : Subscribers) → get_handlers a (put a hs s) ≡ hs
unfolding get_handlers
get_handlers-put a hs s = rw (find-put a a hs s, same_refl a) refl

find-put-other :
    (a b : Bytes) (hs : Handlers) (s : Subscribers)
    → same a b ≡ false
    → find b (put a hs s) ≡ find b s
find-put-other a b hs s h = find-put a b hs s ∙ rw h refl

pub run_callbacks_lem :
    (a : Bytes) (results : ℕ → Bool) (order : List ℕ) (s : Subscribers)
    → distinct order ≡ true
    → all_in order (get_handlers a s) ≡ true
    → (left : Subscribers) × (run_callbacks a results order s ≡ ok left)
      × ((f : ℕ)
          → has_handler f (get_handlers a left)
            ≡ (has_handler f (get_handlers a s) && not (results f && has_handler f order)))
      × ((b : Bytes) → same a b ≡ false → find b left ≡ find b s)
unfolding run_callbacks distinct all_in has_handler
run_callbacks_lem a results [] s d h =
    (s, refl, (λ f. step_none (has_handler f (get_handlers a s)) (results f)), λ b o. refl)
run_callbacks_lem a results (f ∷ order) s d h =
    let (fresh, d_rest) = and_split (not (has_handler f order)) (distinct order) d in
    let (here, h_rest) =
      and_split (has_handler f (get_handlers a s)) (all_in order (get_handlers a s)) h in
    let hs = get_handlers a s in
    let once = put a (delete_handler f hs) s in
    let now : get_handlers a once ≡ delete_handler f hs =
      get_handlers-put a (delete_handler f hs) s in
    elim (Bool-cases (results f)) [
      | inl t ↦
          let (left, e, at, others) = run_callbacks_lem a results order once d_rest (
            rw now
              (all_in-delete_handler f order hs (not-true (has_handler f order) fresh) h_rest)) in
          (
            left,
            rw (t, remove_one a f s here) e,
            (λ g.
                at g
                ∙ rw (now, has_handler-delete_handler g f hs)
                    (step_removed (g == f) (has_handler g hs) (results g) (has_handler g order)
                      (λ e. ap results ((==_iff g f).0 e) ∙ t))),
            λ b o. others b o ∙ find-put-other a b (delete_handler f hs) s o,
          )
      | inr u ↦
          let (left, e, at, others) = run_callbacks_lem a results order s d_rest h_rest in
          (
            left,
            rw u e,
            (λ g.
                at g
                ∙ step_kept (g == f) (has_handler g hs) (results g) (has_handler g order)
                    (λ e. ap results ((==_iff g f).0 e) ∙ u)),
            others,
          )
    ]

-- A message that the mapper accepts, for an address with a callback, runs without a panic whatever the
-- order in which callbacks finish, if none finishes twice and each is in the store. Afterwards exactly those are gone from the address that asked for
-- it, other addresses have what they had, and the answer says whether the address has a callback left.
pub handle_lem :
    (a : Bytes) (results : ℕ → Bool) (order : List ℕ) (s : Subscribers)
    → has_handlers a s ≡ true
    → distinct order ≡ true
    → all_in order (get_handlers a s) ≡ true
    → (left : Subscribers) × (handle a (ok results) order s ≡ ok (left, has_handlers a left))
      × ((f : ℕ)
          → has_handler f (get_handlers a left)
            ≡ (has_handler f (get_handlers a s) && not (results f && has_handler f order)))
      × ((b : Bytes) → same a b ≡ false → get_handlers b left ≡ get_handlers b s)
unfolding handle has_handlers get_handlers
handle_lem a results order s h d k =
    let (left, e, at, others) = run_callbacks_lem a results order s d k in
    let some_there = not-true (is_empty (or_empty (find a s))) h in
    (left, rw (some_there, e) refl, at, λ b o. ap or_empty (others b o))
