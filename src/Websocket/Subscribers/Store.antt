-- ===== src/Websocket/Subscribers/Store.antt =====
-- The stores as sets of callbacks by address.
use go_xpx_chain_sdk.Base.{
  Bool-cases, Bytes, [], ap, arith, false, if◌then◌else◌, inl, inr, not, refl, some, sym, ℕ, ◌&&◌,
  ◌==◌, ◌||◌, ◌∙◌, ◌∷◌, ◌≡◌,
}
use go_xpx_chain_sdk.Base.Text.{if_twice, same, same-eq, same_refl}
use go_xpx_chain_sdk.Websocket.Subscribers.{
  Handlers, Subscribers, delete_handler, find, has_handler, put, set_handler,
}

pub find-put :
    (a b : Bytes) (hs : Handlers) (s : Subscribers)
    → find b (put a hs s) ≡ (if same a b then some hs else find b s)
unfolding find put
find-put a b hs [] = refl
find-put a b hs ((c, ks) ∷ rest) = elim (Bool-cases (same c a)) [
  | inl t ↦
      let is_a : c ≡ a = same-eq c a t in
      rw (is_a, same_refl a) (if_twice (same a b) (some hs) (some ks) (find b rest))
  | inr f ↦ elim (Bool-cases (same a b)) [
    | inl t ↦
        let is_b : a ≡ b = same-eq a b t in
        let other : same c b ≡ false = ap (same c) (sym is_b) ∙ f in
        rw (f, other, find-put a b hs rest, t) refl
    | inr g ↦ rw (f, find-put a b hs rest, g) refl
  ]
]

pub has_handler-set_handler :
    (f g : ℕ) (hs : Handlers) → has_handler f (set_handler g hs) ≡ (f == g || has_handler f hs)
unfolding has_handler set_handler
has_handler-set_handler f g hs = elim (Bool-cases (has_handler g hs)) [
  | inl t ↦ ground (arith, ap (λ k. has_handler k hs), t)
  | inr u ↦ rw u refl
]

pub has_handler-delete_handler :
    (f g : ℕ) (hs : Handlers)
    → has_handler f (delete_handler g hs) ≡ (not (f == g) && has_handler f hs)
unfolding has_handler delete_handler
has_handler-delete_handler f g [] = ground arith
has_handler-delete_handler f g (h ∷ hs) = ground (arith, has_handler-delete_handler f g hs)
