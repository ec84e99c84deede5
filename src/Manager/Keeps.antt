-- ===== src/Manager/Keeps.antt =====
-- Code of network_manager/network_manager.c that ends and leaves the state of a connection alone.
use network_layer_verificati.Prelude.{
  ℕ, ◌≡◌, refl, sym, ◌∙◌, ap, subst, Bool, true, false, some, pos, if◌then◌else◌,
}
use network_layer_verificati.Heap.{Heap}
use network_layer_verificati.Os.{Sys}
use network_layer_verificati.World.{World, Run, Ends, ◌>>=◌, pure, sys}
use network_layer_verificati.World.Outcome.{ends, ends_continue, ends_mono}
use network_layer_verificati.Socket.Frame.{SameHeap}

-- The numbers that the packets of a socket have in common: its port, that of its peer in the
-- identity at `key`, and what it acknowledges.
pub record Numbers : Type 0 where
  pub key : ℕ
  pub port : ℕ
  pub peer_port : ℕ
  pub ack : ℕ

-- A socket has the identity at `k`, these numbers, and `y` as its next sequence number.
abbrev pub At : ℕ → ℕ → Numbers → ℕ → Heap → Type 0
At s k x y h =
    ((h.socks s).id ≡ some k)
    × ((h.ids k).src_port ≡ pos x.port)
    × ((h.ids x.key).dst_port ≡ pos x.peer_port)
    × ((h.socks s).seq_of_first_send_window ≡ pos y)
    × ((h.socks s).seq_of_first_recv_window ≡ pos x.ack)

-- Code that ends, with a result as said, keeps the state, the identity and the numbers of a socket,
-- and moves its sequence number from `y` to `z`, wherever the socket has these.
abbrev pub Keeps : {A : Type 0} → ℕ → ℕ → Numbers → ℕ → ℕ → (A → Type 0) → Run A → Type 0
Keeps s k x y z P m =
    (w : World)
    → At s k x y w.heap
    → Ends (m w)
        (λ a w'. P a × ((w'.heap.socks s).state ≡ (w.heap.socks s).state) × At s k x z w'.heap)

abbrev pub Any : {A : Type 0} → A → Type 0
Any a = Unit

module _ {s k : ℕ} {x : Numbers} {y z : ℕ} where
  pub bind-Keeps :
      {A B : Type 0} {P : A → Type 0} {Q : B → Type 0} {v : ℕ} (m : Run A) (f : A → Run B)
      → Keeps s k x y z P m
      → ((a : A) → P a → Keeps s k x z v Q (f a))
      → Keeps s k x y v Q (m >>= f)
  bind-Keeps m f e g w i = ends_continue (m w) f (e w i) (λ a w' (p, same, at).
      ends_mono _ (g a p w' at) (λ _ w'' (q, same', at'). (q, same' ∙ same, at')))

  pub branch-Keeps :
      {A : Type 0} {Q : A → Type 0} (b : Bool) (m n : Run A)
      → Keeps s k x y z Q m
      → Keeps s k x y z Q n
      → Keeps s k x y z Q (if b then m else n)
  branch-Keeps true m n e g = e
  branch-Keeps false m n e g = g

module _ {s k : ℕ} {x : Numbers} {y : ℕ} where
  pub pure-Keeps : {A : Type 0} {Q : A → Type 0} (a : A) → Q a → Keeps s k x y y Q (pure a)
  pure-Keeps a q w i = ends _ _ (q, refl, i)

  pub SameHeap-Keeps :
      {A : Type 0} {P : A → Type 0} (m : Run A)
      → ((w : World) → At s k x y w.heap → Ends (m w) (λ a w'. P a × SameHeap w w'))
      → Keeps s k x y y P m
  SameHeap-Keeps m e w i = ends_mono _ (e w i) (λ _ w' (p, (h, _)).
      (p, ap (λ (g : Heap). (g.socks s).state) h, subst (At s k x y) (sym h) i))

  pub sys-Keeps : {A : Type 0} (m : Sys A) → Keeps s k x y y Any (sys m)
  sys-Keeps m w i = ends _ _ (tt, refl, i)
