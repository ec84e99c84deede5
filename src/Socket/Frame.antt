-- ===== src/Socket/Frame.antt =====
-- What the operations of Socket leave alone.
use network_layer_verificati.Prelude.{ℕ, ◌≡◌, refl, Option, none, some, List, ℤ, pos, negsuc}
use network_layer_verificati.Heap.{Sock, update_self}
use network_layer_verificati.Os.{Answers}
use network_layer_verificati.World.{World, Ends}
use network_layer_verificati.World.Outcome.{ends, ends_if}
use network_layer_verificati.Socket.{
  construct_packet, copy_socket_id, new_id, advance_window, give_to_user, update_recv_window,
}
use network_layer_verificati.Window.{drop_received}

-- The heap and the map are as they were.
abbrev pub SameHeap : World → World → Type 0
SameHeap w w' = (w'.heap ≡ w.heap) × (w'.sockets ≡ w.sockets)

-- Sockets and the map are as they were; identities may have been made.
abbrev pub SameSocks : World → World → Type 0
SameSocks w w' = (w'.heap.socks ≡ w.heap.socks) × (w'.sockets ≡ w.sockets)

-- the fields of a socket that data do not change
abbrev pub SameConnection : Sock → Sock → Type 0
SameConnection a b = (b.state ≡ a.state) × (b.id ≡ a.id)

abbrev pub SameAt : ℕ → World → World → Type 0
SameAt s w w' = SameConnection (w.heap.socks s) (w'.heap.socks s)

module _ (os : Answers) where
  pub construct_packet-SameHeap :
      (s k : ℕ) (text : List ℕ) (flags : ℕ) (port : ℤ) (w : World)
      → (w.heap.socks s).id ≡ some k
      → Ends (construct_packet os s text flags port w) (λ _ w'. SameHeap w w')
  unfolding construct_packet
  construct_packet-SameHeap s k text flags port w e = search (ends_if, ends, e)

  pub copy_socket_id-SameSocks :
      (i : ℕ) (w : World) → Ends (copy_socket_id os i w) (λ _ w'. SameSocks w w')
  unfolding copy_socket_id new_id
  copy_socket_id-SameSocks i w = search (ends_if, ends)

  advance_window-SameAt :
      (s : ℕ) (n : ℤ) (w : World) → Ends (advance_window os s n w) (λ _ w'. SameAt s w w')
  unfolding advance_window drop_received
  advance_window-SameAt s (pos n) w = ends _ _ (simp update_self (refl, refl))
  advance_window-SameAt s (negsuc n) w = ends _ _ (refl, refl)

  give_to_user-SameAt :
      (s : ℕ) (name : Option (List ℕ)) (w : World)
      → Ends (give_to_user os s name w) (λ _ w'. SameAt s w w')
  unfolding give_to_user
  give_to_user-SameAt s none w = ends _ _ (refl, refl)
  give_to_user-SameAt s (some name) w = advance_window-SameAt s _ _

  pub update_recv_window-SameAt :
      (s : ℕ) (w : World) → Ends (update_recv_window os s w) (λ _ w'. SameAt s w w')
  unfolding update_recv_window
  update_recv_window-SameAt s w = give_to_user-SameAt s _ _
