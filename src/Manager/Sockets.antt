-- ===== src/Manager/Sockets.antt =====
-- The sockets of a manager: those bound by network_manager/network_manager.c, and the end of the map in
-- Hashmap.c.
use network_layer_verificati.Prelude.{
  ℕ, ◌≡◌, refl, Bool, true, false, not, Option, none, some, is_some, [], ◌∷◌, if◌then◌else◌, ℤ, pos,
}
use network_layer_verificati.SocketId.Equality.{IsAddressed}
use network_layer_verificati.Hashmap.{Pointers, HashMap, get_socket}
use network_layer_verificati.Hashmap.Table.{IsTable, lookup, get_socket-lookup}
use network_layer_verificati.Os.{Answers}
use network_layer_verificati.Fifo.{failure}
use network_layer_verificati.World.{World, Run, ◌>>=◌, pure}
use network_layer_verificati.Socket.{create_bound_socket, destroy_socket}
use network_layer_verificati.Packets.Listen.{enter_map}

unfoldable pub can_bind_new_socket : ℕ → Run Bool
can_bind_new_socket i w = some (not (is_some (get_socket w.heap w.sockets (some i))), w)

-- A manager can bind a socket to an identity exactly if no socket of its table has it.
pub can_bind_new_socket_lem :
    (i : ℕ) (m : HashMap) (w : World)
    → w.sockets ≡ some m
    → IsTable w.heap m
    → IsAddressed (w.heap.ids i)
    → can_bind_new_socket i w
      ≡ some (not (is_some (lookup w.heap (w.heap.ids i) m.table m.socket_id)), w)
unfolding can_bind_new_socket
can_bind_new_socket_lem i m w e t a = rw (e, get_socket-lookup w.heap m i t a) refl

module _ (os : Answers) where
  -- What is made of the new socket: it stays allocated where the map refuses it.
  unfoldable pub enter_bound : Option ℕ → Run ℤ
  unfolding enter_map
  enter_bound none = pure failure
  enter_bound (some s) = do entered ← enter_map s; pure (if entered then pos 0 else failure)

  unfoldable pub bind_new_socket : ℕ → Run ℤ
  unfolding create_bound_socket enter_bound
  bind_new_socket i = do s ← create_bound_socket os i; enter_bound s

  destroy_all : Pointers → Run Unit
  unfolding destroy_socket
  destroy_all [] = pure tt
  destroy_all (none ∷ ts) = destroy_all ts
  destroy_all (some s ∷ ts) = do _ ← destroy_socket os s; destroy_all ts

  unfoldable pub hash_destroy : Option HashMap → Run Bool
  unfolding destroy_all
  hash_destroy none = pure false
  hash_destroy (some m) = do _ ← destroy_all m.table; pure true
