-- ===== src/Packets/Receive.antt =====
-- The data path of a connection on the heap: `receiveNewData` with `update_recv_window`.
use network_layer_verificati.Prelude.{ℕ, List, ℤ}
use network_layer_verificati.Heap.{update_self, set_sock}
use network_layer_verificati.Os.{Answers}
use network_layer_verificati.World.{World, Ends}
use network_layer_verificati.Window.{receive_bytes}
use network_layer_verificati.Window.Stream.{
  Stream, CarriesFrom, IsReceiver, receive_bytes-IsReceiver,
}
use network_layer_verificati.Socket.Receive.{WritesWithin, update_recv_window-IsReceiver}
use network_layer_verificati.Packets.{receive_new_data}

-- Data of the peer's stream, in any order and more than once, leave a receive window of that
-- stream: also when the client takes only a part of it, or cannot be reached. The system is taken
-- to write no more than it is given.
pub receive_new_data-IsReceiver :
    (os : Answers) (stream : Stream) (s : ℕ) (seq : ℤ) (text : List ℕ) (w : World)
    → WritesWithin os
    → IsReceiver stream (w.heap.socks s)
    → CarriesFrom stream seq 0 text
    → Ends (receive_new_data os s seq text w) (λ _ w'. IsReceiver stream (w'.heap.socks s))
unfolding receive_new_data
receive_new_data-IsReceiver os stream s seq text w within r c =
    update_recv_window-IsReceiver os stream s
      (record w { heap = set_sock w.heap s (receive_bytes (w.heap.socks s) seq 0 text) }) within
      (simp update_self (receive_bytes-IsReceiver stream (w.heap.socks s) seq 0 text r c))
