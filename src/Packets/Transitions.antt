-- ===== src/Packets/Transitions.antt =====
-- `handle_packet` of packet_handlers.c: which moves of the state machine there are, and what is ignored.
use network_layer_verificati.Prelude.{ℕ, ◌≡◌, refl, false, some, List, eq_ℤ, Bool-cases, inl, inr}
use network_layer_verificati.TcpPacket.{TcpPacket, has_flag, rst_flag}
use network_layer_verificati.Heap.{update_self}
use network_layer_verificati.Os.{Answers}
use network_layer_verificati.World.{World, Ends}
use network_layer_verificati.World.Outcome.{ends}
use network_layer_verificati.Packets.{handle_packet, is_listen}
use network_layer_verificati.Packets.Moves.{Moves, reset, stays, in_state-Moves}
use network_layer_verificati.Packets.{handle_packet}

-- A socket that is not listening and has an identity handles every packet to an end, whatever the
-- system answers, and its state moves along the transitions of `Moves`, or stays.
pub handle_packet-Moves :
    (os : Answers) (s k : ℕ) (p : TcpPacket) (src_ip : List ℕ) (w : World)
    → is_listen ((w.heap.socks s).state) ≡ false
    → (w.heap.socks s).id ≡ some k
    → Ends
        (handle_packet os s p src_ip w)
        (λ _ w'. Moves p ((w.heap.socks s).state) ((w'.heap.socks s).state))
unfolding handle_packet
handle_packet-Moves os s k p src_ip w n i = elim (Bool-cases (has_flag p.flags rst_flag)) [
  | inl r ↦ rw (r, n) (ends _ _ (simp update_self (reset r n)))
  | inr r ↦ elim (Bool-cases (eq_ℤ p.src_port (w.heap.ids k).dst_port)) [
    | inl y ↦ rw (r, n, i, y) (in_state-Moves os s p w ((w.heap.socks s).state) src_ip n refl i)
    | inr y ↦ rw (r, n, i, y) (ends _ _ stays)
  ]
]
