-- ===== src/Packets/Steps.antt =====
-- packet_handlers.c: what its handlers share.
use network_layer_verificati.Prelude.{ℕ, Option, pos, ◌+ℤ◌, to_int}
use network_layer_verificati.TcpPacket.{TcpPacket}
use network_layer_verificati.Heap.{TcpState}
use network_layer_verificati.World.{Run, put_sock}

abbrev pub Reply : Type 0
Reply = Option TcpPacket

abbrev pub set_state : ℕ → TcpState → Run Unit
set_state s state w = put_sock s (record (w.heap.socks s) { state = state }) w

-- the sequence number behind the peer's SYN or FIN
abbrev pub expect_after : ℕ → TcpPacket → Run Unit
expect_after s p w =
    put_sock s (record (w.heap.socks s) { seq_of_first_recv_window = to_int (p.seq_num +ℤ pos 1) })
      w
