-- ===== src/Tests/Connection.antt =====
-- Runs of a connection, under an operating system that grants every request.
use network_layer_verificati.Prelude.{
  ℕ, ◌+◌, ◌%◌, ◌<◌, ◌≤◌, ◌≡◌, ◌∙◌, sym, refl, Bool, true, false, none, some, List, [], ◌∷◌, arith,
  length, drop, take, get_or, pos, negsuc, pos_part, IsInt, ◌+ℤ◌, to_int, replicate,
  length-replicate, get_or-replicate,
}
use network_layer_verificati.Tests.Table.{peers, sock_in, heap_in}
use network_layer_verificati.ByteQueue.{Queue}
use network_layer_verificati.ByteQueue.Contents.{contents, span, IsRing}
use network_layer_verificati.Heap.{Sock, TcpState}
use network_layer_verificati.TcpPacket.{TcpPacket}
use network_layer_verificati.Os.{Answers, Call}
use network_layer_verificati.World.{World, no_manager_fds, Ends}
use network_layer_verificati.Window.{max_window_size, receive_bytes, valid_recvs}
use network_layer_verificati.Window.Stream.{
  Stream, CarriesFrom, IsReceiver, valid_recvs_lem, receive_bytes-IsReceiver,
}
use network_layer_verificati.Socket.Receive.{WritesWithin}
use network_layer_verificati.Packets.{take_acked, receive_new_data, handle_packet}
use network_layer_verificati.IpPacket.{IpPacket}
use network_layer_verificati.Packets.Moves.{Moves}
use network_layer_verificati.Packets.Acked.{Sends, acked_count, take_acked-Sends}
use network_layer_verificati.Packets.Receive.{receive_new_data-IsReceiver}
use network_layer_verificati.Packets.Transitions.{handle_packet-Moves}

abbrev pub granting : Answers
granting t (Call.write_file fd s) = pos (length s)
granting t (Call.make_fifo name) = pos 0
granting t _ = pos 1

granting_writes : WritesWithin granting
granting_writes t fd s n e = ground arith

abbrev pub world_in : TcpState → World
world_in q = record {
  heap = heap_in q;
  sockets = none;
  ip = peers.src_ip;
  fds = no_manager_fds;
  trace = [];
}

-- FIN and ACK, the latter of more than the socket has sent
abbrev fin_ack : TcpPacket
fin_ack = record {
  src_port = pos 80;
  dst_port = pos 5000;
  seq_num = pos 0;
  ack_num = pos 11;
  flags = 3;
  checksum = pos 5094;
  payload = none;
}

handle_packet-Moves_example :
    Ends
      (handle_packet granting 0 fin_ack peers.dst_ip (world_in TcpState.fin_wait_1))
      (λ _ w'. Moves fin_ack TcpState.fin_wait_1 ((w'.heap.socks 0).state))
handle_packet-Moves_example =
    handle_packet-Moves granting 0 0 fin_ack peers.dst_ip (world_in TcpState.fin_wait_1) refl refl

abbrev letters : Stream
letters z = b'a' + pos_part z % 26

receiver : IsReceiver letters (sock_in TcpState.establised)
receiver = record {
  max_eq = refl;
  window_length = length-replicate {A = ℕ} max_window_size 0;
  valid_length = length-replicate {A = Bool} max_window_size false;
  first_int = (omega arith, omega arith);
  agrees =
      λ p below valid. absurd (false_true (sym (get_or-replicate max_window_size p false) ∙ valid));
}
  where
    false_true : false ≡ true → ⊥
    false_true e = ground (arith, e)

abbrev ab : List ℕ
ab = b'a' ∷ b'b' ∷ []

ab_carried : CarriesFrom letters (pos 0) 0 ab
unfolding to_int ◌+ℤ◌
ab_carried = (refl, (refl, tt))

receive_new_data-IsReceiver_example :
    Ends
      (receive_new_data granting 0 (pos 0) ab (world_in TcpState.establised))
      (λ _ w'. IsReceiver letters (w'.heap.socks 0))
receive_new_data-IsReceiver_example =
    receive_new_data-IsReceiver granting letters 0 (pos 0) ab (world_in TcpState.establised)
      granting_writes receiver ab_carried

-- the socket once it has received "ab"
abbrev received : Sock
received = receive_bytes (sock_in TcpState.establised) (pos 0) 0 ab

valid_recvs_lem_example :
    (length (take (valid_recvs received) received.recv_window) ≡ valid_recvs received)
    × (valid_recvs received ≤ max_window_size)
    × ((p : ℕ)
        → p < valid_recvs received
        → get_or (take (valid_recvs received) received.recv_window) p 0
          ≡ letters (to_int (received.seq_of_first_recv_window +ℤ pos p)))
    × (valid_recvs received < max_window_size
        → get_or received.recv_window_isvalid (valid_recvs received) false ≡ false)
valid_recvs_lem_example = valid_recvs_lem letters received (
    receive_bytes-IsReceiver letters (sock_in TcpState.establised) (pos 0) 0 ab receiver ab_carried)

-- a send window with three bytes, of which `Sends` says so
abbrev pub three_bytes : Queue
three_bytes = record {
  head = 0;
  tail = 2;
  size = 3;
  array = 97 ∷ 98 ∷ 99 ∷ replicate 8189 0;
  iterator = 0;
  index_choosen = negsuc 0;
}

abbrev pub sender : Sock
sender = record (sock_in TcpState.establised) { send_window = some three_bytes }

abbrev pub abc : List ℕ
abc = 97 ∷ 98 ∷ 99 ∷ []

pub three-IsRing : IsRing three_bytes
three-IsRing = record {
  head_below = omega arith;
  size_fits = omega arith;
  array_full = omega (arith, length-replicate {A = ℕ} 8189 0);
  tail_before = refl;
}

sender-Sends : Sends sender (pos 10) abc
unfolding contents span
sender-Sends = record {
  queue = three_bytes;
  window_eq = refl;
  ring = three-IsRing;
  bytes_eq = refl;
  first_eq = refl;
}

after_abc : IsInt (pos 10 +ℤ pos 3)
unfolding ◌+ℤ◌
after_abc = (omega arith, omega arith)

take_acked-Sends_example :
    Sends
      (take_acked 3 (pos 12) sender)
      (pos 10 +ℤ pos (acked_count 3 (pos 10) (pos 12)))
      (drop (acked_count 3 (pos 10) (pos 12)) abc)
take_acked-Sends_example =
    take_acked-Sends sender (pos 10) (pos 12) abc sender-Sends (omega arith, omega arith) after_abc

-- an IP packet that is for another address than the manager's
abbrev stray : IpPacket
stray = record {
  total_length = pos 50;
  src_ip = peers.dst_ip;
  dst_ip = peers.dst_ip;
  header_checksum = pos 5;
  payload = none;
}
