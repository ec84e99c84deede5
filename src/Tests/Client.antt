-- ===== src/Tests/Client.antt =====
-- Runs of the library of a client.
use network_layer_verificati.Prelude.{◌*◌, ◌≡◌, refl, true, some, is_some, [], arith, pos, ◌-ℤ◌}
use network_layer_verificati.SocketId.{
  SocketState, get_socket_state, is_socket_connected, is_empty_ip, empty_ip,
}
use network_layer_verificati.Os.{Answers, Call}
use network_layer_verificati.Client.{Client}
use network_layer_verificati.Client.Listen.{socket_listen}
use network_layer_verificati.Client.Listen.Returns.{ClockPasses, socket_listen-Returns}
use network_layer_verificati.Fifo.Read.Polling.{clock_reads}
use network_layer_verificati.Tests.Table.{peers}

abbrev connected_client : Client
connected_client = record { socket_count = pos 1; ids = λ i. peers; next_id = 1; trace = [] }

connected : get_socket_state (some peers) ≡ SocketState.connected_socket
unfolding get_socket_state is_socket_connected is_empty_ip
connected = refl

-- a system whose fifos have nothing to read, and whose clock moves on by twenty seconds
abbrev silent : Answers
silent t Call.read_clock = pos (20000000 * clock_reads t)
silent t (Call.read_file fd n) = pos 0
silent t (Call.write_file fd s) = pos 1
silent t (Call.make_fifo name) = pos 0
silent t _ = pos 1

silent_passes : ClockPasses silent 1
unfolding ◌-ℤ◌
silent_passes t₀ t h = ground arith

abbrev bound_client : Client
bound_client = record {
  socket_count = pos 1;
  ids = λ i. record peers { dst_ip = empty_ip; dst_port = pos 0 };
  next_id = 1;
  trace = [];
}

socket_listen-Returns_example :
    is_some (socket_listen silent 2 (some 0) (pos 5) bound_client) ≡ true
socket_listen-Returns_example =
    socket_listen-Returns silent 1 1 silent_passes (omega arith) (some 0) (pos 5) bound_client
