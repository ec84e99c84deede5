-- ===== src/Manager.antt =====
-- network_manager/network_manager.c: the packets of a manager, as `handle_incoming_ip_packet` takes
-- them and `send_tcp_packet` gives them. The other parts of the file are the child modules.
pub mod Sockets
pub mod Remove
pub mod Reading
pub mod Bind
pub mod Listen
pub mod Connect
pub mod Closing
pub mod Send
pub mod Status
pub mod UserData
pub mod Keeps
pub mod Fifos
pub mod Sweep
pub mod Loop
pub mod Frame
use network_layer_verificati.Prelude.{
  ℕ, suc, Bool, true, false, ◌&&◌, not, Option, none, some, is_some, List, if◌then◌else◌, ltb,
  length, ℤ, pos, negsuc, eq_ℤ, same_string,
}
use network_layer_verificati.SocketId.{SocketId, empty_ip, empty_port}
use network_layer_verificati.IpPacket.{
  IpPacket, calc_ip_checksum, are_full, create_ip_packet, ip_to_str,
}
use network_layer_verificati.TcpPacket.{TcpPacket, calc_checksum, str_to_tcp, tcp_to_str}
use network_layer_verificati.Heap.{set_id}
use network_layer_verificati.Hashmap.{get_socket}
use network_layer_verificati.Os.{
  Answers, Call, OpenMode, allocated, call, read_clock, release_id, write_file, close_file,
}
use network_layer_verificati.Fifo.{Name, failure, no_fd, get_in_packet_fifo_name}
use network_layer_verificati.Fifo.Io.{opened}
use network_layer_verificati.World.{
  World, Run, ◌>>=◌, continue, pure, sys, defined, deref, get_heap, put_heap, get_sock, put_sock,
}
use network_layer_verificati.Socket.{new_id, destroy_socket_id}
use network_layer_verificati.Packets.{handle_packet}
use network_layer_verificati.Packets.Steps.{Reply}

abbrev pub get_ip : Run (List ℕ)
get_ip w = some (w.ip, w)

-- `getSocket(manager->sockets, id)`
abbrev pub find_socket : ℕ → Run (Option ℕ)
find_socket i w = some (get_socket w.heap w.sockets (some i), w)

-- the -2 of `send_TCP_packet`
abbrev pub no_destination : ℤ
no_destination = negsuc 1

module _ (os : Answers) where
  unfoldable pub write_packet : List ℕ → ℤ → Run ℤ
  write_packet text fd = if eq_ℤ fd no_fd then pure no_destination else (do
    written ← sys (call os (write_file fd text))
    _ ← sys (call os (close_file fd))
    pure (if eq_ℤ written failure then failure else pos 0))

  unfoldable pub send_to : List ℕ → Name → Run ℤ
  unfolding write_packet
  send_to text none = pure failure
  send_to text (some name) = do fd ← sys (opened os name OpenMode.read_write); write_packet text fd

  unfoldable pub send_ip_text : List ℕ → Option (List ℕ) → Run ℤ
  unfolding send_to get_in_packet_fifo_name
  send_ip_text dst_ip none = pure failure
  send_ip_text dst_ip (some text) = do
    name ← sys (get_in_packet_fifo_name os dst_ip)
    send_to text name

  unfoldable pub send_ip_packet : List ℕ → Option IpPacket → Run ℤ
  unfolding send_ip_text
  send_ip_packet dst_ip none = pure failure
  send_ip_packet dst_ip (some p) = do ok ← sys (allocated os); send_ip_text dst_ip (ip_to_str ok p)

  unfoldable pub send_tcp_text : List ℕ → Option (List ℕ) → Run ℤ
  unfolding send_ip_packet
  send_tcp_text dst_ip none = pure failure
  send_tcp_text dst_ip (some text) = do
    ip ← get_ip
    ok ← if are_full ip dst_ip then sys (allocated os) else pure true
    packet ← defined (create_ip_packet ok ip dst_ip text)
    send_ip_packet dst_ip packet

  unfoldable pub send_tcp_packet : Reply → List ℕ → Run ℤ
  unfolding send_tcp_text
  send_tcp_packet none dst_ip = pure failure
  send_tcp_packet (some p) dst_ip = do
    _ ← deref p.payload
    ok ← sys (allocated os)
    text ← defined (tcp_to_str ok p)
    send_tcp_text dst_ip text

  -- `str_to_tcp`, which asks for memory for the data only where there are some
  parse_tcp : List ℕ → Run (Option TcpPacket)
  parse_tcp s = do
    ok ← sys (allocated os)
    data_ok ←
        if ok && is_some (str_to_tcp true true s) && ltb 41 (length s)
        then sys (allocated os)
        else pure true
    pure (str_to_tcp ok data_ok s)

  -- The reply of the socket that the packet was for is sent to the address in the identity `i`.
  send_reply : ℕ → ℕ → Reply → Run Unit
  unfolding send_tcp_packet
  send_reply i s none = pure tt
  send_reply i s (some reply) = do
    h ← get_heap
    sent ← send_tcp_packet (some reply) ((h.ids i).dst_ip)
    if eq_ℤ sent (pos 0)
        then (do
          now ← sys (call os read_clock)
          sock ← get_sock s
          put_sock s (record sock { last_send_clock = now }))
        else pure tt

  -- The address that `handle_packet` gets is `id->src_ip`.
  deliver : ℕ → TcpPacket → Option ℕ → Run Unit
  unfolding handle_packet send_reply
  deliver i p none = pure tt
  deliver i p (some s) = do
    h ← get_heap
    reply ← handle_packet os s p ((h.ids i).src_ip)
    send_reply i s reply

  -- to the socket of the connection, or else to one that is bound to the port
  route : ℕ → TcpPacket → Option ℕ → Run Unit
  unfolding deliver
  route i p (some s) = deliver i p (some s)
  route i p none = do
    h ← get_heap
    _ ← put_heap (set_id h i (record (h.ids i) { dst_ip = empty_ip; dst_port = empty_port }))
    s ← find_socket i
    deliver i p s

  -- The memory for the identity is not checked for.
  handle_tcp : IpPacket → Option TcpPacket → Run ℤ
  unfolding route new_id destroy_socket_id
  handle_tcp packet none = pure failure
  handle_tcp packet (some p) =
      if eq_ℤ (calc_checksum p) p.checksum
      then (do
        id ← new_id os (record {
          src_port = p.dst_port;
          dst_port = p.src_port;
          src_ip = packet.dst_ip;
          dst_ip = packet.src_ip;
        })
        i ← deref id
        s ← find_socket i
        _ ← route i p s
        _ ← destroy_socket_id os (some i)
        pure (pos 0))
      else pure (pos 0)

  unfoldable pub handle_incoming_ip_packet : Option IpPacket → Run ℤ
  unfolding parse_tcp handle_tcp calc_ip_checksum same_string
  handle_incoming_ip_packet none = pure failure
  handle_incoming_ip_packet (some packet) = do
    ip ← get_ip
    if eq_ℤ (calc_ip_checksum packet) packet.header_checksum && same_string packet.dst_ip ip
        then (do text ← deref packet.payload; p ← parse_tcp text; handle_tcp packet p)
        else pure (pos 0)
