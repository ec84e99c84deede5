-- ===== src/Fifo.antt =====
-- fifo_utils.c: the names of the fifos of a manager and of a socket, and the operations on them.
-- A name is `none` where the code returns NULL.
pub mod Io
pub mod Read
pub mod Requests
pub mod Names
use network_layer_verificati.Prelude.{
  ℕ, Bool, true, false, Option, none, some, List, [], ◌∷◌, ◌++◌, if◌then◌else◌, ℤ, pos, negsuc,
  eq_ℤ, codes,
}
use network_layer_verificati.SocketId.{SocketId, SocketState, bound_only_socket, get_socket_state}
use network_layer_verificati.Stdio.{print_int}
use network_layer_verificati.Heap.{Sock}
use network_layer_verificati.Os.{
  Call, open_file, make_fifo, remove_file, close_file, write_file, read_write, write_only_nonblock,
  Sys, Answers, ◌>>=◌, pure, call, succeeded, allocated,
}

abbrev pub Name : Type 0
Name = Option (List ℕ)

-- "(%s_%d_%s_%d)"
unfoldable pub socket_repr : SocketId → List ℕ
socket_repr i =
    codes "("
    ++ (i.src_ip
        ++ (codes "_"
            ++ (print_int i.src_port
                ++ (codes "_"
                    ++ (i.dst_ip ++ (codes "_" ++ (print_int i.dst_port ++ codes ")")))))))

-- `"%s_%d"` of `notify_accept_client`: the peer of a connection
unfoldable pub peer_repr : SocketId → List ℕ
peer_repr i = i.dst_ip ++ (codes "_" ++ print_int i.dst_port)

-- the test of `get_bound_socket_repr_string`
abbrev pub is_bound_only : SocketState → Bool
is_bound_only SocketState.bound_only_socket = true
is_bound_only _ = false

-- the descriptor -1
abbrev pub no_fd : ℤ
no_fd = negsuc 0

abbrev pub failure : ℤ
failure = negsuc 0

module _ (os : Answers) where
  unfoldable pub add_as_prefix : List ℕ → List ℕ → Sys Name
  add_as_prefix prefix s = do ok ← allocated os; pure (if ok then some (prefix ++ s) else none)

  unfoldable pub add_folder_prefix : List ℕ → Sys Name
  add_folder_prefix s = do
    ok ← allocated os
    pure (if ok then some (codes "/tmp/vnetwork_fifos/" ++ s) else none)

  in_folder : Name → Sys Name
  unfolding add_folder_prefix
  in_folder none = pure none
  in_folder (some s) = add_folder_prefix s

  unfoldable pub construct_full_fifo_name : List ℕ → List ℕ → Sys Name
  unfolding in_folder add_as_prefix
  construct_full_fifo_name prefix s = do result ← add_as_prefix prefix s; in_folder result

  unfoldable pub get_terminate_fifo_name : List ℕ → Sys Name
  unfolding construct_full_fifo_name
  get_terminate_fifo_name ip = construct_full_fifo_name (codes "vnetwork_terminate_") ip

  unfoldable pub get_in_packet_fifo_name : List ℕ → Sys Name
  unfolding construct_full_fifo_name
  get_in_packet_fifo_name ip = construct_full_fifo_name (codes "vnetwork_in_packets_") ip

  unfoldable pub get_bind_requests_fifo_name : List ℕ → Sys Name
  unfolding construct_full_fifo_name
  get_bind_requests_fifo_name ip = construct_full_fifo_name (codes "vnetwork_bind_requests_") ip

  unfoldable pub get_connect_requests_fifo_name : List ℕ → Sys Name
  unfolding construct_full_fifo_name
  get_connect_requests_fifo_name ip =
      construct_full_fifo_name (codes "vnetwork_connect_requests_") ip

  unfoldable pub construct_full_socket_fifo_name : List ℕ → Option SocketId → Sys Name
  unfolding construct_full_fifo_name socket_repr
  construct_full_socket_fifo_name prefix none = pure none
  construct_full_socket_fifo_name prefix (some i) = construct_full_fifo_name prefix (socket_repr i)

  unfoldable pub get_listen_fifo_read_end_name : Option SocketId → Sys Name
  unfolding construct_full_socket_fifo_name
  get_listen_fifo_read_end_name i =
      construct_full_socket_fifo_name (codes "vnetwork_listen_socket_read_") i

  unfoldable pub get_listen_fifo_write_end_name : Option SocketId → Sys Name
  unfolding construct_full_socket_fifo_name
  get_listen_fifo_write_end_name i =
      construct_full_socket_fifo_name (codes "vnetwork_listen_socket_write_") i

  unfoldable pub get_accept_fifo_write_end_name : Option SocketId → Sys Name
  unfolding construct_full_socket_fifo_name
  get_accept_fifo_write_end_name i =
      construct_full_socket_fifo_name (codes "vnetwork_accept_socket_read_") i

  unfoldable pub get_connect_fifo_read_end_name : Option SocketId → Sys Name
  unfolding construct_full_socket_fifo_name
  get_connect_fifo_read_end_name i =
      construct_full_socket_fifo_name (codes "vnetwork_connect_soket_read_") i

  unfoldable pub get_connect_fifo_write_end_name : Option SocketId → Sys Name
  unfolding construct_full_socket_fifo_name
  get_connect_fifo_write_end_name i =
      construct_full_socket_fifo_name (codes "vnetwork_connect_socket_write_") i

  unfoldable pub get_socket_recv_fifo_name : Option SocketId → Sys Name
  unfolding construct_full_socket_fifo_name
  get_socket_recv_fifo_name i =
      construct_full_socket_fifo_name (codes "vnetwork_in_data_socket_read_") i

  unfoldable pub get_end_fifo_read_end_name : Option SocketId → Sys Name
  unfolding construct_full_socket_fifo_name
  get_end_fifo_read_end_name i =
      construct_full_socket_fifo_name (codes "vnetwork_end_socket_read_") i

  unfoldable pub get_end_fifo_write_end_name : Option SocketId → Sys Name
  unfolding construct_full_socket_fifo_name
  get_end_fifo_write_end_name i =
      construct_full_socket_fifo_name (codes "vnetwork_end_socket_write_") i

  unfoldable pub get_socket_send_fifo_name : Option SocketId → Sys Name
  unfolding construct_full_socket_fifo_name
  get_socket_send_fifo_name i = construct_full_socket_fifo_name (codes "vnetwork_out_data_") i

  bound_repr : SocketId → Sys Name
  bound_repr i = do
    ok ← allocated os
    pure (
        if ok
        then some (i.src_ip ++ (codes "_" ++ (print_int i.src_port ++ codes "_BOUND")))
        else none)

  unfoldable pub get_bound_socket_repr_string : Option SocketId → Sys Name
  unfolding bound_repr
  get_bound_socket_repr_string none = pure none
  get_bound_socket_repr_string (some i) =
      if is_bound_only (get_socket_state (some i)) then bound_repr i else pure none

  -- "%d_%d"
  client_repr : ℤ → ℤ → List ℕ
  client_repr pid socket_counter = print_int pid ++ (codes "_" ++ print_int socket_counter)

  unfoldable pub get_client_fifo_name : ℤ → ℤ → Sys Name
  unfolding client_repr construct_full_fifo_name
  get_client_fifo_name pid socket_counter = do
    ok ← allocated os
    if ok
        then construct_full_fifo_name (codes "vnetwork_nonbound_client_")
            (client_repr pid socket_counter)
        else pure none
