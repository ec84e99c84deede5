-- ===== src/Manager/Loop.antt =====
-- The life of a manager in network_manager/network_manager.c: `createNetworkManager`,
-- `managerLoop`, what it does for each socket, its end and `destroyNetworkManager`.
pub mod Termination
use network_layer_verificati.Prelude.{
  ℕ, zero, suc, Bool, true, false, ◌||◌, Option, none, some, is_some, List, [], ◌∷◌, if◌then◌else◌,
  ◌==◌, length, ℤ, pos, eq_ℤ,
}
use network_layer_verificati.SocketId.{SocketState, get_socket_state, max_ip_length}
use network_layer_verificati.Hashmap.{HashMap, create_hash_map}
use network_layer_verificati.Os.{Answers, OpenMode, write_file, close_file, call, allocated}
use network_layer_verificati.Fifo.{Name, failure, no_fd, get_end_fifo_read_end_name}
use network_layer_verificati.Fifo.Io.{opened}
use network_layer_verificati.World.{
  World, no_manager_fds, Run, ◌>>=◌, continue, pure, undefined, sys, deref, get_heap, unless_null,
}
use network_layer_verificati.Socket.{destroy_socket_fifos}
use network_layer_verificati.Manager.{find_socket}
use network_layer_verificati.Manager.Sockets.{hash_destroy}
use network_layer_verificati.Manager.Remove.{unlink_socket_fifos_server_side}
use network_layer_verificati.Manager.Reading.{handle_in_packets_fifo}
use network_layer_verificati.Manager.Bind.{break_iteration, handle_bind_fifo}
use network_layer_verificati.Manager.Listen.{check_and_handle_listen_request}
use network_layer_verificati.Manager.Connect.{check_and_handle_connect_request}
use network_layer_verificati.Manager.Closing.{check_and_handle_socket_end_fifo, write_end}
use network_layer_verificati.Manager.Send.{check_and_handle_send_window}
use network_layer_verificati.Manager.Status.{check_and_handle_outgoing_status_messages}
use network_layer_verificati.Manager.Fifos.{
  init_fifo_directory, initialize_network_manager_fifos, close_manager_fifos, unlink_manager_fifos,
  should_terminate_manager,
}
use network_layer_verificati.Manager.Sweep.{for_each_socket}

abbrev get_sockets : Run (Option HashMap)
get_sockets w = some (w.sockets, w)

abbrev put_sockets : Option HashMap → Run Unit
put_sockets m w = some (tt, record w { sockets = m })

-- two functions that do nothing yet
unfoldable pub handle_out_requests_fifo : Run ℤ
handle_out_requests_fifo = pure (pos 0)

unfoldable pub check_and_handle_out_fifo : ℕ → Run ℤ
check_and_handle_out_fifo i = pure (pos 0)

-- the next stage, where the result so far is 0
abbrev pub and_then : Run ℤ → Run ℤ → Run ℤ
and_then m n = do return_value ← m; if eq_ℤ return_value (pos 0) then n else pure return_value

module _ (os : Answers) where
  unfoldable pub end_reader : Name → Run Unit
  unfolding write_end
  end_reader none = pure tt
  end_reader (some name) = write_end os name

  unfoldable pub part_with : Option ℕ → Run (Option Unit)
  unfolding unlink_socket_fifos_server_side
  part_with none = pure none
  part_with (some s) = do _ ← unlink_socket_fifos_server_side os s; pure none

  -- what is tried with a socket's client when the manager ends; the loop goes on
  unfoldable pub end_client : ℕ → Run (Option Unit)
  unfolding end_reader part_with get_end_fifo_read_end_name
  end_client i = do
    h ← get_heap
    end_fifo_read_name ← sys (get_end_fifo_read_end_name os (some (h.ids i)))
    _ ← end_reader end_fifo_read_name
    sock ← find_socket i
    part_with sock

  end_clients : Option HashMap → Run ℤ
  unfolding for_each_socket end_client
  end_clients none = pure failure
  end_clients (some m) = do _ ← for_each_socket end_client; pure (pos 0)

  unfoldable pub terminate_manager : Run ℤ
  unfolding end_clients
  terminate_manager = do sockets ← get_sockets; end_clients sockets

  clean_socket : ℕ → Run (Option Unit)
  unfolding destroy_socket_fifos
  clean_socket i = do
    sock ← find_socket i
    unless_null sock none (λ s. do _ ← destroy_socket_fifos os s; pure none)

  unfoldable pub unlink_and_clean_manager : Run Unit
  unfolding close_manager_fifos unlink_manager_fifos for_each_socket clean_socket hash_destroy
  unlink_and_clean_manager = do
    _ ← close_manager_fifos os
    _ ← unlink_manager_fifos os
    sockets ← get_sockets
    unless_null sockets tt (λ _. do
      _ ← for_each_socket clean_socket
      sockets ← get_sockets
      _ ← hash_destroy os sockets
      put_sockets none)

  -- The memory of the struct is not part of the heap of sockets.
  unfoldable pub destroy_network_manager : Run Unit
  unfolding unlink_and_clean_manager
  destroy_network_manager = unlink_and_clean_manager

  start_struct : List ℕ → Run Unit
  start_struct ip w = some (tt, record w { ip = ip; sockets = none; fds = no_manager_fds })

  -- Without memory for the address, `destroyNetworkManager` reads it through NULL.
  fill_manager : List ℕ → Run Bool
  unfolding start_struct
  fill_manager ip = do
    ip_ok ← sys (allocated os)
    if ip_ok then (do _ ← start_struct ip; pure true) else undefined

  alloc_manager : List ℕ → Run Bool
  unfolding fill_manager
  alloc_manager ip = do
    manager_ok ← sys (allocated os)
    if manager_ok then fill_manager ip else pure false

  -- Whether there is a manager, whose struct is then in the state; NULL if not.
  unfoldable pub create_network_manager : List ℕ → Run Bool
  unfolding init_fifo_directory alloc_manager
  create_network_manager ip =
      if length ip == max_ip_length
      then (do
        there ← init_fifo_directory os
        if eq_ℤ there (pos 0) then alloc_manager ip else pure false)
      else pure false

module _ (os : Answers) (fuel : ℕ) where
  -- by the state of the identity
  first_stage : SocketState → ℕ → Run ℤ
  unfolding check_and_handle_listen_request check_and_handle_connect_request
      check_and_handle_out_fifo
  first_stage SocketState.bound_only_socket i =
      and_then (check_and_handle_listen_request os fuel i)
        (check_and_handle_connect_request os fuel i)
  first_stage SocketState.connected_socket i = check_and_handle_out_fifo i
  first_stage _ i = pure (pos 0)

  unfoldable pub handle_socket_in_network : ℕ → Run ℤ
  unfolding first_stage get_socket_state check_and_handle_socket_end_fifo
      check_and_handle_send_window check_and_handle_outgoing_status_messages
  handle_socket_in_network i = do
    h ← get_heap
    and_then (first_stage (get_socket_state (some (h.ids i))) i) (
        and_then (check_and_handle_socket_end_fifo os i) (
          and_then (check_and_handle_send_window os i)
            (check_and_handle_outgoing_status_messages os i)))

  -- why a round over the sockets is left
  left_with : ℤ → Option ℤ
  left_with result =
      if eq_ℤ result break_iteration || eq_ℤ result failure then some result else none

  handle_next : ℕ → Run (Option ℤ)
  unfolding handle_socket_in_network left_with
  handle_next i = do result ← handle_socket_in_network i; pure (left_with result)

  sweep_result : Option ℤ → Option ℤ
  sweep_result none = none
  sweep_result (some result) = if eq_ℤ result failure then some failure else none

  sweep_sockets : Run (Option ℤ)
  unfolding for_each_socket handle_next sweep_result
  sweep_sockets = do left ← for_each_socket handle_next; pure (sweep_result left)

  -- what a turn does where nobody has asked for the end
  serve : Run (Option ℤ)
  unfolding handle_bind_fifo handle_in_packets_fifo sweep_sockets
  serve = do
    bound ← handle_bind_fifo os fuel
    if eq_ℤ bound (pos 0)
        then (do
          handled ← handle_in_packets_fifo os fuel
          if eq_ℤ handled (pos 0) then sweep_sockets else pure (some failure))
        else pure (some failure)

  unfoldable pub turn_if : Bool → Run (Option ℤ)
  unfolding terminate_manager serve
  turn_if true = do _ ← terminate_manager os; pure (some (pos 0))
  turn_if false = serve

  -- One turn of the `while`: what `managerLoop` returns, if it does.
  unfoldable pub manager_turn : Run (Option ℤ)
  unfolding should_terminate_manager turn_if
  manager_turn = do ends ← should_terminate_manager os fuel; turn_if ends

  unfoldable pub next_turn : Run ℤ → Option ℤ → Run ℤ
  next_turn rest none = rest
  next_turn rest (some result) = pure result

  unfoldable pub manager_turns : ℕ → Run ℤ
  unfolding manager_turn next_turn
  manager_turns zero = undefined
  manager_turns (suc turns) = do result ← manager_turn; next_turn (manager_turns turns) result

  -- so many turns at most
  unfoldable pub manager_loop : ℕ → Run ℤ
  unfolding manager_turns initialize_network_manager_fifos create_hash_map
  manager_loop turns = do
    sockets ← get_sockets
    if is_some sockets then pure failure else (do
      made ← initialize_network_manager_fifos os
      if eq_ℤ made (pos 0)
          then (do
            ok ← sys (allocated os)
            m ← deref (create_hash_map ok)
            _ ← put_sockets (some m)
            manager_turns turns)
          else pure failure)
