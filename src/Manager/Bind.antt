-- ===== src/Manager/Bind.antt =====
-- `handle_bind_request` and `handle_bind_fifo` of network_manager/network_manager.c.
pub mod Decision
use network_layer_verificati.Prelude.{
  ℕ, some, List, if◌then◌else◌, leb, length, ◌==◌, until_nul, ℤ, pos, eq_ℤ, ltb_ℤ,
}
use network_layer_verificati.SocketId.{empty_socket_id}
use network_layer_verificati.Fifo.Requests.{scan_bind_request}
use network_layer_verificati.Os.{Answers}
use network_layer_verificati.Fifo.{failure, get_client_fifo_name}
use network_layer_verificati.Fifo.Io.{write_char_to_fifo_name}
use network_layer_verificati.Fifo.Read.{read_message_until_char}
use network_layer_verificati.World.{Run, ◌>>=◌, pure, sys, waits, undefined, unless_null}
use network_layer_verificati.Socket.{new_id, destroy_socket_id}
use network_layer_verificati.Manager.{get_ip}
use network_layer_verificati.Manager.Sockets.{can_bind_new_socket, bind_new_socket}
use network_layer_verificati.Manager.Remove.{remove_and_destroy_socket}

abbrev pub break_iteration : ℤ
break_iteration = pos 2

abbrev pub max_bind_request_size : ℕ
max_bind_request_size = 100

-- 'K' and 'N'
abbrev pub request_granted_fifo : ℕ
request_granted_fifo = b'K'

abbrev pub request_denied_fifo : ℕ
request_denied_fifo = b'N'

module _ (os : Answers) where
  -- what to return and what to reply
  granted_or_not : ℕ → ℤ → Run (ℤ × ℕ)
  unfolding destroy_socket_id
  granted_or_not i bind_result =
      if eq_ℤ bind_result (pos 0)
      then pure (pos 0, request_granted_fifo)
      else (do _ ← destroy_socket_id os (some i); pure (failure, request_denied_fifo))

  unfoldable pub decide_bind : ℕ → Run (ℤ × ℕ)
  unfolding can_bind_new_socket bind_new_socket granted_or_not
  decide_bind i = do
    free ← can_bind_new_socket i
    if free
        then (do bind_result ← bind_new_socket os i; granted_or_not i bind_result)
        else pure (pos 0, request_denied_fifo)

  -- A grant that cannot be told is taken back.
  unfoldable pub answer_bind : ℕ → ℤ → ℤ → ℤ × ℕ → Run ℤ
  unfolding get_client_fifo_name write_char_to_fifo_name remove_and_destroy_socket
  answer_bind i pid socket_counter (result, reply) = do
    client_fifo_name ← sys (get_client_fifo_name os pid socket_counter)
    written ← sys (write_char_to_fifo_name os client_fifo_name reply)
    if eq_ℤ written (pos 0)
        then pure result
        else if reply == request_granted_fifo
        then (do _ ← remove_and_destroy_socket os i; pure break_iteration)
        else pure failure

  bind_port : ℤ → ℤ → ℤ → Run ℤ
  unfolding new_id decide_bind answer_bind
  bind_port port pid socket_counter = do
    ip ← get_ip
    id ← new_id os (record empty_socket_id { src_ip = ip; src_port = port })
    unless_null id failure
        (λ i. do decided ← decide_bind i; answer_bind i pid socket_counter decided)

  unfoldable pub handle_bind_request : List ℕ → Run ℤ
  unfolding scan_bind_request bind_port
  handle_bind_request bind_request =
      unless_null (scan_bind_request bind_request) failure
        (λ (port, pid, socket_counter). bind_port port pid socket_counter)

  -- A request that does not fit its array has no result.
  unfoldable pub handle_bind_fifo : ℕ → Run ℤ
  unfolding read_message_until_char handle_bind_request
  handle_bind_fifo fuel w = from_fifo w.fds.bind_request_fifo_fd w
    where
      from_fifo : ℤ → Run ℤ
      from_fifo fd = do
        (read_len, bytes) ← waits (read_message_until_char os fuel fd 0)
        if leb (length bytes) max_bind_request_size
            then (if ltb_ℤ read_len (pos 0)
                then pure failure
                else if eq_ℤ read_len (pos 0)
                then pure (pos 0)
                else handle_bind_request (until_nul bytes))
            else undefined
