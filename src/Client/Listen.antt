-- ===== src/Client/Listen.antt =====
-- `SocketListen` of network.c. What it has in common with `SocketConnect`: a pair of fifos, one for
-- the request and one for the answer, which is awaited for ten seconds.
pub mod Returns
use network_layer_verificati.Prelude.{
  ℕ, zero, suc, ◌+◌, Bool, true, false, ◌||◌, not, Option, none, some, List, [], ◌∷◌, if◌then◌else◌,
  ◌==◌, get_or, ℤ, pos, negsuc, pos_part, ◌-ℤ◌, eq_ℤ, ltb_ℤ,
}
use network_layer_verificati.SocketId.{
  SocketId, SocketState, bound_only_socket, get_socket_state, max_ip_length,
}
use network_layer_verificati.Os.{Answers, OpenMode, write_file, read_clock, call}
use network_layer_verificati.Fifo.{
  Name, failure, no_fd, is_bound_only, get_listen_fifo_read_end_name,
  get_listen_fifo_write_end_name,
}
use network_layer_verificati.Fifo.Io.{opened, makes}
use network_layer_verificati.Fifo.Read.{read_entire_message}
use network_layer_verificati.Socket.{longer_than, socket_timeout}
use network_layer_verificati.Client.{
  Status, success, invalid_argument, memory_error, request_denied, timed_out, Client, Run, ◌>>=◌,
  continue, pure, sys, waits, undefined, unless_null, get_id, close, unlink, unlink_both,
}

-- how the wait for an answer ends
pub data Answer : Type 0 where
  answered : ℕ → Answer
  broken late : Answer

module _ (os : Answers) where
  -- `mkfifo` of both, the second where the first has been made
  unfoldable pub make_pair : List ℕ → List ℕ → Run Bool
  unfolding makes
  make_pair write_name read_name = do
    made ← sys (makes os write_name)
    if made then sys (makes os read_name) else pure false

  -- Opens both ends, or cleans up.
  unfoldable pub open_pair : List ℕ → List ℕ → Run (Option (ℤ × ℤ))
  unfolding unlink_both close
  open_pair write_name read_name = do
    read_fd ← sys (opened os read_name OpenMode.read_only)
    if eq_ℤ read_fd no_fd then (do _ ← unlink_both os read_name write_name; pure none) else (do
      write_fd ← sys (opened os write_name OpenMode.write_only)
      if eq_ℤ write_fd no_fd
          then (do _ ← close os read_fd; _ ← unlink_both os read_name write_name; pure none)
          else pure (some (read_fd, write_fd)))

  -- The other rounds, unless ten seconds have passed.
  unfoldable pub look_again : Run Answer → ℤ → Run Answer
  look_again rest start = do
    current ← sys (call os read_clock)
    if longer_than socket_timeout (current -ℤ start) then pure late else rest

  unfoldable pub take_answer : Run Answer → ℤ → ℤ × List ℕ → Run Answer
  unfolding look_again
  take_answer rest start (read_size, answer) =
      if eq_ℤ read_size failure
      then pure broken
      else if eq_ℤ read_size (pos 1)
      then pure (answered (get_or answer 0 0))
      else look_again rest start

  -- The loop for the answer, so many rounds at most. Each reads, and then looks at the clock.
  unfoldable pub await_answer : ℕ → ℕ → ℤ → ℤ → Run Answer
  unfolding read_entire_message take_answer
  await_answer zero fuel fd start = undefined
  await_answer (suc rounds) fuel fd start = do
    read ← waits (read_entire_message os fuel fd (pos 1))
    take_answer (await_answer rounds fuel fd start) start read

  -- Whatever the answer, the fifos go.
  unfoldable pub leave_listen : ℤ → List ℕ → List ℕ → Run Unit
  unfolding close unlink_both
  leave_listen read_fd read_name write_name = do
    _ ← close os read_fd
    unlink_both os read_name write_name

-- the status for an answer
unfoldable pub status_of : Answer → Status
status_of (answered c) = if c == b'K' then success else request_denied
status_of broken = memory_error
status_of late = timed_out

module _ (os : Answers) (fuel : ℕ) where
  unfoldable pub await_listen : ℤ → List ℕ → List ℕ → Run Status
  unfolding await_answer leave_listen status_of
  await_listen read_fd read_name write_name = do
    start ← sys (call os read_clock)
    answer ← await_answer os fuel fuel read_fd start
    _ ← leave_listen os read_fd read_name write_name
    pure (status_of answer)

  unfoldable pub asked_listen : ℤ → ℤ → List ℕ → List ℕ → ℤ → Run Status
  unfolding await_listen close unlink_both
  asked_listen read_fd write_fd write_name read_name written =
      if eq_ℤ written (pos 1)
      then (do _ ← close os write_fd; await_listen read_fd read_name write_name)
      else (do
        _ ← close os write_fd
        _ ← close os read_fd
        _ ← unlink_both os read_name write_name
        pure memory_error)

  unfoldable pub request_listen : ℤ → List ℕ → List ℕ → Option (ℤ × ℤ) → Run Status
  unfolding asked_listen
  request_listen queue_limit write_name read_name none = pure memory_error
  request_listen queue_limit write_name read_name (some (read_fd, write_fd)) = do
    written ← sys (call os (write_file write_fd (pos_part queue_limit ∷ [])))
    asked_listen read_fd write_fd write_name read_name written

  unfoldable pub listen_on : ℤ → List ℕ → List ℕ → Bool → Run Status
  unfolding open_pair request_listen
  listen_on queue_limit write_name read_name false = pure memory_error
  listen_on queue_limit write_name read_name true = do
    fds ← open_pair os write_name read_name
    request_listen queue_limit write_name read_name fds

  unfoldable pub make_listen : ℤ → List ℕ → List ℕ → Run Status
  unfolding make_pair listen_on
  make_listen queue_limit write_name read_name = do
    made ← make_pair os write_name read_name
    listen_on queue_limit write_name read_name made

  unfoldable pub listen_through : ℤ → Name → Name → Run Status
  unfolding make_listen
  listen_through queue_limit (some write_name) (some read_name) =
      make_listen queue_limit write_name read_name
  listen_through queue_limit _ _ = pure memory_error

  unfoldable pub listen_fifo_names : ℤ → SocketId → Run Status
  unfolding listen_through get_listen_fifo_read_end_name get_listen_fifo_write_end_name
  listen_fifo_names queue_limit f = do
    listen_fifo_write_end_name ← sys (get_listen_fifo_write_end_name os (some f))
    listen_fifo_read_end_name ← sys (get_listen_fifo_read_end_name os (some f))
    listen_through queue_limit listen_fifo_write_end_name listen_fifo_read_end_name

  unfoldable pub socket_listen : Option ℕ → ℤ → Run Status
  unfolding listen_fifo_names get_socket_state
  socket_listen sockid queue_limit =
      if ltb_ℤ queue_limit (pos 0) || ltb_ℤ (pos 100) queue_limit
      then pure invalid_argument
      else unless_null sockid invalid_argument (λ i. do
        f ← get_id i
        if is_bound_only (get_socket_state (some f))
            then listen_fifo_names queue_limit f
            else pure invalid_argument)
