-- ===== src/Socket/Receive.antt =====
-- `update_recv_window` of socket_utils.c: the client is given the next bytes of the stream.
use network_layer_verificati.Prelude.{
  ℕ, ◌≤◌, ◌≡◌, refl, Option, none, some, List, length, take, ℤ, pos, negsuc, eq_ℤ, Bool-cases, inl,
  inr, arith,
}
use network_layer_verificati.Heap.{update_self}
use network_layer_verificati.Os.{Answers, Trace, write_file, OpenMode}
use network_layer_verificati.Fifo.{no_fd, failure}
use network_layer_verificati.Fifo.Io.{write_string_to_fifo_name, write_string, opened}
use network_layer_verificati.World.{World, Ends}
use network_layer_verificati.World.Outcome.{ends}
use network_layer_verificati.Window.{max_window_size, valid_recvs}
use network_layer_verificati.Window.Stream.{
  Stream, IsReceiver, valid_recvs_lem, drop_received-IsReceiver,
}
use network_layer_verificati.Socket.{update_recv_window, give_to_user, advance_window}

-- `write` answers with no more bytes than it is given.
abbrev pub WritesWithin : Answers → Type 0
WritesWithin os =
    (t : Trace) (fd : ℤ) (s : List ℕ) (n : ℕ) → os t (write_file fd s) ≡ pos n → n ≤ length s

module _ (os : Answers) where
  write_string-length :
      (s : List ℕ) (fd : ℤ) (t : Trace) (n : ℕ)
      → WritesWithin os
      → (write_string os s fd t).0 ≡ pos n
      → n ≤ length s
  unfolding write_string
  write_string-length s fd t n within e = elim (Bool-cases (eq_ℤ fd no_fd)) [
    | inl z ↦ absurd (negative (rw z at e))
    | inr z ↦ within t fd s n (rw z at e)
  ]
    where
      negative : failure ≡ pos n → ⊥
      negative e = ground (arith, e)

  advance_window-IsReceiver :
      (stream : Stream) (s : ℕ) (answer : ℤ) (w : World)
      → IsReceiver stream (w.heap.socks s)
      → ((n : ℕ) → answer ≡ pos n → n ≤ max_window_size)
      → Ends (advance_window os s answer w) (λ _ w'. IsReceiver stream (w'.heap.socks s))
  unfolding advance_window
  advance_window-IsReceiver stream s (pos n) w r fits =
      ends _ _
        (simp update_self (drop_received-IsReceiver stream (w.heap.socks s) n r (fits n refl)))
  advance_window-IsReceiver stream s (negsuc n) w r fits = ends _ _ r

  give_to_user-IsReceiver :
      (stream : Stream) (s : ℕ) (name : Option (List ℕ)) (w : World)
      → WritesWithin os
      → IsReceiver stream (w.heap.socks s)
      → Ends (give_to_user os s name w) (λ _ w'. IsReceiver stream (w'.heap.socks s))
  unfolding give_to_user write_string_to_fifo_name
  give_to_user-IsReceiver stream s none w within r = ends _ _ r
  give_to_user-IsReceiver stream s (some name) w within r =
      let sock = w.heap.socks s in
      let (as_long, short, _, _) = valid_recvs_lem stream sock r in
      let (answer, t) =
        write_string_to_fifo_name os (some name) sock.recv_window (valid_recvs sock) w.trace in
      advance_window-IsReceiver stream s answer (record w { trace = t }) r
        (λ n e. omega (
          arith,
          short,
          as_long,
          write_string-length (take (valid_recvs sock) sock.recv_window)
              (opened os name OpenMode.write_only_nonblock w.trace).0
              (opened os name OpenMode.write_only_nonblock w.trace).1 n within e,
        ))

  -- `update_recv_window` leaves a receive window of the stream as one, whatever the client takes.
  pub update_recv_window-IsReceiver :
      (stream : Stream) (s : ℕ) (w : World)
      → WritesWithin os
      → IsReceiver stream (w.heap.socks s)
      → Ends (update_recv_window os s w) (λ _ w'. IsReceiver stream (w'.heap.socks s))
  unfolding update_recv_window
  update_recv_window-IsReceiver stream s w within r = give_to_user-IsReceiver stream s _ _ within r
