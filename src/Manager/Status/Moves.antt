-- ===== src/Manager/Status/Moves.antt =====
-- The moves of the state machine that `check_and_handle_outgoing_status_messages` of
-- network_manager/network_manager.c makes by itself, and that it ends.
use network_layer_verificati.Prelude.{ℕ, suc, ◌≡◌, Bool, true, false, ◌-ℤ◌}
use network_layer_verificati.Heap.{TcpState, Sock}
use network_layer_verificati.Os.{Answers, Trace, read_clock}
use network_layer_verificati.World.{World, Run, Ends}
use network_layer_verificati.Socket.{longer_than}
use network_layer_verificati.Socket.Bound.{HasMemory}
use network_layer_verificati.Manager.Keeps.{Numbers, At, Keeps}
use network_layer_verificati.Manager.Status.{socket_fin_rst_time, socket_time_wait_timeout}
use network_layer_verificati.Manager.Status.Built.{Fit}

-- More than eight seconds have passed since the FIN, and more than one since the last packet, as the
-- clock says after these calls.
abbrev pub fin_is_late : Answers → Trace → Sock → Bool
fin_is_late os t f = longer_than socket_fin_rst_time (os t read_clock -ℤ f.time_since_fin_sent)

abbrev pub wait_is_over : Answers → Trace → Sock → Bool
wait_is_over os t f = longer_than socket_time_wait_timeout (os t read_clock -ℤ f.last_send_clock)

-- in which states, and when, a socket may stay as it is
abbrev pub MayWait : Answers → Trace → Sock → TcpState → Type 0
MayWait os t f TcpState.close_wait = ⊥
MayWait os t f TcpState.time_wait = wait_is_over os t f ≡ false
MayWait os t f _ = Unit

-- What a socket does by itself, without a packet, where the round begins after these calls and finds
-- the socket like this. It does not wait for its client in CLOSE_WAIT.
pub data TimedMoves (os : Answers) (t : Trace) (f : Sock) : TcpState → TcpState → Type 0 where
  waits_on : {q : TcpState} → MayWait os t f q → TimedMoves os t f q q
  ends_after_peer : TimedMoves os t f TcpState.close_wait TcpState.last_ack
  gives_up : fin_is_late os t f ≡ true → TimedMoves os t f TcpState.fin_wait_1 TcpState.time_wait
  gives_up_closing :
      fin_is_late os t f ≡ true → TimedMoves os t f TcpState.closing TcpState.time_wait
  forgets : wait_is_over os t f ≡ true → TimedMoves os t f TcpState.time_wait TcpState.closed

module _ (os : Answers) (memory : HasMemory os) (s k : ℕ) (x : Numbers) (y : ℕ)
    (fit : Fit x (suc y)) (t : Trace) (f : Sock) where
  -- Code that ends, where the socket has the identity, the numbers and the state, with one of these
  -- moves.
  abbrev Moving : {A : Type 0} → TcpState → Run A → Type 0
  Moving q m =
      (w : World)
      → At s k x (suc y) w.heap
      → (w.heap.socks s).state ≡ q
      → Ends (m w) (λ _ w'. TimedMoves os t f q ((w'.heap.socks s).state))

module _ (os : Answers) (memory : HasMemory os) (s k : ℕ) (x : Numbers) (y : ℕ)
    (fit : Fit x (suc y)) (w : World) (i : At s k x (suc y) w.heap) where
  -- how this round of the socket ends
  abbrev Round : {A : Type 0} → TcpState → Run A → Type 0
  Round q m =
      (w.heap.socks s).state ≡ q
      → Ends (m w) (λ _ w'. TimedMoves os w.trace (w.heap.socks s) q ((w'.heap.socks s).state))
