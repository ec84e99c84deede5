-- ===== src/Manager/Status/Keeps.antt =====
-- The packets that `check_and_handle_outgoing_status_messages` sends by itself: sending ends, and
-- leaves the state of the connection alone.
use network_layer_verificati.Prelude.{
  ℕ, suc, ◌^◌, ◌<◌, ◌≡◌, refl, ◌∙◌, ap, Bool, true, false, Bool-cases, inl, inr, none, some, List,
  arith, ℤ, pos, negsuc, ◌+ℤ◌, ◌-ℤ◌, eq_ℤ, to_int,
}
use network_layer_verificati.Heap.{Sock, update_self}
use network_layer_verificati.TcpPacket.{TcpPacket, syn_flag, rst_flag}
use network_layer_verificati.Os.{Answers}
use network_layer_verificati.Fifo.{failure}
use network_layer_verificati.World.{◌>>=◌, pure}
use network_layer_verificati.World.Outcome.{ends, ends_mono}
use network_layer_verificati.Socket.Bound.{HasMemory}
use network_layer_verificati.Packets.Steps.{Reply}
use network_layer_verificati.Manager.{send_tcp_packet}
use network_layer_verificati.Manager.Send.{sent_at, socket_send_again_time}
use network_layer_verificati.Manager.Keeps.{
  Numbers, Keeps, Any, bind-Keeps, pure-Keeps, SameHeap-Keeps,
}
use network_layer_verificati.Manager.Frame.{IsSent, send_tcp_packet-SameHeap}
use network_layer_verificati.Manager.Status.Built.{
  Fit, IsBuilt, IsBuilt-IsSent, construct_packet-IsBuilt,
}
use network_layer_verificati.Manager.Status.{
  send_built, build, send_fin_if, send_syn_packet, send_syn_if, send_numbered, send_syn_ack_packet,
  send_syn_ack_if, send_rst_packet, syn_ack_flags, since_last_send, move_seq, send_syn,
  send_syn_ack, numbered, send_fin, send_rst,
}

one_back : (y : ℕ) → suc y < 2 ^ 31 → to_int (pos (suc y) +ℤ negsuc 0) ≡ pos y
unfolding to_int ◌+ℤ◌
one_back y h = ground arith

one_on : (y : ℕ) → suc y < 2 ^ 31 → to_int (pos y +ℤ pos 1) ≡ pos (suc y)
unfolding to_int ◌+ℤ◌
one_on y h = ground arith

one_less : (y : ℕ) → suc y < 2 ^ 31 → to_int (pos (suc y) -ℤ pos 1) ≡ pos y
unfolding to_int ◌-ℤ◌
one_less y h = ground arith

Fit-below : (x : Numbers) (y : ℕ) → Fit x (suc y) → Fit x y
Fit-below x y (a, b, c) = (a, b, omega arith)

-- A socket with numbers in range, and a system with memory. The identity at `x.key` is the one by
-- which the round knows the socket.
module _ (os : Answers) (memory : HasMemory os) (s k : ℕ) (x : Numbers) where
  send_tcp_packet-Keeps :
      (y : ℕ) (p : Reply) (dst_ip : List ℕ)
      → IsSent p
      → Keeps s k x y y Any (send_tcp_packet os p dst_ip)
  send_tcp_packet-Keeps y p dst_ip h = SameHeap-Keeps _ (λ w _.
      ends_mono _ (send_tcp_packet-SameHeap os memory p dst_ip w h) (λ _ _ same. (tt, same)))

  sent_at-Keeps : (y : ℕ) (sent : ℤ) → Keeps s k x y y Any (sent_at os s sent)
  unfolding sent_at
  sent_at-Keeps y sent w i = elim (Bool-cases (eq_ℤ sent (pos 0))) [
    | inl e ↦ rw e (ends _ _ (simp update_self (tt, refl, i)))
    | inr e ↦ rw e (ends _ _ (tt, refl, i))
  ]

  send_built-Keeps : (y : ℕ) (p : Reply) → IsSent p → Keeps s k x y y Any (send_built os x.key s p)
  unfolding send_built
  send_built-Keeps y none h w e = pure-Keeps (pos 0) tt w e
  send_built-Keeps y (some p) h w e =
      bind-Keeps (send_tcp_packet os (some p) ((w.heap.ids x.key).dst_ip)) _
        (send_tcp_packet-Keeps y (some p) _ h)
        (λ sent _.
          bind-Keeps (sent_at os s sent) (λ _. pure (pos 0)) (sent_at-Keeps y sent)
            (λ _ _. pure-Keeps (pos 0) tt))
        w e

  build-Keeps :
      (y flags : ℕ)
      → Fit x y
      → 0 < flags
      → flags < 16
      → Keeps s k x y y (IsBuilt x y) (build os x.key s flags)
  unfolding build
  build-Keeps y flags fit l h =
      SameHeap-Keeps _ (λ w e. construct_packet-IsBuilt os s k x y flags w fit l h e)

  since_last_send-Keeps : (y n : ℕ) → Keeps s k x y y Any (since_last_send os n s)
  unfolding since_last_send
  since_last_send-Keeps y n w e = ends _ _ (tt, refl, e)

  move_seq-Keeps :
      (y z : ℕ) (d : ℤ) → to_int (pos y +ℤ d) ≡ pos z → Keeps s k x y z Any (move_seq s d)
  move_seq-Keeps y z d m w (e, ep, eq, es, ea) =
      ends _ _ (simp update_self (tt, refl, (e, ep, eq, ap (λ n. to_int (n +ℤ d)) es ∙ m, ea)))

  module _ (y : ℕ) (fit : Fit x (suc y)) where
    small : suc y < 2 ^ 31
    small = let (_, _, c) = fit in omega arith

    send_fin_if-Keeps :
        (flags : ℕ) (again : Bool)
        → 0 < flags
        → flags < 16
        → Keeps s k x (suc y) (suc y) Any (send_fin_if os x.key s flags again)
    unfolding send_fin_if
    send_fin_if-Keeps flags false l h = pure-Keeps _ tt
    send_fin_if-Keeps flags true l h =
        bind-Keeps (build os x.key s flags) (send_built os x.key s)
          (build-Keeps (suc y) flags fit l h)
          (λ p b. send_built-Keeps (suc y) p (IsBuilt-IsSent x (suc y) p fit b))

    pub send_fin-Keeps :
        (flags : ℕ)
        → 0 < flags
        → flags < 16
        → Keeps s k x (suc y) (suc y) Any (send_fin os x.key s flags)
    unfolding send_fin
    send_fin-Keeps flags l h =
        bind-Keeps (since_last_send os socket_send_again_time s) (send_fin_if os x.key s flags)
          (since_last_send-Keeps (suc y) socket_send_again_time)
          (λ again _. send_fin_if-Keeps flags again l h)

    send_syn_packet-Keeps :
        (p : Reply) → IsBuilt x y p → Keeps s k x y (suc y) Any (send_syn_packet os x.key s p)
    unfolding send_syn_packet
    send_syn_packet-Keeps p b =
        bind-Keeps (move_seq s (pos 1)) (λ _. send_built os x.key s p)
          (move_seq-Keeps y (suc y) (pos 1) (one_on y small))
          (λ _ _. send_built-Keeps (suc y) p (IsBuilt-IsSent x y p (Fit-below x y fit) b))

    send_syn_if-Keeps :
        (again : Bool) → Keeps s k x (suc y) (suc y) Any (send_syn_if os x.key s again)
    unfolding send_syn_if
    send_syn_if-Keeps false = pure-Keeps _ tt
    send_syn_if-Keeps true =
        bind-Keeps (move_seq s (negsuc 0))
          (λ _. build os x.key s syn_flag >>= send_syn_packet os x.key s)
          (move_seq-Keeps (suc y) y (negsuc 0) (one_back y small))
          (λ _ _.
            bind-Keeps (build os x.key s syn_flag) (send_syn_packet os x.key s)
              (build-Keeps y syn_flag (Fit-below x y fit) (omega arith) (omega arith))
              send_syn_packet-Keeps)

    pub send_syn-Keeps : Keeps s k x (suc y) (suc y) Any (send_syn os x.key s)
    unfolding send_syn
    send_syn-Keeps =
        bind-Keeps (since_last_send os socket_send_again_time s) (send_syn_if os x.key s)
          (since_last_send-Keeps (suc y) socket_send_again_time)
          (λ again _. send_syn_if-Keeps again)

    numbered-IsBuilt :
        (sock : Sock) (p : TcpPacket)
        → sock.seq_of_first_send_window ≡ pos (suc y)
        → sock.seq_of_first_recv_window ≡ pos x.ack
        → IsBuilt x y (some p)
        → IsBuilt x y (some (numbered os sock p))
    unfolding numbered
    numbered-IsBuilt sock p es ea (flags, l, h, e) =
        (flags, l, h, rw (e, es, ea, one_less y small) refl)

    send_numbered-Keeps :
        (p : Reply) → IsBuilt x y p → Keeps s k x (suc y) (suc y) Any (send_numbered os x.key s p)
    unfolding send_numbered
    send_numbered-Keeps none b w e = pure-Keeps (pos 0) tt w e
    send_numbered-Keeps (some p) b w (e, ep, eq, es, ea) =
        send_built-Keeps (suc y) (some (numbered os (w.heap.socks s) p))
          (IsBuilt-IsSent x y (some (numbered os (w.heap.socks s) p)) (Fit-below x y fit)
            (numbered-IsBuilt (w.heap.socks s) p es ea b))
          w (e, ep, eq, es, ea)

    send_syn_ack_packet-Keeps :
        (p : Reply) → IsBuilt x y p → Keeps s k x y (suc y) Any (send_syn_ack_packet os x.key s p)
    unfolding send_syn_ack_packet
    send_syn_ack_packet-Keeps p b =
        bind-Keeps (move_seq s (pos 1)) (λ _. send_numbered os x.key s p)
          (move_seq-Keeps y (suc y) (pos 1) (one_on y small)) (λ _ _. send_numbered-Keeps p b)

    send_syn_ack_if-Keeps :
        (again : Bool) → Keeps s k x (suc y) (suc y) Any (send_syn_ack_if os x.key s again)
    unfolding send_syn_ack_if
    send_syn_ack_if-Keeps false = pure-Keeps _ tt
    send_syn_ack_if-Keeps true =
        bind-Keeps (move_seq s (negsuc 0))
          (λ _. build os x.key s syn_ack_flags >>= send_syn_ack_packet os x.key s)
          (move_seq-Keeps (suc y) y (negsuc 0) (one_back y small))
          (λ _ _.
            bind-Keeps (build os x.key s syn_ack_flags) (send_syn_ack_packet os x.key s)
              (build-Keeps y syn_ack_flags (Fit-below x y fit) (omega arith) (omega arith))
              send_syn_ack_packet-Keeps)

    pub send_syn_ack-Keeps : Keeps s k x (suc y) (suc y) Any (send_syn_ack os x.key s)
    unfolding send_syn_ack
    send_syn_ack-Keeps =
        bind-Keeps (since_last_send os socket_send_again_time s) (send_syn_ack_if os x.key s)
          (since_last_send-Keeps (suc y) socket_send_again_time)
          (λ again _. send_syn_ack_if-Keeps again)

    send_rst_packet-Keeps :
        (p : Reply)
        → IsBuilt x (suc y) p
        → Keeps s k x (suc y) (suc y) Any (send_rst_packet os x.key p)
    unfolding send_rst_packet
    send_rst_packet-Keeps none b w e = pure-Keeps failure tt w e
    send_rst_packet-Keeps (some p) b w e =
        send_tcp_packet-Keeps (suc y) (some p) _ (IsBuilt-IsSent x (suc y) (some p) fit b) w e

    pub send_rst-Keeps : Keeps s k x (suc y) (suc y) Any (send_rst os x.key s)
    unfolding send_rst
    send_rst-Keeps =
        bind-Keeps (build os x.key s rst_flag) (send_rst_packet os x.key)
          (build-Keeps (suc y) rst_flag fit (omega arith) (omega arith)) send_rst_packet-Keeps
