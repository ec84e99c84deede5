-- ===== src/Manager/Status/Built.antt =====
-- The packets without data that `check_and_handle_outgoing_status_messages` builds and sends: where
-- the numbers of a socket are in range, their text fits its buffer.
use network_layer_verificati.Prelude.{
  ℕ, ◌+◌, ◌^◌, ◌<◌, ◌≡◌, refl, ap, true, Bool-cases, inl, inr, none, some, [], arith, ltb, lt→ltb,
  ℤ, pos, ◌+ℤ◌, to_int,
}
use network_layer_verificati.TcpPacket.{TcpPacket, calc_checksum}
use network_layer_verificati.TcpPacket.RoundTrip.{IsPrintable, length-tcp_text}
use network_layer_verificati.SocketId.{SocketId}
use network_layer_verificati.Heap.{Sock}
use network_layer_verificati.Os.{Answers, allocated}
use network_layer_verificati.World.{World, Ends}
use network_layer_verificati.World.Outcome.{ends}
use network_layer_verificati.Socket.{construct_packet, packet_of}
use network_layer_verificati.Socket.Frame.{SameHeap}
use network_layer_verificati.Packets.Steps.{Reply}
use network_layer_verificati.Manager.Frame.{IsSent}
use network_layer_verificati.Manager.Keeps.{Numbers, At}

-- The ports have five digits, and the sum of all numbers and any flags is an `int`.
abbrev pub Fit : Numbers → ℕ → Type 0
Fit x y =
    (x.port < 10 ^ 5) × (x.peer_port < 10 ^ 5) × (x.port + x.peer_port + y + x.ack + 16 < 2 ^ 31)

abbrev pub built : Numbers → ℕ → ℕ → TcpPacket
built x y flags = record {
  src_port = pos x.port;
  dst_port = pos x.peer_port;
  seq_num = pos y;
  ack_num = pos x.ack;
  flags = flags;
  checksum = pos (x.port + x.peer_port + y + x.ack + flags);
  payload = some [];
}

-- a packet with these numbers, or none
abbrev pub IsBuilt : Numbers → ℕ → Reply → Type 0
IsBuilt x y none = Unit
IsBuilt x y (some p) = (flags : ℕ) × (0 < flags) × (flags < 16) × (p ≡ built x y flags)

built-IsPrintable :
    (x : Numbers) (y flags : ℕ) → Fit x y → 0 < flags → flags < 16 → IsPrintable (built x y flags)
built-IsPrintable x y flags (a, b, c) l h = record {
  src = x.port;
  dst = x.peer_port;
  seq = y;
  ack = x.ack;
  sum = x.port + x.peer_port + y + x.ack + flags;
  src_eq = refl;
  dst_eq = refl;
  seq_eq = refl;
  ack_eq = refl;
  sum_eq = refl;
  src_fits = a;
  dst_fits = b;
  seq_fits = omega arith;
  ack_fits = omega arith;
  sum_fits = omega arith;
  flags_fit = (l, omega arith);
}

pub IsBuilt-IsSent : (x : Numbers) (y : ℕ) (p : Reply) → Fit x y → IsBuilt x y p → IsSent p
IsBuilt-IsSent x y none fit b = tt
IsBuilt-IsSent x y (some p) fit (flags, l, h, e) = rw e (
  [],
  refl,
  omega (arith, length-tcp_text (built x y flags) (built-IsPrintable x y flags fit l h) []),
)

sum_lem :
    (a b c d f : ℕ)
    → a + b + c + d + f < 2 ^ 31
    → to_int (to_int (to_int (to_int (pos a +ℤ pos b) +ℤ pos c) +ℤ pos d) +ℤ pos f)
      ≡ pos (a + b + c + d + f)
unfolding to_int ◌+ℤ◌
sum_lem a b c d f h = ground arith

module _ (os : Answers) where
  packet_of-built :
      (sock : Sock) (f : SocketId) (x : Numbers) (y flags : ℕ) (port : ℤ)
      → Fit x y
      → flags < 16
      → f.src_port ≡ pos x.port
      → port ≡ pos x.peer_port
      → sock.seq_of_first_send_window ≡ pos y
      → sock.seq_of_first_recv_window ≡ pos x.ack
      → packet_of os sock f [] flags port ≡ built x y flags
  unfolding packet_of calc_checksum
  packet_of-built sock f x y flags port (_, _, c) h ep eq es ea =
      let small : ltb flags 128 ≡ true = lt→ltb flags 128 (omega arith) in
      rw (ep, eq, es, ea, small)
        (ap (λ z. record (built x y flags) { checksum = z })
          (sum_lem x.port x.peer_port y x.ack flags (omega arith)))

  pub construct_packet-IsBuilt :
      (s k : ℕ) (x : Numbers) (y flags : ℕ) (w : World)
      → Fit x y
      → 0 < flags
      → flags < 16
      → At s k x y w.heap
      → Ends
          (construct_packet os s [] flags ((w.heap.ids x.key).dst_port) w)
          (λ p w'. IsBuilt x y p × SameHeap w w')
  unfolding construct_packet
  construct_packet-IsBuilt s k x y flags w fit l h (e, ep, eq, es, ea) =
      elim (Bool-cases ((allocated os w.trace).0)) [
        | inl u ↦ elim (Bool-cases ((allocated os (allocated os w.trace).1).0)) [
          | inl v ↦
              rw (u, v, e)
                (ends _ _ (
                  (
                    flags,
                    l,
                    h,
                    packet_of-built (w.heap.socks s) (w.heap.ids k) x y flags _ fit h ep eq es ea,
                  ),
                  (refl, refl),
                ))
          | inr v ↦ rw (u, v) (ends _ _ (tt, (refl, refl)))
        ]
        | inr u ↦ rw u (ends _ _ (tt, (refl, refl)))
      ]
