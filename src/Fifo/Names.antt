-- ===== src/Fifo/Names.antt =====
-- The text of a socket in the names of its fifos fits the buffers of fifo_utils.c.
use network_layer_verificati.Prelude.{
  ℕ, suc, ◌+◌, ◌≤◌, ◌++◌, length, length-append, arith, codes, ℤ, pos, negsuc, IsInt,
}
use network_layer_verificati.Stdio.{print_int}
use network_layer_verificati.Stdio.Decimal.{length-dec-le}
use network_layer_verificati.SocketId.{SocketId}
use network_layer_verificati.SocketId.Equality.{IsAddressed}
use network_layer_verificati.Fifo.{socket_repr}

-- `MAX_SOCKET_STRING_REPR_SIZE`
abbrev pub max_socket_string_repr_size : ℕ
max_socket_string_repr_size = 80

length-print_int-le : (z : ℤ) → IsInt z → length (print_int z) ≤ 11
unfolding print_int
length-print_int-le (pos n) h = omega (arith, length-dec-le 10 n (omega arith) (ground arith))
length-print_int-le (negsuc n) h =
    omega (arith, length-dec-le 10 (suc n) (omega arith) (ground arith))

-- `sprintf` of an identity with addresses that fit their arrays and `int` ports stays inside the
-- buffer of 80 bytes, its NUL included.
pub length-socket_repr :
    (i : SocketId)
    → IsAddressed i
    → IsInt i.src_port
    → IsInt i.dst_port
    → length (socket_repr i) + 1 ≤ max_socket_string_repr_size
unfolding socket_repr codes
length-socket_repr i a s d = omega (
  arith,
  a.src_short,
  a.dst_short,
  length-print_int-le i.src_port s,
  length-print_int-le i.dst_port d,
  length-append i.src_ip (
      codes "_"
      ++ (print_int i.src_port
          ++ (codes "_" ++ (i.dst_ip ++ (codes "_" ++ (print_int i.dst_port ++ codes ")")))))),
  length-append (print_int i.src_port)
      (codes "_" ++ (i.dst_ip ++ (codes "_" ++ (print_int i.dst_port ++ codes ")")))),
  length-append i.dst_ip (codes "_" ++ (print_int i.dst_port ++ codes ")")),
  length-append (print_int i.dst_port) (codes ")"),
)
