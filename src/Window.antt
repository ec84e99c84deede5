-- ===== src/Window.antt =====
-- The receive window of a socket: `receiveNewData` of packet_handlers.c and the arithmetic of
-- `update_recv_window` of socket_utils.c. Sequence numbers are `int`s and wrap around.
pub mod Stream
use network_layer_verificati.Prelude.{
  ℕ, suc, ◌+◌, ◌-◌, Bool, true, false, List, [], ◌∷◌, ◌++◌, if◌then◌else◌, leb, ltb, length, get_or,
  set, drop, replicate, ℤ, pos, ◌+ℤ◌, ◌-ℤ◌, pos_part, leb_ℤ, ltb_ℤ, to_int, ◌&&◌, not,
}
use network_layer_verificati.Heap.{Sock}

abbrev pub max_window_size : ℕ
max_window_size = 1024

-- the guard of `receiveNewData`: the place is in the window, and free
unfoldable pub takes_byte : Sock → ℤ → Bool
takes_byte s place =
    leb_ℤ (pos 0) place
    && ltb_ℤ place (pos s.max_recv_window_size)
    && not (get_or s.recv_window_isvalid (pos_part place) false)

abbrev pub put_byte : Sock → ℕ → ℕ → Sock
put_byte s p byte = record s {
  recv_window = set s.recv_window p byte;
  recv_window_isvalid = set s.recv_window_isvalid p true;
}

unfoldable pub receive_byte : Sock → ℤ → ℕ → Sock
receive_byte s seq byte =
    let place = to_int (seq -ℤ s.seq_of_first_recv_window) in
    if takes_byte s place then put_byte s (pos_part place) byte else s

-- The loop of `receiveNewData`, from byte `i` of the data on.
unfoldable pub receive_bytes : Sock → ℤ → ℕ → List ℕ → Sock
unfolding receive_byte
receive_bytes s seq i [] = s
receive_bytes s seq i (byte ∷ bytes) =
    receive_bytes (receive_byte s (to_int (seq +ℤ pos i)) byte) seq (suc i) bytes

-- The first loop of `update_recv_window`: how many bytes there are without a hole, in `n` places.
unfoldable pub valid_from : ℕ → List Bool → ℕ
valid_from ℕ.zero valid = 0
valid_from (suc n) [] = 0
valid_from (suc n) (v ∷ valid) = let rest = valid_from n valid in if v then suc rest else 0

unfoldable pub valid_recvs : Sock → ℕ
unfolding valid_from
valid_recvs s = valid_from s.max_recv_window_size s.recv_window_isvalid

-- The last loops of `update_recv_window`, for the `n` bytes that the user has been given. A byte is
-- read before its place is written. The bytes at the end stay in the window, marked as free.
unfoldable pub drop_received : ℕ → Sock → Sock
drop_received n s = record s {
  seq_of_first_recv_window = to_int (s.seq_of_first_recv_window +ℤ pos n);
  recv_window = drop n s.recv_window ++ drop (s.max_recv_window_size - n) s.recv_window;
  recv_window_isvalid = drop n s.recv_window_isvalid ++ replicate n false;
}
