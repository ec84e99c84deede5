-- ===== src/SocketId.antt =====
-- The identity of a socket: `SocketID` of network.h and the functions of socket_utils.c on it. The
-- field `id` of the struct is never read or written and is left out. An address is the string in
-- its array of 17 bytes.
pub mod Equality
use network_layer_verificati.Prelude.{
  ℕ, ◌+◌, Bool, true, false, not, ◌&&◌, Option, none, some, List, [], ◌∷◌, ◌==◌, if◌then◌else◌, ℤ,
  pos, eq_ℤ, replicate, until_nul,
}
use network_layer_verificati.CString.{strcmp_t, strcpy_t}

abbrev pub max_ip_length : ℕ
max_ip_length = 16

abbrev pub empty_port : ℤ
empty_port = pos 0

pub record SocketId : Type 0 where
  pub src_port : ℤ
  pub dst_port : ℤ
  pub src_ip : List ℕ
  pub dst_ip : List ℕ

-- `SocketState`
pub data SocketState : Type 0 where
  connected_socket bound_only_socket empty_socket invalid_socket : SocketState

-- `ip[0] == 'e'`
unfoldable pub is_empty_ip : List ℕ → Bool
is_empty_ip [] = false
is_empty_ip (c ∷ ip) = c == b'e'

-- what `ip_set_empty` leaves in an address
unfoldable pub empty_ip : List ℕ
empty_ip = replicate max_ip_length b'e'

unfoldable pub empty_socket_id : SocketId
empty_socket_id = record {
  src_port = empty_port;
  dst_port = empty_port;
  src_ip = empty_ip;
  dst_ip = empty_ip;
}

unfoldable pub is_socket_connected : SocketId → Bool
is_socket_connected i =
    not (is_empty_ip i.dst_ip)
    && not (eq_ℤ i.dst_port empty_port)
    && not (is_empty_ip i.src_ip)
    && not (eq_ℤ i.src_port empty_port)

unfoldable pub is_socket_bound_only : SocketId → Bool
is_socket_bound_only i =
    is_empty_ip i.dst_ip
    && eq_ℤ i.dst_port empty_port
    && not (is_empty_ip i.src_ip)
    && not (eq_ℤ i.src_port empty_port)

unfoldable pub is_socket_empty : SocketId → Bool
is_socket_empty i =
    is_empty_ip i.dst_ip
    && eq_ℤ i.dst_port empty_port
    && is_empty_ip i.src_ip
    && eq_ℤ i.src_port empty_port

unfoldable pub get_socket_state : Option SocketId → SocketState
unfolding is_socket_connected is_socket_bound_only is_socket_empty
get_socket_state none = invalid_socket
get_socket_state (some i) =
    if is_socket_connected i
    then connected_socket
    else if is_socket_bound_only i
    then bound_only_socket
    else if is_socket_empty i
    then empty_socket
    else invalid_socket

string_in : Option (Option (List ℕ)) → List ℕ
string_in (some (some buf)) = until_nul buf
string_in _ = []

-- `strcpy_t` into an array that `ip_set_empty` has filled, and that has room for all it writes
unfoldable pub copied_ip : List ℕ → List ℕ
unfolding string_in
copied_ip ip = string_in (strcpy_t (some (replicate (max_ip_length + 1) b'e')) (some ip))

-- the new identity of `copy_socket_id`, where there is memory for it
unfoldable pub copy_of_id : SocketId → SocketId
unfolding copied_ip
copy_of_id i = record {
  src_port = i.src_port;
  dst_port = i.dst_port;
  src_ip = copied_ip i.src_ip;
  dst_ip = copied_ip i.dst_ip;
}

-- the test of `compareKeys` and of `compare_socket_id`, on two identities that are not one object
unfoldable pub same_id : SocketId → SocketId → Bool
same_id a b =
    eq_ℤ a.dst_port b.dst_port
    && eq_ℤ (strcmp_t a.src_ip b.src_ip) (pos 0)
    && eq_ℤ a.src_port b.src_port
    && eq_ℤ (strcmp_t a.dst_ip b.dst_ip) (pos 0)
