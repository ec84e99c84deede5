-- ===== src/Fifo/Requests.antt =====
-- The texts of the requests of a client: as network.c and packet notices print them, and as
-- network_manager/network_manager.c and network.c scan them.
pub mod RoundTrip
use network_layer_verificati.Prelude.{
  ℕ, ◌+◌, Bool, true, false, Option, none, some, List, [], ◌∷◌, ◌++◌, if◌then◌else◌, leb, length,
  ◌==◌, ℤ, codes,
}
use network_layer_verificati.SocketId.{max_ip_length}
use network_layer_verificati.Stdio.{print_int, scan_int, scan_word}

-- "%d_%d_%d" of `SocketBind`
unfoldable pub bind_request : ℤ → ℤ → ℤ → List ℕ
unfolding print_int
bind_request port pid socket_counter =
    print_int port ++ b'_' ∷ (print_int pid ++ b'_' ∷ print_int socket_counter)

-- "%s_%d" of `SocketConnect`
unfoldable pub connect_request : List ℕ → ℤ → List ℕ
unfolding print_int
connect_request dst_ip dst_port = dst_ip ++ b'_' ∷ print_int dst_port

-- "%d", with room for all of the text and for any number
unfoldable pub scan_decimal : List ℕ → Option (ℤ × List ℕ)
unfolding scan_int
scan_decimal s = scan_int (length s + 11) s

-- "_%d"
unfoldable pub scan_field : List ℕ → Option (ℤ × List ℕ)
unfolding scan_decimal
scan_field [] = none
scan_field (c ∷ s) = if c == b'_' then scan_decimal s else none

-- port, process and counter of "%d_%d_%d"
unfoldable pub scan_bind_request : List ℕ → Option (ℤ × ℤ × ℤ)
unfolding scan_decimal scan_field
scan_bind_request s = after_port (scan_decimal s)
  where
    after_pid : ℤ → ℤ → Option (ℤ × List ℕ) → Option (ℤ × ℤ × ℤ)
    after_pid port pid none = none
    after_pid port pid (some (socket_counter, _)) = some (port, pid, socket_counter)

    before_counter : ℤ → Option (ℤ × List ℕ) → Option (ℤ × ℤ × ℤ)
    before_counter port none = none
    before_counter port (some (pid, rest)) = after_pid port pid (scan_field rest)

    after_port : Option (ℤ × List ℕ) → Option (ℤ × ℤ × ℤ)
    after_port none = none
    after_port (some (port, rest)) = before_counter port (scan_field rest)

-- the text in front of the first underscore, and the text behind it
unfoldable pub split_underscore : List ℕ → Option (List ℕ × List ℕ)
split_underscore [] = none
split_underscore (c ∷ s) = if c == b'_' then some ([], s) else with_front c (split_underscore s)
  where
    with_front : ℕ → Option (List ℕ × List ℕ) → Option (List ℕ × List ℕ)
    with_front c none = none
    with_front c (some (a, b)) = some (c ∷ a, b)

-- The address and the port of a request "%s_%d", or `some none` where it has another form. An
-- address that does not fit its array of 17 bytes has no result, `none`.
unfoldable pub scan_connect_request : List ℕ → Option (Option (List ℕ × ℤ))
unfolding split_underscore scan_word scan_decimal
scan_connect_request request = from_parts (split_underscore request)
  where
    with_port : List ℕ → Option (ℤ × List ℕ) → Option (List ℕ × ℤ)
    with_port dst_ip none = none
    with_port dst_ip (some (dst_port, _)) = some (dst_ip, dst_port)

    both : Option (ℤ × List ℕ) → Option (List ℕ × List ℕ) → Option (Option (List ℕ × ℤ))
    both port none = some none
    both port (some (dst_ip, _)) =
        if leb (length dst_ip) max_ip_length then some (with_port dst_ip port) else none

    from_parts : Option (List ℕ × List ℕ) → Option (Option (List ℕ × ℤ))
    from_parts none = some none
    from_parts (some (a, b)) = both (scan_decimal b) (scan_word a)
