-- ===== src/Fifo/Requests/RoundTrip.antt =====
-- The requests of network.c are what the manager scans.
use network_layer_verificati.Prelude.{
  ℕ, ◌+◌, ◌≡◌, ◌≢◌, refl, sym, ◌∙◌, ap, true, false, some, ◌≤◌, leb, List, [], ◌∷◌, ◌++◌, arith,
  ◌==◌, length, ℤ, IsInt, All, append-nil,
}
use network_layer_verificati.SocketId.{max_ip_length}
use network_layer_verificati.Stdio.{
  print_int, is_space, scan_word, match_word, scan_nonspaces, skip_spaces,
}
use network_layer_verificati.Stdio.Decimal.{starts_with_digit}
use network_layer_verificati.Stdio.Numbers.{scan_int-print_int}
use network_layer_verificati.Fifo.Requests.{
  bind_request, connect_request, scan_decimal, scan_field, scan_bind_request, split_underscore,
  scan_connect_request,
}

scan_decimal-print_int :
    (z : ℤ) (rest : List ℕ)
    → IsInt z
    → starts_with_digit rest ≡ false
    → scan_decimal (print_int z ++ rest) ≡ some (z, rest)
unfolding scan_decimal
scan_decimal-print_int z rest i d =
    scan_int-print_int z (length (print_int z ++ rest) + 11) rest i (omega arith) d

scan_field-print_int :
    (z : ℤ) (rest : List ℕ)
    → IsInt z
    → starts_with_digit rest ≡ false
    → scan_field (b'_' ∷ (print_int z ++ rest)) ≡ some (z, rest)
unfolding scan_field
scan_field-print_int z rest i d = scan_decimal-print_int z rest i d

-- A request of `SocketBind` gives the manager the port, the process and the counter of the client,
-- each of them any `int`.
pub scan_bind_request-bind_request :
    (port pid socket_counter : ℤ)
    → IsInt port
    → IsInt pid
    → IsInt socket_counter
    → scan_bind_request (bind_request port pid socket_counter) ≡ some (port, pid, socket_counter)
unfolding scan_bind_request bind_request
scan_bind_request-bind_request port pid socket_counter p q n =
    rw
      (
        scan_decimal-print_int port (b'_' ∷ (print_int pid ++ b'_' ∷ print_int socket_counter)) p
            refl,
        scan_field-print_int pid (b'_' ∷ print_int socket_counter) q refl,
        last_field,
      )
      refl
  where
    last_field : scan_field (b'_' ∷ print_int socket_counter) ≡ some (socket_counter, [])
    last_field =
        ap (λ s. scan_field (b'_' ∷ s)) (sym (append-nil (print_int socket_counter)))
        ∙ scan_field-print_int socket_counter [] n refl

split_underscore-append :
    (a b : List ℕ) → All (λ c. c ≢ b'_') a → split_underscore (a ++ b'_' ∷ b) ≡ some (a, b)
unfolding split_underscore
split_underscore-append [] b h = refl
split_underscore-append (c ∷ a) b h =
    let other : c == b'_' ≡ false = ground (arith, h.0) in
    rw (other, split_underscore-append a b h.1) refl

scan_nonspaces-All : (a : List ℕ) → All (λ c. is_space c ≡ false) a → scan_nonspaces a ≡ (a, [])
unfolding scan_nonspaces
scan_nonspaces-All [] h = refl
scan_nonspaces-All (c ∷ a) h = rw (h.0, scan_nonspaces-All a h.1) refl

scan_word-All :
    (c : ℕ) (a : List ℕ)
    → All (λ c. is_space c ≡ false) (c ∷ a)
    → scan_word (c ∷ a) ≡ some (c ∷ a, [])
unfolding scan_word skip_spaces
scan_word-All c a h = rw h.0 (ap match_word (scan_nonspaces-All (c ∷ a) h))

-- A request of `SocketConnect` gives the manager the address and the port, if the address is not
-- empty, has 16 bytes at most, and has neither an underscore nor a space in it. The port is any
-- `int`.
pub scan_connect_request-connect_request :
    (c : ℕ) (ip : List ℕ) (port : ℤ)
    → All (λ c. c ≢ b'_') (c ∷ ip)
    → All (λ c. is_space c ≡ false) (c ∷ ip)
    → IsInt port
    → length (c ∷ ip) ≤ max_ip_length
    → scan_connect_request (connect_request (c ∷ ip) port) ≡ some (some (c ∷ ip, port))
unfolding scan_connect_request connect_request
scan_connect_request-connect_request c ip port n s i l =
    rw (split_underscore-append (c ∷ ip) (print_int port) n, scan_word-All c ip s, fits, whole) refl
  where
    fits : leb (length (c ∷ ip)) max_ip_length ≡ true
    fits = ground (arith, l)

    whole : scan_decimal (print_int port) ≡ some (port, [])
    whole =
        ap scan_decimal (sym (append-nil (print_int port))) ∙ scan_decimal-print_int port [] i refl
