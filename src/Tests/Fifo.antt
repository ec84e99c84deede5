-- ===== src/Tests/Fifo.antt =====
-- Runs of the reads and the requests.
use network_layer_verificati.Prelude.{◌-◌, ◌≡◌, refl, some, [], ◌∷◌, arith, length, get_or, pos}
use network_layer_verificati.Os.{Answers, Call}
use network_layer_verificati.Fifo.Read.{read_message_until_char, read_entire_message}
use network_layer_verificati.Fifo.Read.Delivery.{
  reads, ReadsSome, Fills, read_message_until_char-Supplies, read_entire_message-ReadsSome,
}
use network_layer_verificati.Fifo.Requests.{
  bind_request, connect_request, scan_bind_request, scan_connect_request,
}
use network_layer_verificati.Fifo.Requests.RoundTrip.{
  scan_bind_request-bind_request, scan_connect_request-connect_request,
}
use network_layer_verificati.Tests.Connection.{granting}

-- a system with the message "80" and its NUL to read
abbrev supplying : Answers
supplying t (Call.read_file fd n) = pos 1
supplying t (Call.received i) = pos (get_or (b'8' ∷ b'0' ∷ 0 ∷ []) (length t - 1) 1)
supplying t _ = pos 0

read_message_until_char-Supplies_example :
    read_message_until_char supplying 3 (pos 5) 0 []
    ≡ some ((pos 3, b'8' ∷ b'0' ∷ 0 ∷ []), reads (pos 5) (b'8' ∷ b'0' ∷ 0 ∷ []) [])
read_message_until_char-Supplies_example =
    read_message_until_char-Supplies supplying (pos 5) 0 (b'8' ∷ b'0' ∷ []) 3 []
      (λ e. absurd (omega (arith, e)), (λ e. absurd (omega (arith, e)), tt))
      (refl, refl, (refl, refl, (refl, refl, tt))) (omega arith)

granting_some : ReadsSome granting (pos 5)
granting_some t n h = (1, refl, omega arith, h)

read_entire_message-ReadsSome_example :
    Fills granting (pos 5) 10 10 [] [] (read_entire_message granting 10 (pos 5) (pos 10) [])
read_entire_message-ReadsSome_example =
    read_entire_message-ReadsSome granting (pos 5) 10 10 [] granting_some (omega arith)
      (omega arith)

scan_bind_request-bind_request_example :
    scan_bind_request (bind_request (pos 80) (pos 4711) (pos 1)) ≡ some (pos 80, pos 4711, pos 1)
scan_bind_request-bind_request_example =
    scan_bind_request-bind_request (pos 80) (pos 4711) (pos 1) (omega arith, omega arith)
      (omega arith, omega arith) (omega arith, omega arith)

scan_connect_request-connect_request_example :
    scan_connect_request (connect_request (b'1' ∷ b'0' ∷ []) (pos 80))
    ≡ some (some (b'1' ∷ b'0' ∷ [], pos 80))
scan_connect_request-connect_request_example =
    scan_connect_request-connect_request b'1' (b'0' ∷ []) (pos 80)
      (λ e. absurd (omega (arith, e)), (λ e. absurd (omega (arith, e)), tt)) (refl, (refl, tt))
      (omega arith, omega arith) (omega arith)
