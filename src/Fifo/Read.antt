-- ===== src/Fifo/Read.antt =====
-- fifo_utils.c: the reads. Each gives its result and the bytes it has put into the buffer. What the
-- callers find behind those bytes is not used by them.
pub mod Delivery
pub mod Polling
use network_layer_verificati.Prelude.{
  ℕ, zero, suc, ◌+◌, ◌-◌, Bool, true, false, Option, none, some, List, [], ◌∷◌, ◌++◌, ◌||◌, not,
  if◌then◌else◌, ◌==◌, leb, length, ℤ, pos, pos_part, negsuc, eq_ℤ, leb_ℤ, ltb_ℤ,
}
use network_layer_verificati.Os.{
  Answers, Call, read_file, received, byte_of, received_bytes, would_block,
}
use network_layer_verificati.Os.Waiting.{Wait, ◌>>=◌, continue, pure, sys, stuck}
use network_layer_verificati.Fifo.{failure}

abbrev pub Message : Type 0
Message = ℤ × List ℕ

module _ (os : Answers) where
  -- a `read`, with the bytes that it has put into the buffer
  unfoldable pub read_bytes : ℤ → ℕ → Wait Message
  read_bytes fd len t =
      let r = os t (read_file fd len) in
      let t' = read_file fd len ∷ t in some ((r, received_bytes os (pos_part r) 0 t'), t')

  -- what a failed `read` makes of the call: nothing to read, or an error
  unread : List ℕ → Wait Message
  unread bytes = do again ← sys (would_block os); pure (if again then pos 0 else failure, bytes)

  -- The loop of `read_entire_message`, with `left` bytes to read and the bytes read so far.
  fill_message : ℕ → ℤ → ℕ → ℕ → List ℕ → Wait Message
  unfolding unread read_bytes
  fill_message zero fd len left bytes = stuck
  fill_message (suc fuel) fd len zero bytes = pure (pos len, bytes)
  fill_message (suc fuel) fd len (suc left) bytes = do
    (r, more) ← read_bytes fd (suc left)
    elim r [
      | pos n ↦ fill_message fuel fd len (suc left - n) (bytes ++ more)
      | negsuc n ↦ unread bytes
    ]

  -- After the first `read`.
  first_part : ℕ → ℤ → ℕ → ℤ → List ℕ → Wait Message
  unfolding unread fill_message
  first_part fuel fd len (pos zero) bytes = pure (pos 0, [])
  first_part fuel fd len (pos (suc n)) bytes = fill_message fuel fd len (len - suc n) bytes
  first_part fuel fd len (negsuc n) bytes = unread []

  unfoldable pub read_entire_message : ℕ → ℤ → ℤ → Wait Message
  unfolding first_part read_bytes
  read_entire_message fuel fd (negsuc n) = pure (failure, [])
  read_entire_message fuel fd (pos len) = do
    (r, bytes) ← read_bytes fd len
    first_part fuel fd len r bytes

  -- As many rounds as there is fuel; each gets all the fuel of the inner loop.
  nonzero_rounds : ℕ → ℕ → ℤ → ℤ → Wait Message
  unfolding read_entire_message
  nonzero_rounds zero fuel fd len = stuck
  nonzero_rounds (suc rounds) fuel fd len = do
    (r, bytes) ← read_entire_message fuel fd len
    if eq_ℤ r failure || ltb_ℤ (pos 0) r then pure (r, bytes) else nonzero_rounds rounds fuel fd len

  unfoldable pub read_nonzero_entire_message : ℕ → ℤ → ℤ → Wait Message
  unfolding nonzero_rounds
  read_nonzero_entire_message fuel fd len = nonzero_rounds fuel fuel fd len

  -- `read` of a single byte
  unfoldable pub read_byte : ℤ → Wait (ℤ × ℕ)
  read_byte fd t =
      let t' = read_file fd 1 ∷ t in
      some ((os t (read_file fd 1), byte_of (os t' (received 0))), t')

  -- The end of `read_message_until_char` where the last `read` has given no byte: what came before
  -- has no stop at its end.
  no_stop : Bool → List ℕ → Wait Message
  no_stop broken [] = pure (if broken then failure else pos 0, [])
  no_stop broken (c ∷ cs) = pure (failure, c ∷ cs)

  until_char : ℕ → ℤ → ℕ → List ℕ → Wait Message
  unfolding read_byte no_stop
  until_char zero fd stop bytes = stuck
  until_char (suc fuel) fd stop bytes = do
    (r, c) ← read_byte fd
    elim r [
      | pos zero ↦ no_stop false bytes
      | pos (suc n) ↦
          if c == stop
          then pure (pos (length (bytes ++ c ∷ [])), bytes ++ c ∷ [])
          else until_char fuel fd stop (bytes ++ c ∷ [])
      | negsuc n ↦ do again ← sys (would_block os); no_stop (not again) bytes
    ]

  -- The buffer has no bound here: the code writes as many bytes as come.
  unfoldable pub read_message_until_char : ℕ → ℤ → ℕ → Wait Message
  unfolding until_char
  read_message_until_char fuel fd stop = until_char fuel fd stop []

  read_until_rounds : ℕ → ℕ → ℤ → ℕ → Wait Message
  unfolding read_message_until_char
  read_until_rounds zero fuel fd stop = stuck
  read_until_rounds (suc rounds) fuel fd stop = do
    (r, bytes) ← read_message_until_char fuel fd stop
    if eq_ℤ r failure || ltb_ℤ (pos 0) r
        then pure (r, bytes)
        else read_until_rounds rounds fuel fd stop

  unfoldable pub read_nonzero_message_until_char : ℕ → ℤ → ℕ → Wait Message
  unfolding read_until_rounds
  read_nonzero_message_until_char fuel fd stop = read_until_rounds fuel fuel fd stop
