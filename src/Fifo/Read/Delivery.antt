-- ===== src/Fifo/Read/Delivery.antt =====
-- What the reads of fifo_utils.c deliver, and that they end.
use network_layer_verificati.Prelude.{
  ℕ, zero, suc, ◌+◌, ◌-◌, ◌≤◌, ◌<◌, ◌≡◌, ◌≢◌, refl, ◌∙◌, ap, true, false, Option, none, some, List,
  [], ◌∷◌, ◌++◌, arith, length, length-append, ◌==◌, ℤ, pos, All, append_assoc, append-nil, subst,
  sym,
}
use network_layer_verificati.Os.{Answers, Trace, read_file, received, byte_of, received_bytes}
use network_layer_verificati.Fifo.Read.{
  read_message_until_char, until_char, read_byte, read_entire_message, fill_message, first_part,
  read_bytes, Message,
}

-- the trace after so many reads of one byte
abbrev pub reads : ℤ → List ℕ → Trace → Trace
reads fd [] t = t
reads fd (c ∷ cs) t = reads fd cs (read_file fd 1 ∷ t)

-- The system has these bytes to read, one after the other.
abbrev pub Supplies : Answers → ℤ → List ℕ → Trace → Type 0
Supplies os fd [] t = Unit
Supplies os fd (c ∷ cs) t =
    (os t (read_file fd 1) ≡ pos 1)
    × (byte_of (os (read_file fd 1 ∷ t) (received 0)) ≡ c)
    × Supplies os fd cs (read_file fd 1 ∷ t)

until_char-Supplies :
    (os : Answers) (fd : ℤ) (stop : ℕ) (before bytes : List ℕ) (fuel : ℕ) (t : Trace)
    → All (λ c. c ≢ stop) bytes
    → Supplies os fd (bytes ++ stop ∷ []) t
    → length bytes < fuel
    → until_char os fuel fd stop before t
      ≡ some (
        (pos (length (before ++ (bytes ++ stop ∷ []))), before ++ (bytes ++ stop ∷ [])),
        reads fd (bytes ++ stop ∷ []) t,
      )
unfolding until_char read_byte
until_char-Supplies os fd stop before bytes zero t n s h = absurd (omega arith)
until_char-Supplies os fd stop before [] (suc fuel) t n (r, b, _) h =
    let same : stop == stop ≡ true = ground arith in rw (r, b, same) refl
until_char-Supplies os fd stop before (c ∷ bytes) (suc fuel) t n (r, b, s) h =
    let other : c == stop ≡ false = ground (arith, n.0) in
    rw (r, b, other)
      (until_char-Supplies os fd stop (before ++ c ∷ []) bytes fuel (read_file fd 1 ∷ t) n.1 s
          (omega arith)
        ∙ ap (λ m. some ((pos (length m), m), reads fd (bytes ++ stop ∷ []) (read_file fd 1 ∷ t)))
            (append_assoc before (c ∷ []) (bytes ++ stop ∷ [])))

-- If a message and its stop byte can be read from a descriptor, `read_message_until_char` returns
-- with all of it and its length, and reads nothing behind it. More fuel than the message has bytes
-- is enough.
pub read_message_until_char-Supplies :
    (os : Answers) (fd : ℤ) (stop : ℕ) (bytes : List ℕ) (fuel : ℕ) (t : Trace)
    → All (λ c. c ≢ stop) bytes
    → Supplies os fd (bytes ++ stop ∷ []) t
    → length bytes < fuel
    → read_message_until_char os fuel fd stop t
      ≡ some ((pos (suc (length bytes)), bytes ++ stop ∷ []), reads fd (bytes ++ stop ∷ []) t)
unfolding read_message_until_char
read_message_until_char-Supplies os fd stop bytes fuel t n s h =
    until_char-Supplies os fd stop [] bytes fuel t n s h
    ∙ ap (λ k. some ((pos k, bytes ++ stop ∷ []), reads fd (bytes ++ stop ∷ []) t))
        (omega (arith, length-append bytes (stop ∷ [])))

-- A `read` of this descriptor gives one byte at least, and no more than it is asked for.
abbrev pub ReadsSome : Answers → ℤ → Type 0
ReadsSome os fd =
    (t : Trace) (n : ℕ) → 1 ≤ n → (k : ℕ) × (os t (read_file fd n) ≡ pos k) × (1 ≤ k) × (k ≤ n)

abbrev pub joined : List (List ℕ) → List ℕ
joined [] = []
joined (part ∷ parts) = part ++ joined parts

-- The reads of these parts, the first first: each asks for the bytes that are left, and the system
-- gives the part. The last of them leaves nothing to be read.
abbrev pub Delivers : Answers → ℤ → ℕ → List (List ℕ) → Trace → Trace → Type 0
Delivers os fd left [] t t' = (left ≡ 0) × (t' ≡ t)
Delivers os fd left (part ∷ parts) t t' =
    (os t (read_file fd left) ≡ pos (length part))
    × (part ≡ received_bytes os (length part) 0 (read_file fd left ∷ t))
    × Delivers os fd (left - length part) parts (read_file fd left ∷ t) t'

-- The call returns with the bytes so far, and behind them the bytes of the parts it reads, in order;
-- together they are exactly `len` bytes.
abbrev pub Fills : Answers → ℤ → ℕ → ℕ → List ℕ → Trace → Option (Message × Trace) → Type 0
Fills os fd len left before t none = ⊥
Fills os fd len left before t (some ((r, bytes), t')) =
    (r ≡ pos len)
    × (length bytes ≡ len)
    × (parts : List (List ℕ)) × (bytes ≡ before ++ joined parts)
    × Delivers os fd left parts t t'

length-received_bytes : (os : Answers) (n i : ℕ) (t : Trace) → length (received_bytes os n i t) ≡ n
length-received_bytes os zero i t = refl
length-received_bytes os (suc n) i t = ap suc (length-received_bytes os n (suc i) t)

-- One more part in front.
with_part :
    (os : Answers) (fd : ℤ) (len left k : ℕ) (before : List ℕ) (t : Trace)
    (o : Option (Message × Trace))
    → os t (read_file fd left) ≡ pos k
    → Fills os fd len
        (left - k)
        (before ++ received_bytes os k 0 (read_file fd left ∷ t))
        (read_file fd left ∷ t)
        o
    → Fills os fd len left before t o
with_part os fd len left k before t none e f = f
with_part os fd len left k before t (some ((r, bytes), t')) e (is_len, size, parts, j, d) =
    let part : List ℕ = received_bytes os k 0 (read_file fd left ∷ t) in
    let long : length part ≡ k = length-received_bytes os k 0 (read_file fd left ∷ t) in
    (
      is_len,
      size,
      part ∷ parts,
      j ∙ append_assoc before part (joined parts),
      (
        e ∙ ap pos (sym long),
        ap (λ n. received_bytes os n 0 (read_file fd left ∷ t)) (sym long),
        subst (λ n. Delivers os fd (left - n) parts (read_file fd left ∷ t) t') (sym long) d,
      ),
    )

fill_message-ReadsSome :
    (os : Answers) (fd : ℤ) (len left : ℕ) (bytes : List ℕ) (fuel : ℕ) (t : Trace)
    → ReadsSome os fd
    → length bytes + left ≡ len
    → left < fuel
    → Fills os fd len left bytes t (fill_message os fuel fd len left bytes t)
unfolding fill_message read_bytes
fill_message-ReadsSome os fd len left bytes zero t s e h = absurd (omega arith)
fill_message-ReadsSome os fd len zero bytes (suc fuel) t s e h =
    (refl, omega arith, [], sym (append-nil bytes), (refl, refl))
fill_message-ReadsSome os fd len (suc left) bytes (suc fuel) t s e h =
    let (k, r, some_byte, few) = s t (suc left) (omega arith) in
    rw (r, r)
      (with_part os fd len (suc left) k bytes t _ r (
        fill_message-ReadsSome os fd len (suc left - k)
          (bytes ++ received_bytes os k 0 (read_file fd (suc left) ∷ t)) fuel
          (read_file fd (suc left) ∷ t) s
          (omega (
            arith,
            length-append bytes (received_bytes os k 0 (read_file fd (suc left) ∷ t)),
            length-received_bytes os k 0 (read_file fd (suc left) ∷ t),
          ))
          (omega arith)))

-- `read_entire_message` returns with exactly the bytes it is asked for, in the order in which they
-- come and in however many parts, and reads nothing else, if each `read` gives some. More fuel than
-- bytes is enough.
pub read_entire_message-ReadsSome :
    (os : Answers) (fd : ℤ) (len fuel : ℕ) (t : Trace)
    → ReadsSome os fd
    → 1 ≤ len
    → len ≤ fuel
    → Fills os fd len len [] t (read_entire_message os fuel fd (pos len) t)
unfolding read_entire_message read_bytes first_part
read_entire_message-ReadsSome os fd len fuel t s one enough =
    let (k, r, some_byte, few) = s t len one in
    rw r (with_part os fd len len k [] t _ r (rest k some_byte few))
  where
    rest :
        (k : ℕ)
        → 1 ≤ k
        → k ≤ len
        → Fills os fd len
            (len - k)
            (received_bytes os k 0 (read_file fd len ∷ t))
            (read_file fd len ∷ t)
            (first_part os fuel fd len
              (pos k)
              (received_bytes os k 0 (read_file fd len ∷ t))
              (read_file fd len ∷ t))
    rest zero some_byte few = absurd (omega arith)
    rest (suc k) some_byte few =
        fill_message-ReadsSome os fd len (len - suc k)
          (received_bytes os (suc k) 0 (read_file fd len ∷ t)) fuel (read_file fd len ∷ t) s
          (omega (arith, length-received_bytes os (suc k) 0 (read_file fd len ∷ t))) (omega arith)
