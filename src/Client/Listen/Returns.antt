-- ===== src/Client/Listen/Returns.antt =====
-- `SocketListen` of network.c does not wait for ever.
use network_layer_verificati.Prelude.{
  ℕ, zero, suc, ◌+◌, ◌≤◌, ◌<◌, ◌≡◌, refl, Bool, true, false, Bool-cases, inl, inr, Option, none,
  some, is_some, List, ◌∷◌, arith, ℤ, pos, ◌-ℤ◌, eq_ℤ, ltb_ℤ, ◌||◌,
}
use network_layer_verificati.SocketId.{SocketId, get_socket_state}
use network_layer_verificati.Os.{Answers, Trace, OpenMode, open_file, read_clock, close_file}
use network_layer_verificati.Fifo.{Name, failure, no_fd, is_bound_only}
use network_layer_verificati.Fifo.Io.{makes}
use network_layer_verificati.Fifo.Read.{Message, read_entire_message}
use network_layer_verificati.Fifo.Read.Polling.{clock_reads, ReadsOn, read_one-ReadsOn}
use network_layer_verificati.Socket.{longer_than, socket_timeout}
use network_layer_verificati.Client.{
  Client, Run, ◌>>=◌, continue, pure, sys, resume, close, unlink, unlink_both, invalid_argument,
}
use network_layer_verificati.Client.Returns.{
  Returns, continue-is_some, bind-Returns, branch-Returns, pure-Returns, sys-Returns,
  unless_null-Returns,
}
use network_layer_verificati.Client.Listen.{
  Answer, await_answer, take_answer, look_again, leave_listen, await_listen, asked_listen,
  request_listen, listen_on, make_listen, listen_fifo_names, listen_through, socket_listen,
  make_pair, open_pair, status_of,
}

-- The clock moves on: after `n` looks at it, ten seconds have passed.
abbrev pub ClockPasses : Answers → ℕ → Type 0
ClockPasses os n =
    (t₀ t : Trace)
    → n + clock_reads t₀ ≤ clock_reads t
    → longer_than socket_timeout (os t read_clock -ℤ os t₀ read_clock) ≡ true

-- Where a run of the loop has a result.
abbrev HasResult : {A : Type 0} → Option (A × Client) → Type 0
HasResult o = is_some o ≡ true

waits-HasResult :
    {B : Type 0} (c : Client) (f : Message → Run B) (o : Option (Message × Trace))
    → ReadsOn c.trace o
    → ((m : Message) (t : Trace)
        → clock_reads t ≡ clock_reads c.trace
        → HasResult (f m (record c { trace = t })))
    → HasResult (continue f (resume c o))
waits-HasResult c f none h g = absurd h
waits-HasResult c f (some (m, t)) h g = g m t h

look_again-HasResult :
    (os : Answers) (rest : Run Answer) (start : ℤ) (c : Client)
    → (longer_than socket_timeout (os c.trace read_clock -ℤ start) ≡ false
        → HasResult (rest (record c { trace = read_clock ∷ c.trace })))
    → HasResult (look_again os rest start c)
unfolding look_again
look_again-HasResult os rest start c g =
    elim (Bool-cases (longer_than socket_timeout (os c.trace read_clock -ℤ start))) [
      | inl e ↦ rw e refl
      | inr e ↦ rw e (g e)
    ]

take_answer-HasResult :
    (os : Answers) (rest : Run Answer) (start : ℤ) (m : Message) (c : Client)
    → HasResult (look_again os rest start c)
    → HasResult (take_answer os rest start m c)
unfolding take_answer
take_answer-HasResult os rest start (r, answer) c h = elim (Bool-cases (eq_ℤ r failure)) [
  | inl e ↦ rw e refl
  | inr e ↦ elim (Bool-cases (eq_ℤ r (pos 1))) [ inl f ↦ rw (e, f) refl | inr f ↦ rw (e, f) h ]
]

await_answer-HasResult :
    (os : Answers) (n fuel rounds : ℕ) (fd : ℤ) (t₀ : Trace) (c : Client)
    → ClockPasses os n
    → 1 ≤ rounds
    → n + clock_reads t₀ < clock_reads c.trace + rounds
    → HasResult (await_answer os rounds (suc fuel) fd (os t₀ read_clock) c)
unfolding await_answer
await_answer-HasResult os n fuel zero fd t₀ c p one h = absurd (omega arith)
await_answer-HasResult os n fuel (suc rounds) fd t₀ c p one h =
    waits-HasResult c
      (take_answer os (await_answer os rounds (suc fuel) fd (os t₀ read_clock)) (os t₀ read_clock))
      (read_entire_message os (suc fuel) fd (pos 1) c.trace) (read_one-ReadsOn os fuel fd c.trace)
      (λ m t same.
        take_answer-HasResult os _ _ m (record c { trace = t })
          (look_again-HasResult os _ _ (record c { trace = t })
            (λ early.
              let few : clock_reads t < n + clock_reads t₀ = ground (arith, early, p t₀ t) in
              await_answer-HasResult os n fuel rounds fd t₀ (record c { trace = read_clock ∷ t }) p
                (omega (arith, same)) (omega (arith, same)))))

module _ (os : Answers) where
  leave_listen-Returns : (fd : ℤ) (a b : List ℕ) → Returns (leave_listen os fd a b)
  unfolding leave_listen close unlink_both unlink
  leave_listen-Returns fd a b c = refl

  make_pair-Returns : (a b : List ℕ) → Returns (make_pair os a b)
  unfolding make_pair
  make_pair-Returns a b = bind-Returns (sys (makes os a)) _ (sys-Returns (makes os a)) (λ made.
      branch-Returns made (sys (makes os b)) (pure false) (sys-Returns (makes os b))
        (pure-Returns false))

  open_pair-Returns : (a b : List ℕ) → Returns (open_pair os a b)
  unfolding open_pair close unlink_both unlink
  open_pair-Returns a b c =
      elim (Bool-cases (eq_ℤ (os c.trace (open_file b OpenMode.read_only)) no_fd)) [
        | inl e ↦ rw e refl
        | inr e ↦
            elim (Bool-cases (
              eq_ℤ (os (open_file b OpenMode.read_only ∷ c.trace) (open_file a OpenMode.write_only))
                no_fd)) [ inl f ↦ rw (e, f) refl | inr f ↦ rw (e, f) refl ]
      ]

module _ (os : Answers) (n fuel : ℕ) (passes : ClockPasses os n) (enough : n ≤ fuel) where
  await_listen-Returns : (fd : ℤ) (a b : List ℕ) → Returns (await_listen os (suc fuel) fd a b)
  unfolding await_listen
  await_listen-Returns fd a b c =
      continue-is_some (λ answer. leave_listen os fd a b >>= (λ _. pure (status_of answer)))
        (await_answer os (suc fuel) (suc fuel) fd (os c.trace read_clock) now)
        (await_answer-HasResult os n fuel (suc fuel) fd c.trace now passes (omega arith)
          (omega arith))
        (λ answer.
          bind-Returns (leave_listen os fd a b) (λ _. pure (status_of answer))
            (leave_listen-Returns os fd a b) (λ _. pure-Returns (status_of answer)))
    where
      now : Client
      now = record c { trace = read_clock ∷ c.trace }

  asked_listen-Returns :
      (read_fd write_fd : ℤ) (a b : List ℕ) (written : ℤ)
      → Returns (asked_listen os (suc fuel) read_fd write_fd a b written)
  unfolding asked_listen close unlink_both unlink
  asked_listen-Returns read_fd write_fd a b written c = elim (Bool-cases (eq_ℤ written (pos 1))) [
    | inl e ↦
        rw e (await_listen-Returns read_fd b a (record c { trace = close_file write_fd ∷ c.trace }))
    | inr e ↦ rw e refl
  ]

  request_listen-Returns :
      (limit : ℤ) (a b : List ℕ) (fds : Option (ℤ × ℤ))
      → Returns (request_listen os (suc fuel) limit a b fds)
  unfolding request_listen
  request_listen-Returns limit a b none c = refl
  request_listen-Returns limit a b (some (read_fd, write_fd)) c = search asked_listen-Returns

  listen_on-Returns :
      (limit : ℤ) (a b : List ℕ) (made : Bool) → Returns (listen_on os (suc fuel) limit a b made)
  unfolding listen_on
  listen_on-Returns limit a b false c = refl
  listen_on-Returns limit a b true c =
      bind-Returns (open_pair os a b) (request_listen os (suc fuel) limit a b)
        (open_pair-Returns os a b) (request_listen-Returns limit a b) c

  make_listen-Returns : (limit : ℤ) (a b : List ℕ) → Returns (make_listen os (suc fuel) limit a b)
  unfolding make_listen
  make_listen-Returns limit a b =
      bind-Returns (make_pair os a b) (listen_on os (suc fuel) limit a b) (make_pair-Returns os a b)
        (listen_on-Returns limit a b)

  listen_through-Returns :
      (limit : ℤ) (a b : Name) → Returns (listen_through os (suc fuel) limit a b)
  unfolding listen_through
  listen_through-Returns limit none b c = refl
  listen_through-Returns limit (some a) none c = refl
  listen_through-Returns limit (some a) (some b) c = make_listen-Returns limit a b c

  listen_fifo_names-Returns :
      (limit : ℤ) (f : SocketId) → Returns (listen_fifo_names os (suc fuel) limit f)
  unfolding listen_fifo_names
  listen_fifo_names-Returns limit f c = search listen_through-Returns

  -- `SocketListen` returns for every socket and limit, whatever the system answers, if the clock
  -- moves on: more rounds of its loop than the looks at the clock in ten seconds are enough.
  pub socket_listen-Returns :
      (sockid : Option ℕ) (queue_limit : ℤ) (c : Client)
      → is_some (socket_listen os (suc fuel) sockid queue_limit c) ≡ true
  unfolding socket_listen
  socket_listen-Returns sockid limit =
      branch-Returns (ltb_ℤ limit (pos 0) || ltb_ℤ (pos 100) limit) _ _
        (pure-Returns invalid_argument)
        (unless_null-Returns sockid _ _ (λ i c.
          branch-Returns (is_bound_only (get_socket_state (some (c.ids i))))
            (listen_fifo_names os (suc fuel) limit (c.ids i)) (pure invalid_argument)
            (listen_fifo_names-Returns limit (c.ids i)) (pure-Returns invalid_argument) c))
