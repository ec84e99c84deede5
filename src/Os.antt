-- ===== src/Os.antt =====
-- The operating system and the C library, as the sources call them: a parameter. What a call
-- answers is a function of the calls before it, the last first, which are recorded. The strings
-- that the code allocates for a while are values, so that their `free` is not recorded.
pub mod Waiting
use network_layer_verificati.Prelude.{
  ℕ, zero, suc, ◌%◌, Bool, not, List, [], ◌∷◌, ℤ, pos, pos_part, eq_ℤ,
}

pub data OpenMode : Type 0 where
  read_write read_only write_only write_only_nonblock read_only_nonblock : OpenMode

pub data Call : Type 0 where
  -- `malloc`; 0 stands for NULL
  allocate : Call
  release_id release_sock : ℕ → Call
  open_file : List ℕ → OpenMode → Call
  make_fifo remove_file : List ℕ → Call
  close_file : ℤ → Call
  write_file : ℤ → List ℕ → Call
  read_clock read_time read_rand : Call
  seed_rand : ℤ → Call
  -- `read` of so many bytes, which answers with the number of bytes read
  read_file : ℤ → ℕ → Call
  process_id : Call
  -- `stat` and `mkdir` of the directory of the fifos
  stat_directory make_directory : Call
  -- These two are no calls and are not recorded: the byte at a place of the buffer that the last
  -- `read` filled, and the value of `errno`.
  received : ℕ → Call
  error_number : Call

abbrev pub Trace : Type 0
Trace = List Call

abbrev pub Answers : Type 0
Answers = Trace → Call → ℤ

-- code that does nothing but call the system
abbrev pub Sys : Type 0 → Type 0
Sys A = Trace → A × Trace

infixl 5 ◌>>=◌
abbrev pub ◌>>=◌ : {A : Type 0} {B : Type 0} → Sys A → (A → Sys B) → Sys B
(m >>= f) t = let (a, t') = m t in f a t'

abbrev pub pure : {A : Type 0} → A → Sys A
pure a t = (a, t)

-- an answer as a byte
abbrev pub byte_of : ℤ → ℕ
byte_of z = pos_part z % 256

module _ (os : Answers) where
  abbrev pub call : Call → Sys ℤ
  call c t = (os t c, c ∷ t)

  abbrev pub succeeded : Call → Sys Bool
  succeeded c t = (eq_ℤ (os t c) (pos 0), c ∷ t)

  -- whether `malloc` gave memory
  abbrev pub allocated : Sys Bool
  allocated t = (not (eq_ℤ (os t allocate) (pos 0)), allocate ∷ t)

  -- the bytes that the last `read` put into its buffer, `n` of them from place `i` on
  abbrev pub received_bytes : ℕ → ℕ → Trace → List ℕ
  received_bytes zero i t = []
  received_bytes (suc n) i t = byte_of (os t (received i)) ∷ received_bytes n (suc i) t

  -- `errno == EAGAIN`
  abbrev pub would_block : Sys Bool
  would_block t = (eq_ℤ (os t error_number) (pos 11), t)
