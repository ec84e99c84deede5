-- ===== src/Fifo/Read/Polling.antt =====
-- `read_entire_message` of fifo_utils.c for a single byte: it always returns.
use network_layer_verificati.Prelude.{
  ℕ, zero, suc, ◌-◌, ◌≡◌, refl, Option, none, some, List, [], ◌∷◌, arith, ℤ, pos, negsuc,
}
use network_layer_verificati.Os.{Answers, Trace, Call, read_file}
use network_layer_verificati.Fifo.Read.{
  Message, read_entire_message, first_part, read_bytes, unread, fill_message,
}

-- how often a trace looks at the clock
abbrev pub clock_reads : Trace → ℕ
clock_reads [] = 0
clock_reads (Call.read_clock ∷ t) = suc (clock_reads t)
clock_reads (_ ∷ t) = clock_reads t

-- A read gives a result and does not look at the clock.
abbrev pub ReadsOn : Trace → Option (Message × Trace) → Type 0
ReadsOn t none = ⊥
ReadsOn t (some (_, t')) = clock_reads t' ≡ clock_reads t

pub read_one-ReadsOn :
    (os : Answers) (fuel : ℕ) (fd : ℤ) (t : Trace)
    → ReadsOn t (read_entire_message os (suc fuel) fd (pos 1) t)
unfolding read_entire_message read_bytes first_part fill_message unread
read_one-ReadsOn os fuel fd t = by_result (os t (read_file fd 1)) _
  where
    by_result :
        (r : ℤ) (bytes : List ℕ)
        → ReadsOn t (first_part os (suc fuel) fd 1 r bytes (read_file fd 1 ∷ t))
    by_result (pos zero) bytes = refl
    by_result (pos (suc n)) bytes = let none_left : 1 - suc n ≡ 0 = omega arith in rw none_left refl
    by_result (negsuc n) bytes = refl
