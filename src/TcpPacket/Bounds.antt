-- ===== src/TcpPacket/Bounds.antt =====
-- The buffer of `tcp_to_str`, of 41 bytes, the data and a NUL, against what `sprintf` writes.
use network_layer_verificati.Prelude.{
  ℕ, suc, ◌+◌, ◌^◌, ◌≤◌, ◌<◌, ◌≡◌, ◌∙◌, List, ◌∷◌, ◌++◌, arith, length, length-append, pos, negsuc,
  true, lt→ltb, ◌-◌, replicate, length-replicate, to_int, ◌+ℤ◌, ltb,
}
use network_layer_verificati.Stdio.{print_int_zeros, print_int_spaces, print_int, dec, pad_left}
use network_layer_verificati.Stdio.Decimal.{length-dec-ge, length-dec-le}
use network_layer_verificati.Stdio.Laws.{length-print_int_zeros}
use network_layer_verificati.TcpPacket.{TcpPacket, tcp_text, calc_checksum}

wrapped_sum :
    (a b c d f : ℕ)
    → a < 10 ^ 5
    → b < 10 ^ 5
    → c < 2 ^ 31
    → d < 2 ^ 31
    → f < 128
    → 2 ^ 31 ≤ a + b + c + d + f
    → a + b + c + d + f ≤ 2 ^ 32 - 10 ^ 9
    → (m : ℕ) × (to_int (to_int (to_int (to_int (pos a +ℤ pos b) +ℤ pos c) +ℤ pos d) +ℤ pos f)
        ≡ negsuc m)
      × (10 ^ 9 ≤ suc m)
      × (suc m ≤ 2 ^ 31)
unfolding to_int ◌+ℤ◌
wrapped_sum a b c d f ha hb hc hd hf lo hi =
    (2 ^ 32 - (a + b + c + d + f) - 1, ground arith, omega arith, omega arith)

length_wide :
    (m : ℕ) → 10 ^ 9 ≤ suc m → suc m ≤ 2 ^ 31 → length (print_int_spaces 10 (negsuc m)) ≡ 11
unfolding print_int_spaces print_int pad_left
length_wide m lo hi = omega (
  arith,
  length-append (replicate (10 - suc (length (dec (suc m)))) 32) (b'-' ∷ dec (suc m)),
  length-replicate (10 - suc (length (dec (suc m)))) (wide 32),
  length-dec-ge 9 (suc m) (omega arith) (omega arith),
  length-dec-le 10 (suc m) (omega arith) (omega arith),
)
  where
    wide : ℕ → ℕ
    wide n = n

-- Where the sum of the header's fields passes the range of `int` by no more than 2 ^ 31 - 10 ^ 9,
-- its checksum is negative with ten digits, and `sprintf` writes 42 bytes, the data and a NUL: one
-- byte more than the buffer of `tcp_to_str` has.
pub tcp_text-overflow :
    (p : TcpPacket) (a b c d : ℕ) (text : List ℕ)
    → p.src_port ≡ pos a
    → p.dst_port ≡ pos b
    → p.seq_num ≡ pos c
    → p.ack_num ≡ pos d
    → p.checksum ≡ calc_checksum p
    → a < 10 ^ 5
    → b < 10 ^ 5
    → c < 2 ^ 31
    → d < 2 ^ 31
    → p.flags < 128
    → 2 ^ 31 ≤ a + b + c + d + p.flags
    → a + b + c + d + p.flags ≤ 2 ^ 32 - 10 ^ 9
    → length (tcp_text p text) ≡ 42 + length text
unfolding tcp_text calc_checksum
tcp_text-overflow p a b c d text ea eb ec ed es ha hb hc hd hf lo hi =
    let (m, e, wide, fits) = wrapped_sum a b c d p.flags ha hb hc hd hf lo hi in
    let sum : p.checksum ≡ negsuc m = es ∙ (rw (ea, eb, ec, ed, small) e) in
    rw (ea, eb, ec, ed, sum)
      (omega (
        arith,
        length-append (print_int_zeros 5 (pos a)) (
            print_int_zeros 5 (pos b)
            ++ (print_int_zeros 10 (pos c)
                ++ (print_int_zeros 10 (pos d)
                    ++ (p.flags ∷ (print_int_spaces 10 (negsuc m) ++ text))))),
        length-append (print_int_zeros 5 (pos b)) (
            print_int_zeros 10 (pos c)
            ++ (print_int_zeros 10 (pos d)
                ++ (p.flags ∷ (print_int_spaces 10 (negsuc m) ++ text)))),
        length-append (print_int_zeros 10 (pos c))
            (print_int_zeros 10 (pos d) ++ (p.flags ∷ (print_int_spaces 10 (negsuc m) ++ text))),
        length-append (print_int_zeros 10 (pos d))
            (p.flags ∷ (print_int_spaces 10 (negsuc m) ++ text)),
        length-append (print_int_spaces 10 (negsuc m)) text,
        length-print_int_zeros 4 a (omega arith),
        length-print_int_zeros 4 b (omega arith),
        length-print_int_zeros 9 c (omega arith),
        length-print_int_zeros 9 d (omega arith),
        length_wide m wide fits,
      ))
  where
    small : ltb p.flags 128 ≡ true
    small = lt→ltb p.flags 128 hf
