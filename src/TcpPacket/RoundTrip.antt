-- ===== src/TcpPacket/RoundTrip.antt =====
-- `str_to_tcp` on what `tcp_to_str` wrote: the packet, unless its data begin with a digit.
use network_layer_verificati.Prelude.{
  ℕ, ◌+◌, ◌-◌, ◌*◌, ◌^◌, ◌<◌, ◌≡◌, ◌≢◌, refl, sym, ◌∙◌, ap, true, false, Option, none, some, List,
  [], ◌∷◌, ◌++◌, arith, ltb, leb, lt→ltb, if◌then◌else◌, length, drop, drop-append, length-append,
  ℤ, pos, pos_part, IsString, IsString-append, until_nul, until_nul_of_string, append_assoc,
}
use network_layer_verificati.IpPacket.RoundTrip.{data_or_null}
use network_layer_verificati.Stdio.{
  print_int_zeros, print_int_spaces, print_int, dec, scan_int, scan_char,
}
use network_layer_verificati.Stdio.Laws.{
  scan_int-print_int_zeros, print_int_zeros-IsString, print_int_spaces-IsString,
  scan_int-print_int_spaces, scan_int-print_int_spaces_digit, length-print_int_zeros,
  length-pad_left,
}
use network_layer_verificati.Stdio.Decimal.{IsDigit, starts_with_digit, length-dec-le}
use network_layer_verificati.TcpPacket.{
  TcpPacket, tcp_text, tcp_to_str, str_to_tcp, parsed_payload, calc_checksum,
}

-- A packet whose numbers are not negative and fit their fields.
pub record IsPrintable (p : TcpPacket) : Type 0 where
  pub src : ℕ
  pub dst : ℕ
  pub seq : ℕ
  pub ack : ℕ
  pub sum : ℕ
  pub src_eq : p.src_port ≡ pos src
  pub dst_eq : p.dst_port ≡ pos dst
  pub seq_eq : p.seq_num ≡ pos seq
  pub ack_eq : p.ack_num ≡ pos ack
  pub sum_eq : p.checksum ≡ pos sum
  pub src_fits : src < 10 ^ 5
  pub dst_fits : dst < 10 ^ 5
  pub seq_fits : seq < 2 ^ 31
  pub ack_fits : ack < 2 ^ 31
  pub sum_fits : sum < 2 ^ 31
  pub flags_fit : (0 < p.flags) × (p.flags < 256)

-- the 41 bytes in front of the data
header : (p : TcpPacket) → IsPrintable p → List ℕ
header p h =
    print_int_zeros 5 (pos h.src)
    ++ (print_int_zeros 5 (pos h.dst)
        ++ (print_int_zeros 10 (pos h.seq)
            ++ (print_int_zeros 10 (pos h.ack) ++ (p.flags ∷ print_int_spaces 10 (pos h.sum)))))

tcp_text-header :
    (p : TcpPacket) (h : IsPrintable p) (text : List ℕ) → tcp_text p text ≡ header p h ++ text
unfolding tcp_text header
tcp_text-header p h text = rw (h.src_eq, h.dst_eq, h.seq_eq, h.ack_eq, h.sum_eq) (simp append_assoc)

length-header : (p : TcpPacket) (h : IsPrintable p) → length (header p h) ≡ 41
unfolding header print_int_spaces print_int
length-header p h = omega (
  arith,
  length-append (print_int_zeros 5 (pos h.src)) (
      print_int_zeros 5 (pos h.dst)
      ++ (print_int_zeros 10 (pos h.seq)
          ++ (print_int_zeros 10 (pos h.ack) ++ (p.flags ∷ print_int_spaces 10 (pos h.sum))))),
  length-append (print_int_zeros 5 (pos h.dst)) (
      print_int_zeros 10 (pos h.seq)
      ++ (print_int_zeros 10 (pos h.ack) ++ (p.flags ∷ print_int_spaces 10 (pos h.sum)))),
  length-append (print_int_zeros 10 (pos h.seq))
      (print_int_zeros 10 (pos h.ack) ++ (p.flags ∷ print_int_spaces 10 (pos h.sum))),
  length-append (print_int_zeros 10 (pos h.ack)) (p.flags ∷ print_int_spaces 10 (pos h.sum)),
  length-print_int_zeros 4 h.src (omega (arith, h.src_fits)),
  length-print_int_zeros 4 h.dst (omega (arith, h.dst_fits)),
  length-print_int_zeros 9 h.seq (omega (arith, h.seq_fits)),
  length-print_int_zeros 9 h.ack (omega (arith, h.ack_fits)),
  length-pad_left 10 32 (dec h.sum)
      (length-dec-le 10 h.sum (omega arith) (omega (arith, h.sum_fits))),
)

with_fields : (p : TcpPacket) (h : IsPrintable p) → ℤ → Option (List ℕ) → TcpPacket
with_fields p h sum payload = record {
  src_port = pos h.src;
  dst_port = pos h.dst;
  seq_num = pos h.seq;
  ack_num = pos h.ack;
  flags = p.flags;
  checksum = sum;
  payload = payload;
}

long_cases :
    (text : List ℕ) (s : List ℕ) (q : Option (List ℕ) → TcpPacket)
    → length s ≡ 41 + length text
    → drop 41 s ≡ text
    → (if ltb 41 (length s) then some (q (some (drop 41 s))) else some (q none))
      ≡ some (q (data_or_null text))
long_cases [] s q l e = ground arith
long_cases (c ∷ text) s q l e = rw (e, lt→ltb 41 (length s) (omega arith)) refl

parsed_payload_lem :
    (p : TcpPacket) (h : IsPrintable p) (text : List ℕ) (sum : ℤ)
    → parsed_payload true (header p h ++ text) (with_fields p h sum none)
      ≡ some (with_fields p h sum (data_or_null text))
unfolding parsed_payload with_fields
parsed_payload_lem p h text sum =
    long_cases text (header p h ++ text) (with_fields p h sum)
      (omega (arith, length-header p h, length-append (header p h) text))
      (drop-append (header p h) text 41 (sym (length-header p h)))

fields_same :
    (p : TcpPacket) (h : IsPrintable p) (sum : ℤ) (payload : Option (List ℕ))
    → with_fields p h sum payload ≡ record p { checksum = sum; payload = payload }
unfolding with_fields
fields_same p h sum payload = rw (h.src_eq, h.dst_eq, h.seq_eq, h.ack_eq)

-- What the six conversions read, given what the last of them reads.
str_to_tcp-header :
    (p : TcpPacket) (h : IsPrintable p) (text rest : List ℕ) (sum : ℤ)
    → scan_int 10 (print_int_spaces 10 (pos h.sum) ++ text) ≡ some (sum, rest)
    → str_to_tcp true true (header p h ++ text)
      ≡ some (record p { checksum = sum; payload = data_or_null text })
unfolding str_to_tcp header scan_char with_fields
str_to_tcp-header p h text rest sum e =
    rw
      (
        nested,
        scan_int-print_int_zeros 4 h.src _ (omega (arith, h.src_fits)) (omega (arith, h.src_fits)),
        scan_int-print_int_zeros 4 h.dst _ (omega (arith, h.dst_fits)) (omega (arith, h.dst_fits)),
        scan_int-print_int_zeros 9 h.seq _ (omega (arith, h.seq_fits)) h.seq_fits,
        scan_int-print_int_zeros 9 h.ack _ (omega (arith, h.ack_fits)) h.ack_fits,
      )
      (rw (e, ← nested)
        (parsed_payload_lem p h text sum ∙ ap some (fields_same p h sum (data_or_null text))))
  where
    nested :
        header p h ++ text
        ≡ print_int_zeros 5 (pos h.src)
          ++ (print_int_zeros 5 (pos h.dst)
              ++ (print_int_zeros 10 (pos h.seq)
                  ++ (print_int_zeros 10 (pos h.ack)
                      ++ (p.flags ∷ (print_int_spaces 10 (pos h.sum) ++ text)))))
    nested = simp append_assoc

header-IsString : (p : TcpPacket) (h : IsPrintable p) → IsString (header p h)
unfolding header
header-IsString p h =
    IsString-append (print_int_zeros 5 (pos h.src)) _ (print_int_zeros-IsString 5 h.src) (
      IsString-append (print_int_zeros 5 (pos h.dst)) _ (print_int_zeros-IsString 5 h.dst) (
        IsString-append (print_int_zeros 10 (pos h.seq)) _ (print_int_zeros-IsString 10 h.seq) (
          IsString-append (print_int_zeros 10 (pos h.ack)) _ (print_int_zeros-IsString 10 h.ack)
            (h.flags_fit, print_int_spaces-IsString 10 h.sum))))

-- What `sprintf` writes for a printable packet fills the 41 bytes of the header, and the data.
pub length-tcp_text :
    (p : TcpPacket) → IsPrintable p → (text : List ℕ) → length (tcp_text p text) ≡ 41 + length text
length-tcp_text p h text =
    ap length (tcp_text-header p h text)
    ∙ omega (arith, length-header p h, length-append (header p h) text)

tcp_to_str-header :
    (p : TcpPacket) (h : IsPrintable p) (text : List ℕ)
    → p.payload ≡ some text
    → IsString text
    → tcp_to_str true p ≡ some (some (header p h ++ text))
unfolding tcp_to_str
tcp_to_str-header p h text e chars =
    let fits : leb (length (tcp_text p text) + 1) (41 + length text + 1) ≡ true =
      ground (arith, length-tcp_text p h text) in
    rw (e, fits)
      (ap (λ s. some (some s))
        (ap until_nul (tcp_text-header p h text)
          ∙ until_nul_of_string (header p h ++ text)
              (IsString-append (header p h) text (header-IsString p h) chars)))

-- A packet whose numbers fit their fields, with flags and a text as data that does not begin with
-- a digit, comes back from its text form of 41 bytes and the data unchanged, but that empty data
-- come back as NULL.
pub str_to_tcp-tcp_to_str :
    (p : TcpPacket)
    → IsPrintable p
    → (text : List ℕ) → p.payload ≡ some text
    → IsString text
    → starts_with_digit text ≡ false
    → (s : List ℕ) × (tcp_to_str true p ≡ some (some s))
      × (length s ≡ 41 + length text)
      × (str_to_tcp true true s ≡ some (record p { payload = data_or_null text }))
str_to_tcp-tcp_to_str p h text e chars no_digit = (
  header p h ++ text,
  tcp_to_str-header p h text e chars,
  omega (arith, length-header p h, length-append (header p h) text),
  str_to_tcp-header p h text text (pos h.sum)
        (scan_int-print_int_spaces h.sum text h.sum_fits no_digit)
      ∙ ap (λ z. some (record p { checksum = z; payload = data_or_null text })) (sym h.sum_eq),
)

-- A packet with data that begin with exactly one digit, and a checksum between 1 and 10 ^ 8, is
-- read with the digit taken into its checksum: it comes back with all but the checksum, and fails
-- the check of the receiver if it passed that of the sender.
pub str_to_tcp-digit_data :
    (p : TcpPacket) (h : IsPrintable p) (c : ℕ) (rest : List ℕ)
    → p.payload ≡ some (c ∷ rest)
    → IsString rest
    → IsDigit c
    → starts_with_digit rest ≡ false
    → 0 < h.sum
    → h.sum < 10 ^ 8
    → calc_checksum p ≡ p.checksum
    → (s : List ℕ) × (q : TcpPacket) × (tcp_to_str true p ≡ some (some s))
      × (str_to_tcp true true s ≡ some q)
      × (q ≡ record p { checksum = pos (h.sum * 10 + (c - b'0')) })
      × (calc_checksum q ≢ q.checksum)
unfolding calc_checksum
str_to_tcp-digit_data p h c rest e chars digit no_digit large small sender = (
  header p h ++ c ∷ rest,
  record p { checksum = pos (h.sum * 10 + (c - b'0')) },
  tcp_to_str-header p h (c ∷ rest) e ((omega arith, omega arith), chars),
  str_to_tcp-header p h (c ∷ rest) rest (pos (h.sum * 10 + (c - b'0')))
        (scan_int-print_int_spaces_digit h.sum c rest small digit no_digit)
      ∙ ap (λ d. some (record p { checksum = pos (h.sum * 10 + (c - b'0')); payload = d })) (sym e),
  refl,
  λ same. differs h.sum c large digit (sym (sym sender ∙ same) ∙ h.sum_eq),
)
  where
    differs : (n d : ℕ) → 0 < n → IsDigit d → pos (n * 10 + (d - b'0')) ≢ pos n
    differs n d h k e = absurd (omega (arith, ap pos_part e))
