-- ===== src/TcpPacket.antt =====
-- tcp.c and tcp.h: TCP packets, their text form and their checksum. `construct_packet` takes a
-- socket, and stands in Socket. Each `Bool` in front is whether a `malloc` gave memory.
pub mod RoundTrip
pub mod Bounds
use network_layer_verificati.Prelude.{
  ℕ, ◌+◌, ◌-◌, ◌/◌, ◌%◌, Bool, true, false, Option, none, some, List, [], ◌∷◌, ◌++◌, ltb, leb, ◌==◌,
  if◌then◌else◌, length, drop, ℤ, pos, ◌+ℤ◌, to_int, until_nul,
}
use network_layer_verificati.IpPacket.{char_value}
use network_layer_verificati.Stdio.{print_int_zeros, print_int_spaces, scan_int, scan_char}

-- `TCP_FLAGS`
abbrev pub ack_flag : ℕ
ack_flag = 1

abbrev pub fin_flag : ℕ
fin_flag = 2

abbrev pub rst_flag : ℕ
rst_flag = 4

abbrev pub syn_flag : ℕ
syn_flag = 8

-- `flags & flag`, for a flag that is a power of two
abbrev pub has_flag : ℕ → ℕ → Bool
has_flag flags flag = flags / flag % 2 == 1

-- `TCPPacket`; `flags` is the byte of the `char`, and `data` may be NULL
pub record TcpPacket : Type 0 where
  pub src_port : ℤ
  pub dst_port : ℤ
  pub seq_num : ℤ
  pub ack_num : ℤ
  pub flags : ℕ
  pub checksum : ℤ
  pub payload : Option (List ℕ)

infixl 5 ◌>>=◌
abbrev pub ◌>>=◌ {ℓ κ} : {A : Type ℓ} {B : Type κ} → Option A → (A → Option B) → Option B
none >>= f = none
some a >>= f = f a

-- `tcp_str_repr`, "%05d%05d%010d%010d%c%10d%s": all that `sprintf` writes but the last NUL
unfoldable pub tcp_text : TcpPacket → List ℕ → List ℕ
tcp_text p text =
    print_int_zeros 5 p.src_port
    ++ (print_int_zeros 5 p.dst_port
        ++ (print_int_zeros 10 p.seq_num
            ++ (print_int_zeros 10 p.ack_num
                ++ (p.flags ∷ (print_int_spaces 10 p.checksum ++ text)))))

-- The string in the buffer of 41 bytes, the data and a NUL; `some none` is NULL. There is no result,
-- `none`, for the `strlen` of data that are NULL, and where `sprintf` writes behind the buffer.
unfoldable pub tcp_to_str : Bool → TcpPacket → Option (Option (List ℕ))
unfolding tcp_text
tcp_to_str allocated p = do
  text ← p.payload
  if allocated
      then if leb (length (tcp_text p text) + 1) (41 + length text + 1)
        then some (some (until_nul (tcp_text p text)))
        else none
      else some none

-- the data behind the 41 bytes of the header
unfoldable pub parsed_payload : Bool → List ℕ → TcpPacket → Option TcpPacket
parsed_payload allocated s p =
    if ltb 41 (length s)
    then if allocated then some (record p { payload = some (drop 41 s) }) else none
    else some p

-- `tcp_str_repr_no_data`: all six conversions have to match
unfoldable pub str_to_tcp : Bool → Bool → List ℕ → Option TcpPacket
str_to_tcp false data_allocated s = none
str_to_tcp true data_allocated s = do
  (src_port, s₁) ← scan_int 5 s
  (dst_port, s₂) ← scan_int 5 s₁
  (seq_num, s₃) ← scan_int 10 s₂
  (ack_num, s₄) ← scan_int 10 s₃
  (flags, s₅) ← scan_char s₄
  (checksum, s₆) ← scan_int 10 s₅
  parsed_payload data_allocated s (record {
    src_port = src_port;
    dst_port = dst_port;
    seq_num = seq_num;
    ack_num = ack_num;
    flags = flags;
    checksum = checksum;
    payload = none;
  })

unfoldable pub calc_checksum : TcpPacket → ℤ
calc_checksum p = to_int (
    to_int (to_int (to_int (p.src_port +ℤ p.dst_port) +ℤ p.seq_num) +ℤ p.ack_num)
    +ℤ char_value p.flags)
