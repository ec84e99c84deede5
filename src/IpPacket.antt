-- ===== src/IpPacket.antt =====
-- ip.c and ip.h: IP packets and their text form. A `char*` argument is the string that it points
-- to; a buffer that the code allocates is a list of bytes, where fresh bytes read as 0.
-- `xxmalloc` is not checked by `str_to_ip`, so there it is taken to give memory.
pub mod Digits
pub mod Layout
pub mod RoundTrip
use network_layer_verificati.Prelude.{
  ℕ, zero, suc, ◌+◌, ◌-◌, ◌*◌, ◌/◌, ◌%◌, ◌^◌, Bool, true, false, ◌&&◌, Option, none, some, List, [],
  ◌∷◌, ◌++◌, ltb, ◌==◌, if◌then◌else◌, length, take, drop, set, replicate, ℤ, pos, negsuc, ◌+ℤ◌,
  ◌-ℤ◌, to_int, ltb_ℤ, pos_part, until_nul,
}

-- `IPPacket`; `data` may be NULL. An address is the first 16 bytes of its array, up to a NUL:
-- `create_ip_packet` leaves the seventeenth byte as it was, and `ip_to_str` does not read it.
pub record IpPacket : Type 0 where
  pub total_length : ℤ
  pub src_ip : List ℕ
  pub dst_ip : List ℕ
  pub header_checksum : ℤ
  pub payload : Option (List ℕ)

-- Copies up to and with the NUL, and at most `size` bytes. The source list ends where its
-- memory does.
unfoldable pub strcpy1 : List ℕ → List ℕ → ℕ → List ℕ
strcpy1 dest source zero = dest
strcpy1 [] source (suc n) = []
strcpy1 (d ∷ ds) [] (suc n) = d ∷ ds
strcpy1 (d ∷ ds) (c ∷ cs) (suc n) = if c == 0 then c ∷ ds else c ∷ strcpy1 ds cs n

-- the memory of a string
abbrev pub terminated : List ℕ → List ℕ
terminated s = s ++ 0 ∷ []

-- the number that a signed `char` stands for
abbrev pub char_value : ℕ → ℤ
char_value c = if ltb c 128 then pos c else pos c -ℤ pos 256

abbrev times_ten : ℤ → ℤ
times_ten (pos n) = pos (n * 10)
times_ten (negsuc n) = negsuc (n * 10 + 9)

-- `res = res * 10 + str[i] - '0'`
unfoldable pub add_digit : ℤ → ℕ → ℤ
add_digit res c = to_int (times_ten res +ℤ char_value c -ℤ pos b'0')

digits_to_int : List ℕ → ℕ → ℤ → ℤ
digits_to_int str zero res = res
digits_to_int [] (suc n) res = res
digits_to_int (c ∷ str) (suc n) res = digits_to_int str n (add_digit res c)

unfoldable pub str_to_int : List ℕ → ℕ → ℤ
unfolding digits_to_int
str_to_int str size_of_int = digits_to_int str size_of_int (pos 0)

-- `result` is a `long long`: where it would leave the range, C says nothing.
power_loop : ℕ → ℕ → ℕ → Option ℕ
power_loop result base zero = some result
power_loop result base (suc exponent) =
    let rest = power_loop (result * base) base exponent in
    if ltb (result * base) (2 ^ 63) then rest else none

unfoldable pub power : ℕ → ℕ → Option ℕ
unfolding power_loop
power base exponent = power_loop 1 base exponent

-- `(tmp / help) + '0'` for `tmp = n % (10 * help)`, kept in a `char`; C truncates towards 0
unfoldable pub digit_char : ℤ → ℕ → ℕ → ℕ
digit_char (pos n) help next = (n % help / next + b'0') % 256
digit_char (negsuc n) help next = (256 + b'0' - suc n % help / next) % 256

-- the cells of `str` from `i` on, with `k` digits to come
write_digits : List ℕ → ℕ → ℕ → ℤ → List ℕ
write_digits str zero help n = str
write_digits [] (suc k) help n = []
write_digits (c ∷ str) (suc k) help n =
    digit_char n help (help / 10) ∷ write_digits str k (help / 10) n

unfoldable pub int_to_str : List ℕ → ℕ → ℤ → Option (List ℕ)
unfolding write_digits power
int_to_str str size_of_str n = from_power (power 10 size_of_str)
  where
    from_power : Option ℕ → Option (List ℕ)
    from_power none = none
    from_power (some help) = some (write_digits str size_of_str help n)

-- a call on `buf + k`
abbrev pub at_offset : ℕ → (List ℕ → List ℕ) → List ℕ → List ℕ
at_offset k f buf = take k buf ++ f (drop k buf)

abbrev pub behind_front : List ℕ → Option (List ℕ) → Option (List ℕ)
behind_front front none = none
behind_front front (some rest) = some (front ++ rest)

abbrev pub at_offset_option : ℕ → (List ℕ → Option (List ℕ)) → List ℕ → Option (List ℕ)
at_offset_option k f buf = behind_front (take k buf) (f (drop k buf))

-- a 17-byte field, filled from 16 bytes of `s` and closed
unfoldable pub ip_field : List ℕ → List ℕ
ip_field s = until_nul (set (strcpy1 (replicate 17 0) (terminated s) 16) 16 0)

unfoldable pub parsed_data : ℤ → List ℕ → Option (List ℕ)
parsed_data (pos zero) s = none
parsed_data (pos (suc n)) s =
    some (until_nul (set (strcpy1 (replicate (suc n + 1) 0) (terminated s) (suc n)) (suc n) 0))
parsed_data (negsuc n) s = none

unfoldable pub str_to_ip : List ℕ → Option IpPacket
unfolding ip_field parsed_data
str_to_ip s =
    if ltb (length s) 50
    then none
    else some (record {
      total_length = str_to_int s 10;
      src_ip = ip_field (drop 10 s);
      dst_ip = ip_field (drop 26 s);
      header_checksum = str_to_int (drop 42 s) 8;
      payload = parsed_data (to_int (str_to_int s 10 -ℤ pos 50)) (drop 50 s);
    })

-- what `strcpy1` reads of `data`; a NULL is not read where no byte is to be copied
abbrev data_memory : Option (List ℕ) → List ℕ
data_memory none = []
data_memory (some s) = terminated s

-- The data, and the NUL that closes the buffer.
unfoldable pub write_data : ℕ → IpPacket → Option (List ℕ) → Option (List ℕ)
write_data len p none = none
write_data len p (some buf) =
    some (set (at_offset 50 (λ b. strcpy1 b (data_memory p.payload) (len - 50)) buf) len 0)

-- The writes behind the first field, in the order of the calls.
unfoldable pub write_behind : ℕ → IpPacket → Option (List ℕ) → Option (List ℕ)
unfolding int_to_str write_data
write_behind len p none = none
write_behind len p (some buf) = write_data len p (
    at_offset_option 42 (λ b. int_to_str b 8 p.header_checksum)
      (at_offset 26 (λ b. strcpy1 b (terminated p.dst_ip) 16)
        (at_offset 10 (λ b. strcpy1 b (terminated p.src_ip) 16) buf)))

-- The buffer of `length_of_msg + 1` bytes after all of the calls.
unfoldable pub written : ℕ → IpPacket → Option (List ℕ)
unfolding write_behind int_to_str
written len p = write_behind len p (int_to_str (replicate (len + 1) 0) 10 p.total_length)

-- the string in a buffer
text_of : Option (List ℕ) → Option (List ℕ)
text_of none = none
text_of (some buf) = some (until_nul buf)

-- The first argument is whether `xxmalloc` gave memory; packets have 50 bytes or more. The powers of
-- ten of its fields are in range, so that no write is missing.
unfoldable pub ip_to_str : Bool → IpPacket → Option (List ℕ)
unfolding written text_of
ip_to_str false p = none
ip_to_str true p = text_of (written (pos_part (to_int p.total_length)) p)

unfoldable pub calc_ip_checksum : IpPacket → ℤ
calc_ip_checksum p = pos 5

-- whether the addresses have the length that `create_ip_packet` wants
abbrev pub are_full : List ℕ → List ℕ → Bool
are_full src dst = (length src == 16) && (length dst == 16)

-- The first argument is whether `xxmalloc` gave memory. The code does not check it: without memory
-- it writes through NULL, and `none` is no result. `some none` is NULL.
unfoldable pub create_ip_packet : Bool → List ℕ → List ℕ → List ℕ → Option (Option IpPacket)
unfolding calc_ip_checksum
create_ip_packet has_memory src dst text =
    if are_full src dst
    then if has_memory
      then some (
          some (record fresh {
            header_checksum = calc_ip_checksum fresh;
            payload = some text;
            total_length = to_int (pos (50 + length text));
          }))
      else none
    else some none
  where
    fresh : IpPacket
    fresh = record {
      total_length = pos 0;
      src_ip = src;
      dst_ip = dst;
      header_checksum = pos 0;
      payload = none;
    }
