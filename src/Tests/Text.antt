-- ===== src/Tests/Text.antt =====
-- Runs on strings, on the text forms of packets and on the queue.
use network_layer_verificati.Prelude.{
  drop, ℕ, ◌+◌, ◌-◌, ◌*◌, ◌≢◌, to_int, ◌+ℤ◌, ◌≡◌, ◌↔◌, refl, true, some, List, [], ◌∷◌, ◌++◌, arith,
  length, take, replicate, length-replicate, pos, negsuc, IsString, until_nul,
}
use network_layer_verificati.CString.{strcpy_t, strcmp_t, strcat_t, ip_addr_size}
use network_layer_verificati.CString.Laws.{strcpy_t-take, strcmp_t-eq_iff, strcat_t-append}
use network_layer_verificati.IpPacket.{
  IpPacket, int_to_str, str_to_int, create_ip_packet, ip_to_str, str_to_ip,
}
use network_layer_verificati.IpPacket.Digits.{str_to_int-int_to_str}
use network_layer_verificati.IpPacket.RoundTrip.{str_to_ip-ip_to_str, data_or_null}
use network_layer_verificati.TcpPacket.{TcpPacket, tcp_text, tcp_to_str, str_to_tcp, calc_checksum}
use network_layer_verificati.TcpPacket.RoundTrip.{
  IsPrintable, str_to_tcp-tcp_to_str, str_to_tcp-digit_data, length-tcp_text,
}
use network_layer_verificati.TcpPacket.Bounds.{tcp_text-overflow}
use network_layer_verificati.ByteQueue.{Queue, queue_create, queue_for_each, queue_copy}
use network_layer_verificati.ByteQueue.Contents.{IsRing, contents}
use network_layer_verificati.ByteQueue.Refine.{put, get, run, run_spec, run-queue_create}
use network_layer_verificati.ByteQueue.Iterate.{queue_for_each-contents, queue_copy-contents}

abbrev hi : List ℕ
hi = b'h' ∷ b'i' ∷ []

hi-IsString : IsString hi
hi-IsString = ((omega arith, omega arith), ((omega arith, omega arith), tt))

strcmp_t-eq_iff_example : (strcmp_t hi hi ≡ pos 0) ↔ (hi ≡ hi)
strcmp_t-eq_iff_example = strcmp_t-eq_iff hi hi hi-IsString hi-IsString

abbrev buffer : List ℕ
buffer = replicate 20 b'e'

strcpy_t-take_example :
    (out : List ℕ) × (strcpy_t (some buffer) (some hi) ≡ some (some out))
    × (until_nul out ≡ take (ip_addr_size - 1) hi)
    × (drop ip_addr_size out ≡ drop ip_addr_size buffer)
    × (length out ≡ length buffer)
strcpy_t-take_example =
    strcpy_t-take buffer hi hi-IsString (omega (arith, length-replicate {A = ℕ} 20 b'e'))

strcat_t-append_example :
    (out : List ℕ) × (strcat_t (0 ∷ 0 ∷ 0 ∷ 0 ∷ []) hi ≡ some out)
    × (until_nul out ≡ until_nul (0 ∷ 0 ∷ 0 ∷ 0 ∷ []) ++ hi)
unfolding until_nul
strcat_t-append_example = strcat_t-append (0 ∷ 0 ∷ 0 ∷ 0 ∷ []) hi hi-IsString (omega arith)

str_to_int-int_to_str_example :
    (out : List ℕ) × (int_to_str (0 ∷ 0 ∷ 0 ∷ []) 3 (pos 42) ≡ some out)
    × (str_to_int out 3 ≡ pos 42)
str_to_int-int_to_str_example =
    str_to_int-int_to_str (0 ∷ 0 ∷ 0 ∷ []) 3 42 (omega arith) (omega arith) (omega arith)
      (omega arith)

abbrev address : List ℕ
address =
    b'1' ∷ b'1' ∷ b'1' ∷ b'.' ∷ b'1' ∷ b'1' ∷ b'1' ∷ b'.' ∷ b'1' ∷ b'1' ∷ b'1' ∷ b'.' ∷ b'1' ∷ b'1'
    ∷ b'1' ∷ b'1' ∷ []

address-IsString : IsString address
address-IsString = ground arith

str_to_ip-ip_to_str_example :
    (p : IpPacket) × (s : List ℕ) × (create_ip_packet true address address hi ≡ some (some p))
    × (ip_to_str true p ≡ some s)
    × (length s ≡ 50 + length hi)
    × (str_to_ip s ≡ some (record p { payload = data_or_null hi }))
str_to_ip-ip_to_str_example =
    str_to_ip-ip_to_str address address hi refl refl address-IsString address-IsString hi-IsString
      (omega arith)

-- a packet with a text, from port 80 to port 5000
abbrev packet : TcpPacket
packet = record {
  src_port = pos 80;
  dst_port = pos 5000;
  seq_num = pos 7;
  ack_num = pos 9;
  flags = 1;
  checksum = pos 5097;
  payload = some hi;
}

packet-IsPrintable : IsPrintable packet
packet-IsPrintable = record {
  src = 80;
  dst = 5000;
  seq = 7;
  ack = 9;
  sum = 5097;
  src_eq = refl;
  dst_eq = refl;
  seq_eq = refl;
  ack_eq = refl;
  sum_eq = refl;
  src_fits = omega arith;
  dst_fits = omega arith;
  seq_fits = omega arith;
  ack_fits = omega arith;
  sum_fits = omega arith;
  flags_fit = (omega arith, omega arith);
}

str_to_tcp-tcp_to_str_example :
    (s : List ℕ) × (tcp_to_str true packet ≡ some (some s))
    × (length s ≡ 41 + length hi)
    × (str_to_tcp true true s ≡ some (record packet { payload = data_or_null hi }))
str_to_tcp-tcp_to_str_example =
    str_to_tcp-tcp_to_str packet packet-IsPrintable hi refl hi-IsString refl

length-tcp_text_example : length (tcp_text packet hi) ≡ 41 + length hi
length-tcp_text_example = length-tcp_text packet packet-IsPrintable hi

-- the data "7x"
abbrev digit_packet : TcpPacket
digit_packet = record packet { payload = some (b'7' ∷ b'x' ∷ []) }

abbrev digit_packet-IsPrintable : IsPrintable digit_packet
digit_packet-IsPrintable = record {
  src = 80;
  dst = 5000;
  seq = 7;
  ack = 9;
  sum = 5097;
  src_eq = refl;
  dst_eq = refl;
  seq_eq = refl;
  ack_eq = refl;
  sum_eq = refl;
  src_fits = omega arith;
  dst_fits = omega arith;
  seq_fits = omega arith;
  ack_fits = omega arith;
  sum_fits = omega arith;
  flags_fit = (omega arith, omega arith);
}

packet_checksum : calc_checksum digit_packet ≡ pos 5097
unfolding calc_checksum to_int ◌+ℤ◌
packet_checksum = refl

str_to_tcp-digit_data_example :
    (s : List ℕ) × (q : TcpPacket) × (tcp_to_str true digit_packet ≡ some (some s))
    × (str_to_tcp true true s ≡ some q)
    × (q ≡ record digit_packet { checksum = pos (5097 * 10 + (b'7' - b'0')) })
    × (calc_checksum q ≢ q.checksum)
str_to_tcp-digit_data_example =
    str_to_tcp-digit_data digit_packet digit_packet-IsPrintable b'7' (b'x' ∷ []) refl
      ((omega arith, omega arith), tt) (omega arith, omega arith) refl (omega arith) (omega arith)
      packet_checksum

-- the sum of its fields is 2 ^ 31 + 12
abbrev wrapped_packet : TcpPacket
wrapped_packet = record {
  src_port = pos 1;
  dst_port = pos 1;
  seq_num = pos 2147483647;
  ack_num = pos 10;
  flags = 1;
  checksum = negsuc 2147483635;
  payload = some hi;
}

wrapped_checksum : wrapped_packet.checksum ≡ calc_checksum wrapped_packet
unfolding calc_checksum to_int ◌+ℤ◌
wrapped_checksum = refl

tcp_text-overflow_example : length (tcp_text wrapped_packet hi) ≡ 42 + length hi
tcp_text-overflow_example =
    tcp_text-overflow wrapped_packet 1 1 2147483647 10 hi refl refl refl refl wrapped_checksum
      (omega arith) (omega arith) (omega arith) (omega arith) (omega arith) (omega arith)
      (omega arith)

run-queue_create_example :
    run (queue_create true) (put b'h' ∷ put b'i' ∷ get ∷ [])
    ≡ run_spec [] (put b'h' ∷ put b'i' ∷ get ∷ [])
run-queue_create_example = run-queue_create (put b'h' ∷ put b'i' ∷ get ∷ [])

-- a queue that holds "hi"
abbrev hi_queue : Queue
hi_queue = record {
  head = 0;
  tail = 1;
  size = 2;
  array = b'h' ∷ b'i' ∷ replicate 8190 0;
  iterator = 0;
  index_choosen = negsuc 0;
}

hi_queue-IsRing : IsRing hi_queue
hi_queue-IsRing = record {
  head_below = omega arith;
  size_fits = omega arith;
  array_full = omega (arith, length-replicate {A = ℕ} 8190 0);
  tail_before = refl;
}

queue_for_each-contents_example : queue_for_each 3 (some hi_queue) ≡ until_nul (contents hi_queue)
queue_for_each-contents_example = queue_for_each-contents 3 hi_queue hi_queue-IsRing (omega arith)

queue_copy-contents_example :
    (q' : Queue) × (queue_copy true (some hi_queue) ≡ some q')
    × IsRing q'
    × (contents q' ≡ until_nul (contents hi_queue))
queue_copy-contents_example = queue_copy-contents hi_queue hi_queue-IsRing
