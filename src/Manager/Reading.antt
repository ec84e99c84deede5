-- ===== src/Manager/Reading.antt =====
-- `read_ip_packet_from_file` and `handle_in_packets_fifo` of network_manager/network_manager.c.
-- The code also writes a NUL one byte behind its array of 11 bytes, which is left out.
use network_layer_verificati.Prelude.{
  ℕ, zero, suc, Bool, ◌&&◌, Option, none, some, List, ◌++◌, if◌then◌else◌, take, until_nul, ℤ, pos,
  negsuc, ◌-ℤ◌, eq_ℤ, leb_ℤ, ltb_ℤ, to_int, pos_part,
}
use network_layer_verificati.Stdio.{scan_int}
use network_layer_verificati.IpPacket.{IpPacket, str_to_ip}
use network_layer_verificati.Os.{Answers, allocated}
use network_layer_verificati.Fifo.Read.{read_entire_message, read_nonzero_entire_message}
use network_layer_verificati.World.{Run, ◌>>=◌, pure, sys, waits, undefined}
use network_layer_verificati.Manager.{handle_incoming_ip_packet}

-- `MAX_HANDLES_PER_EPOCH`
abbrev pub max_handles_per_epoch : ℕ
max_handles_per_epoch = 10

-- Whether the ten bytes of the length are more than `malloc(total_length + 1)` has asked for. A
-- smaller length asks for a size that is huge.
abbrev pub overruns : ℤ → Bool
overruns total_length = ltb_ℤ total_length (pos 9) && leb_ℤ (negsuc 0) total_length

module _ (os : Answers) (fuel : ℕ) where
  -- the rest of the packet behind its length
  read_rest : ℤ → List ℕ → ℤ → Run (Option IpPacket)
  unfolding read_nonzero_entire_message str_to_ip
  read_rest fd total_length_str total_length = do
    ok ← sys (allocated os)
    if ok
        then (if overruns total_length then undefined else (do
          let rest_length : ℤ = to_int (total_length -ℤ pos 10)
          (read_length, bytes) ← waits (read_nonzero_entire_message os fuel fd rest_length)
          if eq_ℤ rest_length read_length
              then pure
                  (str_to_ip (until_nul (take (pos_part total_length) (total_length_str ++ bytes))))
              else pure none))
        else pure none

  after_length : ℤ → List ℕ → Option (ℤ × List ℕ) → Run (Option IpPacket)
  unfolding read_rest
  after_length fd total_length_str none = pure none
  after_length fd total_length_str (some (total_length, _)) =
      read_rest fd total_length_str total_length

  unfoldable pub read_ip_packet_from_file : ℤ → Run (Option IpPacket)
  unfolding after_length read_entire_message scan_int
  read_ip_packet_from_file fd = do
    (read_length, total_length_str) ← waits (read_entire_message os fuel fd (pos 10))
    if eq_ℤ read_length (pos 10)
        then after_length fd total_length_str (scan_int 10 (until_nul total_length_str))
        else pure none

  handle_in_packets : ℕ → ℤ → Run ℤ
  unfolding read_ip_packet_from_file handle_incoming_ip_packet
  handle_in_packets zero in_packet_fd = pure (pos 0)
  handle_in_packets (suc rounds) in_packet_fd = do
    packet ← read_ip_packet_from_file in_packet_fd
    elim packet [
      | none ↦ pure (pos 0)
      | some p ↦ do
        result ← handle_incoming_ip_packet os (some p)
        if eq_ℤ result (pos 0) then handle_in_packets rounds in_packet_fd else pure (pos 0)
    ]

  unfoldable pub handle_in_packets_fifo : Run ℤ
  unfolding handle_in_packets
  handle_in_packets_fifo w = handle_in_packets max_handles_per_epoch (w.fds.in_packet_fifo_fd) w
