-- ===== src/Manager/Frame.antt =====
-- What the sending of packets leaves alone, and that it ends: network_manager/network_manager.c.
use network_layer_verificati.Prelude.{
  ℕ, ◌+◌, ◌≤◌, ◌≡◌, refl, true, Bool-cases, inl, inr, Option, none, some, List, arith, leb, length,
  ℤ,
}
use network_layer_verificati.IpPacket.{IpPacket, are_full, create_ip_packet}
use network_layer_verificati.TcpPacket.{tcp_text, tcp_to_str}
use network_layer_verificati.Os.{Answers}
use network_layer_verificati.Fifo.{Name}
use network_layer_verificati.World.{World, Ends}
use network_layer_verificati.World.Outcome.{ends, ends_if}
use network_layer_verificati.Socket.Frame.{SameHeap}
use network_layer_verificati.Socket.Bound.{HasMemory}
use network_layer_verificati.Packets.Steps.{Reply}
use network_layer_verificati.Manager.{
  write_packet, send_to, send_ip_text, send_ip_packet, send_tcp_text, send_tcp_packet,
}

-- A packet whose text fits the buffer that `tcp_to_str` makes for it, or none.
abbrev pub IsSent : Reply → Type 0
IsSent none = Unit
IsSent (some p) =
    (text : List ℕ) × (p.payload ≡ some text) × (length (tcp_text p text) ≤ 41 + length text)

module _ (os : Answers) (memory : HasMemory os) where
  write_packet-SameHeap :
      (text : List ℕ) (fd : ℤ) (w : World)
      → Ends (write_packet os text fd w) (λ _ w'. SameHeap w w')
  unfolding write_packet
  write_packet-SameHeap text fd w = search (ends_if, ends)

  send_to-SameHeap :
      (text : List ℕ) (name : Name) (w : World)
      → Ends (send_to os text name w) (λ _ w'. SameHeap w w')
  unfolding send_to
  send_to-SameHeap text none w = ends _ _ (refl, refl)
  send_to-SameHeap text (some name) w = search write_packet-SameHeap

  send_ip_text-SameHeap :
      (dst_ip : List ℕ) (text : Option (List ℕ)) (w : World)
      → Ends (send_ip_text os dst_ip text w) (λ _ w'. SameHeap w w')
  unfolding send_ip_text
  send_ip_text-SameHeap dst_ip none w = ends _ _ (refl, refl)
  send_ip_text-SameHeap dst_ip (some text) w = search send_to-SameHeap

  send_ip_packet-SameHeap :
      (dst_ip : List ℕ) (p : Option IpPacket) (w : World)
      → Ends (send_ip_packet os dst_ip p w) (λ _ w'. SameHeap w w')
  unfolding send_ip_packet
  send_ip_packet-SameHeap dst_ip none w = ends _ _ (refl, refl)
  send_ip_packet-SameHeap dst_ip (some p) w = search send_ip_text-SameHeap

  send_tcp_text-SameHeap :
      (dst_ip : List ℕ) (text : Option (List ℕ)) (w : World)
      → Ends (send_tcp_text os dst_ip text w) (λ _ w'. SameHeap w w')
  unfolding send_tcp_text create_ip_packet
  send_tcp_text-SameHeap dst_ip none w = ends _ _ (refl, refl)
  send_tcp_text-SameHeap dst_ip (some text) w = elim (Bool-cases (are_full w.ip dst_ip)) [
    | inl e ↦ rw (e, memory) (search send_ip_packet-SameHeap)
    | inr e ↦ rw e (search send_ip_packet-SameHeap)
  ]

  pub send_tcp_packet-SameHeap :
      (p : Reply) (dst_ip : List ℕ) (w : World)
      → IsSent p
      → Ends (send_tcp_packet os p dst_ip w) (λ _ w'. SameHeap w w')
  unfolding send_tcp_packet tcp_to_str
  send_tcp_packet-SameHeap none dst_ip w h = ends _ _ (refl, refl)
  send_tcp_packet-SameHeap (some p) dst_ip w (text, e, l) =
      let fits : leb (length (tcp_text p text) + 1) (41 + length text + 1) ≡ true = ground arith in
      rw (e, memory, fits) (search send_tcp_text-SameHeap)
