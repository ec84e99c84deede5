-- ===== src/SocketId/Equality.antt =====
-- Identities are compared, classified and copied by their contents.
use network_layer_verificati.Prelude.{
  ℕ, ◌+◌, ◌≤◌, ◌≡◌, ◌↔◌, refl, sym, ◌∙◌, ap, true, List, arith, length, take_all, length-replicate,
  IsString, replicate,
}
use network_layer_verificati.CString.Laws.{strcmp_t-eq_iff, strcmp_t_refl, strcpy_t-take}
use network_layer_verificati.SocketId.{
  SocketId, max_ip_length, same_id, copied_ip, copy_of_id, string_in,
}

-- Addresses that fit their arrays.
pub record IsAddressed (i : SocketId) : Type 0 where
  pub src_chars : IsString i.src_ip
  pub dst_chars : IsString i.dst_ip
  pub src_short : length i.src_ip ≤ max_ip_length
  pub dst_short : length i.dst_ip ≤ max_ip_length

pub same_id_refl : (a : SocketId) → same_id a a ≡ true
unfolding same_id
same_id_refl a = ground (arith, strcmp_t_refl a.src_ip, strcmp_t_refl a.dst_ip)

id_path :
    (a b : SocketId)
    → a.src_port ≡ b.src_port
    → a.dst_port ≡ b.dst_port
    → a.src_ip ≡ b.src_ip
    → a.dst_ip ≡ b.dst_ip
    → a ≡ b
id_path a b p q r s = λ i. record { src_port = p i; dst_port = q i; src_ip = r i; dst_ip = s i }

same_id-eq : (a b : SocketId) → IsAddressed a → IsAddressed b → same_id a b ≡ true → a ≡ b
unfolding same_id
same_id-eq a b h k e =
    id_path a b (ground arith) (ground arith)
      ((strcmp_t-eq_iff a.src_ip b.src_ip h.src_chars k.src_chars).0 (ground arith))
      ((strcmp_t-eq_iff a.dst_ip b.dst_ip h.dst_chars k.dst_chars).0 (ground arith))

-- The comparison of keys decides equality of the ports and addresses.
pub same_id_iff : (a b : SocketId) → IsAddressed a → IsAddressed b → (same_id a b ≡ true) ↔ (a ≡ b)
same_id_iff a b h k = (same_id-eq a b h k, λ e. ap (same_id a) (sym e) ∙ same_id_refl a)

copied_ip_lem : (ip : List ℕ) → IsString ip → length ip ≤ max_ip_length → copied_ip ip ≡ ip
unfolding copied_ip string_in
copied_ip_lem ip h l =
    let (out, e, s, _, _) =
      strcpy_t-take (replicate (max_ip_length + 1) b'e') ip h
        (omega (arith, length-replicate (max_ip_length + 1) byte_e)) in
    rw e (s ∙ take_all ip 16 l)
  where
    byte_e : ℕ
    byte_e = b'e'

-- A copy has the ports and addresses of the original.
pub copy_of_id_lem : (a : SocketId) → IsAddressed a → copy_of_id a ≡ a
unfolding copy_of_id
copy_of_id_lem a h =
    id_path _ a refl refl (copied_ip_lem a.src_ip h.src_chars h.src_short)
      (copied_ip_lem a.dst_ip h.dst_chars h.dst_short)
