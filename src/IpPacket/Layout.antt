-- ===== src/IpPacket/Layout.antt =====
-- The buffer of `ip_to_str` after its five writes, field by field.
use network_layer_verificati.Prelude.{
  ℕ, zero, suc, ◌+◌, ◌-◌, ◌≤◌, ◌≡◌, refl, sym, ◌∙◌, ap, ap₂, List, [], ◌∷◌, ◌++◌, arith, length,
  drop, set, replicate, length-append, length-drop, length-replicate, take-append, drop-append, pos,
  IsString, IsString-append, append_assoc, some, Option,
}
use network_layer_verificati.IpPacket.{
  IpPacket, strcpy1, terminated, at_offset, at_offset_option, behind_front, int_to_str, written,
  write_behind, write_data,
}
use network_layer_verificati.IpPacket.Digits.{
  digit_list, pow10, length-digit_list, int_to_str-digit_list, pow10_pos, digit_split,
}

pub at_offset-append :
    (k : ℕ) (f : List ℕ → List ℕ) (front rest : List ℕ)
    → k ≡ length front
    → at_offset k f (front ++ rest) ≡ front ++ f rest
at_offset-append k f front rest e =
    ap₂ (λ a b. a ++ f b) (take-append front rest k e) (drop-append front rest k e)

-- `strcpy1` of as many bytes as a string has puts the string in front of what the buffer has
-- behind them.
pub strcpy1-append :
    (buf s more : List ℕ) (n : ℕ)
    → IsString s
    → n ≡ length s
    → n ≤ length buf
    → strcpy1 buf (s ++ more) n ≡ s ++ drop n buf
unfolding strcpy1
strcpy1-append buf [] more zero h e l = refl
strcpy1-append buf [] more (suc n) h e l = absurd (omega arith)
strcpy1-append buf (c ∷ s) more zero h e l = absurd (omega arith)
strcpy1-append [] (c ∷ s) more (suc n) h e l = absurd (omega arith)
strcpy1-append (d ∷ ds) (c ∷ s) more (suc n) h e l = ground (arith, strcpy1-append ds s more n h.1)

pub set-append :
    (front rest : List ℕ) (k v : ℕ)
    → k ≡ length front
    → length rest ≡ 1
    → set (front ++ rest) k v ≡ front ++ v ∷ []
set-append [] [] k v e l = absurd (omega arith)
set-append [] (x ∷ []) zero v e l = refl
set-append [] (x ∷ y ∷ r) zero v e l = absurd (omega arith)
set-append [] (x ∷ r) (suc k) v e l = absurd (omega arith)
set-append (x ∷ front) rest zero v e l = absurd (omega arith)
set-append (x ∷ front) rest (suc k) v e l = ap (◌∷◌ x) (set-append front rest k v (omega arith) l)

pub digit_list-IsString : (k n : ℕ) → IsString (digit_list k n)
unfolding digit_list
digit_list-IsString zero n = tt
digit_list-IsString (suc k) n =
    ((omega arith, omega (arith, digit_split n (pow10 k) (pow10_pos k))), digit_list-IsString k n)

write_field :
    (k m : ℕ) (w : List ℕ → List ℕ) (front rest out : List ℕ)
    → k ≡ length front
    → w rest ≡ out ++ drop m rest
    → at_offset k w (front ++ rest) ≡ (front ++ out) ++ drop m rest
write_field k m w front rest out e h =
    at_offset-append k w front rest e
    ∙ (ap (◌++◌ front) h ∙ sym (append_assoc front out (drop m rest)))

-- The text of a packet: two decimal fields round the addresses, and the data.
unfoldable pub layout : List ℕ → List ℕ → List ℕ → ℕ → List ℕ
layout src dst text sum =
    (((digit_list 10 (50 + length text) ++ src) ++ dst) ++ digit_list 8 sum) ++ text

-- A write that has a result, behind a front.
write_field_option :
    (k m : ℕ) (w : List ℕ → Option (List ℕ)) (front rest out : List ℕ)
    → k ≡ length front
    → w rest ≡ some (out ++ drop m rest)
    → at_offset_option k w (front ++ rest) ≡ some ((front ++ out) ++ drop m rest)
write_field_option k m w front rest out e h =
    ap₂ (λ a b. behind_front a (w b)) (take-append front rest k e) (drop-append front rest k e)
    ∙ (ap (behind_front front) h ∙ ap some (sym (append_assoc front out (drop m rest))))

-- Two addresses of 16 bytes, and the data of a packet.
module _ (src dst text : List ℕ) (sum : ℕ) (src_16 : length src ≡ 16)
    (dst_16 : length dst ≡ 16) where
  pub length-layout : length (layout src dst text sum) ≡ 50 + length text
  unfolding layout
  length-layout =
      let a = digit_list 10 (50 + length text) in
      omega (
        arith,
        length-append (((digit_list 10 (50 + length text) ++ src) ++ dst) ++ digit_list 8 sum) text,
        length-append ((digit_list 10 (50 + length text) ++ src) ++ dst) (digit_list 8 sum),
        length-append (digit_list 10 (50 + length text) ++ src) dst,
        length-append (digit_list 10 (50 + length text)) src,
        length-digit_list 10 (50 + length text),
        length-digit_list 8 sum,
      )

  module _ (src_chars : IsString src) (dst_chars : IsString dst) (text_chars : IsString text) where
    pub layout-IsString : IsString (layout src dst text sum)
    unfolding layout
    layout-IsString =
        IsString-append _ text
          (IsString-append _ (digit_list 8 sum)
            (IsString-append _ dst
              (IsString-append _ src (digit_list-IsString 10 (50 + length text)) src_chars)
              dst_chars)
            (digit_list-IsString 8 sum))
          text_chars

    length-tail :
        (buf : List ℕ)
        → length buf ≡ 51 + length text
        → length (drop (length text) (drop 8 (drop 16 (drop 16 (drop 10 buf))))) ≡ 1
    length-tail buf h = omega (
      arith,
      length-drop (length text) (drop 8 (drop 16 (drop 16 (drop 10 buf)))),
      length-drop 8 (drop 16 (drop 16 (drop 10 buf))),
      length-drop 16 (drop 16 (drop 10 buf)),
      length-drop 16 (drop 10 buf),
      length-drop 10 buf,
    )

    abbrev pub packet : IpPacket
    packet = record {
      total_length = pos (50 + length text);
      src_ip = src;
      dst_ip = dst;
      header_checksum = pos sum;
      payload = some text;
    }

    pub written-layout :
        written (50 + length text) packet ≡ some (layout src dst text sum ++ 0 ∷ [])
    unfolding written write_behind write_data layout
    written-layout =
        let zero_byte : ℕ = 0 in
        let buf : List ℕ = replicate (50 + length text + 1) zero_byte in
        let room : length buf ≡ 51 + length text =
          length-replicate (50 + length text + 1) zero_byte ∙ omega arith in
        let b1 : List ℕ = drop 10 buf in
        let b2 : List ℕ = drop 16 b1 in
        let b3 : List ℕ = drop 16 b2 in
        let b4 : List ℕ = drop 8 b3 in
        let l1 : length b1 ≡ 41 + length text = omega (arith, room, length-drop 10 buf) in
        let l2 : length b2 ≡ 25 + length text = omega (arith, l1, length-drop 16 b1) in
        let l3 : length b3 ≡ 9 + length text = omega (arith, l2, length-drop 16 b2) in
        let l4 : length b4 ≡ 1 + length text = omega (arith, l3, length-drop 8 b3) in
        let size : 50 + length text - 50 ≡ length text = omega arith in
        let a : List ℕ = digit_list 10 (50 + length text) in
        let d : List ℕ = digit_list 8 sum in
        let la : length a ≡ 10 = length-digit_list 10 (50 + length text) in
        let lab : length (a ++ src) ≡ 26 = omega (arith, la, length-append a src) in
        let labc : length ((a ++ src) ++ dst) ≡ 42 =
          omega (arith, lab, length-append (a ++ src) dst) in
        let labcd : length (((a ++ src) ++ dst) ++ d) ≡ 50 =
          omega (arith, labc, length-digit_list 8 sum, length-append ((a ++ src) ++ dst) d) in
        ap (write_behind (50 + length text) packet)
          (int_to_str-digit_list buf 10 (50 + length text) (omega arith) (omega (arith, room)))
        ∙ (ap
              (λ t.
                write_data (50 + length text) packet
                  (at_offset_option 42 (λ b. int_to_str b 8 (pos sum)) t))
              (ap (at_offset 26 (λ b. strcpy1 b (terminated dst) 16)) (
                  write_field 10 16 (λ b. strcpy1 b (terminated src) 16) a b1 src (sym la)
                    (strcpy1-append b1 src (0 ∷ []) 16 src_chars (sym src_16) (omega (arith, l1))))
                ∙ write_field 26 16 (λ b. strcpy1 b (terminated dst) 16) (a ++ src) b2 dst (sym lab)
                    (strcpy1-append b2 dst (0 ∷ []) 16 dst_chars (sym dst_16) (omega (arith, l2))))
            ∙ (ap (write_data (50 + length text) packet) (
                  write_field_option 42 8 (λ b. int_to_str b 8 (pos sum)) ((a ++ src) ++ dst) b3 d
                    (sym labc) (int_to_str-digit_list b3 8 sum (omega arith) (omega (arith, l3))))
                ∙ ap some (
                    ap (λ b. set b (50 + length text) 0)
                      (write_field 50 (length text)
                        (λ b. strcpy1 b (terminated text) (50 + length text - 50))
                        (((a ++ src) ++ dst) ++ d) b4 text (sym labcd)
                        (ap (strcpy1 b4 (terminated text)) size
                          ∙ strcpy1-append b4 text (0 ∷ []) (length text) text_chars refl
                              (omega (arith, l4))))
                    ∙ set-append _ _ (50 + length text) 0 (sym length-layout)
                        (length-tail buf room))))
