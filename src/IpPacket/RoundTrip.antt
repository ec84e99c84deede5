-- ===== src/IpPacket/RoundTrip.antt =====
-- `str_to_ip` reads back what `ip_to_str` made of a packet of `create_ip_packet`.
use network_layer_verificati.Prelude.{
  ℕ, suc, ◌+◌, ◌^◌, ◌<◌, ◌≡◌, refl, sym, ◌∙◌, ap, List, [], ◌∷◌, ◌++◌, arith, length, true, false,
  drop, set, replicate, length-append, length-drop, length-replicate, drop-append, pos, pos_part,
  to_int, to_int_of_IsInt, ◌-ℤ◌, IsString, until_nul, until_nul-append, append_assoc, append-nil,
  ltb, Option, some, none,
}
use network_layer_verificati.IpPacket.{
  IpPacket, strcpy1, terminated, str_to_int, ip_field, parsed_data, str_to_ip, ip_to_str,
  create_ip_packet, written, calc_ip_checksum, text_of,
}
use network_layer_verificati.IpPacket.Digits.{
  digit_list, pow10, length-digit_list, str_to_int-digit_list,
}
use network_layer_verificati.IpPacket.Layout.{
  strcpy1-append, set-append, layout, length-layout, layout-IsString, packet, written-layout,
}

-- A string copied into a buffer that has one byte more, and closed.
closed_copy :
    (buf s more : List ℕ) (n : ℕ)
    → IsString s
    → n ≡ length s
    → length buf ≡ n + 1
    → until_nul (set (strcpy1 buf (terminated (s ++ more)) n) n 0) ≡ s
unfolding until_nul
closed_copy buf s more n h l room =
    ap (λ t. until_nul (set (strcpy1 buf t n) n 0)) (append_assoc s more (0 ∷ []))
    ∙ (ap (λ t. until_nul (set t n 0)) (strcpy1-append buf s (more ++ 0 ∷ []) n h l (omega arith))
        ∙ (ap until_nul (set-append s (drop n buf) n 0 l (omega (arith, length-drop n buf)))
            ∙ (until_nul-append s (0 ∷ []) h ∙ (ap (◌++◌ s) end ∙ append-nil s))))
  where
    end : until_nul (0 ∷ []) ≡ []
    end = refl

ip_field-append : (s more : List ℕ) → IsString s → length s ≡ 16 → ip_field (s ++ more) ≡ s
unfolding ip_field
ip_field-append s more h l =
    closed_copy (replicate 17 0) s more 16 h (sym l) (length-replicate 17 _)

-- what `str_to_ip` makes of the data of a packet
abbrev pub data_or_null : List ℕ → Option (List ℕ)
data_or_null [] = none
data_or_null (c ∷ cs) = some (c ∷ cs)

parsed_data_lem :
    (text : List ℕ) → IsString text → parsed_data (pos (length text)) text ≡ data_or_null text
unfolding parsed_data
parsed_data_lem [] h = refl
parsed_data_lem (c ∷ cs) h = ap some (
    ap
      (λ t. until_nul (
        set (strcpy1 (replicate (suc (length cs) + 1) 0) (terminated t) (suc (length cs)))
          (suc (length cs)) 0))
      (sym (append-nil (c ∷ cs)))
    ∙ closed_copy (replicate (suc (length cs) + 1) 0) (c ∷ cs) [] (suc (length cs)) h refl
        (length-replicate (suc (length cs) + 1) _))

-- The four fields behind the first one, each behind what stands in front of it.
module _ (src dst text : List ℕ) (sum : ℕ) (ls : length src ≡ 16) (ld : length dst ≡ 16) where
  regrouped :
      layout src dst text sum
      ≡ digit_list 10 (50 + length text) ++ (src ++ (dst ++ (digit_list 8 sum ++ text)))
  unfolding layout
  regrouped = simp append_assoc

  drop_10 : drop 10 (layout src dst text sum) ≡ src ++ (dst ++ (digit_list 8 sum ++ text))
  drop_10 =
      ap (drop 10) regrouped
      ∙ drop-append (digit_list 10 (50 + length text)) _ 10
          (sym (length-digit_list 10 (50 + length text)))

  drop_26 : drop 26 (layout src dst text sum) ≡ dst ++ (digit_list 8 sum ++ text)
  drop_26 =
      ap (drop 26) (◌∙◌ regrouped (sym (append_assoc (digit_list 10 (50 + length text)) src _)))
      ∙ drop-append (digit_list 10 (50 + length text) ++ src) _ 26 (
          omega (
            arith,
            length-digit_list 10 (50 + length text),
            length-append (digit_list 10 (50 + length text)) src,
          ))

  length_42 : length ((digit_list 10 (50 + length text) ++ src) ++ dst) ≡ 42
  length_42 = omega (
    arith,
    length-digit_list 10 (50 + length text),
    length-append (digit_list 10 (50 + length text)) src,
    length-append (digit_list 10 (50 + length text) ++ src) dst,
  )

  drop_42 : drop 42 (layout src dst text sum) ≡ digit_list 8 sum ++ text
  unfolding layout
  drop_42 =
      ap (drop 42) (append_assoc ((digit_list 10 (50 + length text) ++ src) ++ dst) _ text)
      ∙ drop-append ((digit_list 10 (50 + length text) ++ src) ++ dst) _ 42 (sym length_42)

  drop_50 : drop 50 (layout src dst text sum) ≡ text
  unfolding layout
  drop_50 =
      drop-append (((digit_list 10 (50 + length text) ++ src) ++ dst) ++ digit_list 8 sum) text 50 (
        omega (
          arith,
          length_42,
          length-digit_list 8 sum,
          length-append ((digit_list 10 (50 + length text) ++ src) ++ dst) (digit_list 8 sum),
        ))

  first_field :
      50 + length text < 2 ^ 31 → str_to_int (layout src dst text sum) 10 ≡ pos (50 + length text)
  first_field small =
      ap (λ t. str_to_int t 10) regrouped
      ∙ str_to_int-digit_list 10 (50 + length text) _ (omega arith) small

  data_size :
      50 + length text < 2 ^ 31 → to_int (pos (50 + length text) -ℤ pos 50) ≡ pos (length text)
  unfolding to_int ◌-ℤ◌
  data_size small = ground arith

  not_short : ltb (length (layout src dst text sum)) 50 ≡ false
  not_short = rw (length-layout src dst text sum ls ld) (ground arith)

  str_to_ip-layout :
      IsString src
      → IsString dst
      → IsString text
      → 50 + length text < 2 ^ 31
      → sum < pow10 8
      → str_to_ip (layout src dst text sum)
        ≡ some (record {
          total_length = pos (50 + length text);
          src_ip = src;
          dst_ip = dst;
          header_checksum = pos sum;
          payload = data_or_null text;
        })
  unfolding str_to_ip
  str_to_ip-layout hs hd ht small fits = rw (
    not_short,
    first_field small,
    drop_10,
    drop_26,
    drop_42,
    drop_50,
    data_size small,
    ip_field-append src (dst ++ (digit_list 8 sum ++ text)) hs ls,
    ip_field-append dst (digit_list 8 sum ++ text) hd ld,
    str_to_int-digit_list 8 sum text fits (omega arith),
    parsed_data_lem text ht,
  )

-- A packet that `create_ip_packet` makes, with memory, of two addresses of 16 bytes and a text
-- comes back from its text form, of 50 bytes and the data, unchanged, but that an empty text comes
-- back as NULL. The text form is shorter than 2 ^ 31 bytes.
pub str_to_ip-ip_to_str :
    (src dst text : List ℕ)
    → length src ≡ 16
    → length dst ≡ 16
    → IsString src
    → IsString dst
    → IsString text
    → 50 + length text < 2 ^ 31
    → (p : IpPacket) × (s : List ℕ) × (create_ip_packet true src dst text ≡ some (some p))
      × (ip_to_str true p ≡ some s)
      × (length s ≡ 50 + length text)
      × (str_to_ip s ≡ some (record p { payload = data_or_null text }))
unfolding create_ip_packet ip_to_str until_nul calc_ip_checksum text_of
str_to_ip-ip_to_str src dst text ls ld hs hd ht small =
    let p : IpPacket = packet src dst text 5 ls ld hs hd ht in
    let s = layout src dst text 5 in
    let length_kept : to_int (pos (50 + length text)) ≡ pos (50 + length text) =
      to_int_of_IsInt _ (omega arith, small) in
    (
      p,
      s,
      rw (ls, ld, length_kept) refl,
      ap (λ z. text_of (written (pos_part z) p)) length_kept
          ∙ (ap text_of (written-layout src dst text 5 ls ld hs hd ht)
              ∙ ap some (
                  until_nul-append s (0 ∷ []) (layout-IsString src dst text 5 ls ld hs hd ht)
                  ∙ append-nil s)),
      length-layout src dst text 5 ls ld,
      str_to_ip-layout src dst text 5 ls ld hs hd ht small (omega arith),
    )
