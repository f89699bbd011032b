-- ===== src/Storage/Page/Header.antt =====
-- The four stores of `Page.Insert` after it has copied the row: the slot's entry, then the header.
use aura_sql.Prelude.{ℕ, ◌+◌, ◌^◌, ◌≤◌, ◌<◌, ◌≡◌, ◌∙◌, inl, inr, List, length, arith}
use aura_sql.Storage.Bytes.{u16_at, put_u16}
use aura_sql.Storage.Bytes.Apart.{length-put_u16, u16_at-put_u16, u16_at-put_u16-Apart}
use aura_sql.Storage.Page.{page_size}

module _ (d : List ℕ) (size : length d ≡ page_size) (at nf len n : ℕ) (low : 4 ≤ at)
    (high : at + 4 ≤ page_size) (nf_fits : nf < 2 ^ 16) (len_fits : len < 2 ^ 16)
    (n_fits : n < 2 ^ 16) where
  abbrev pub first : List ℕ
  first = put_u16 d at nf

  abbrev pub second : List ℕ
  second = put_u16 first (at + 2) len

  abbrev pub third : List ℕ
  third = put_u16 second 0 n

  abbrev pub fourth : List ℕ
  fourth = put_u16 third 2 nf

  first_size : length first ≡ page_size
  first_size = length-put_u16 d at nf ∙ size

  second_size : length second ≡ page_size
  second_size = length-put_u16 first (at + 2) len ∙ first_size

  third_size : length third ≡ page_size
  third_size = length-put_u16 second 0 n ∙ second_size

  pub fourth_size : length fourth ≡ page_size
  fourth_size = length-put_u16 third 2 nf ∙ third_size

  pub count_field : u16_at fourth 0 ≡ n
  count_field =
      u16_at-put_u16-Apart third 2 nf 0 (inl (omega arith))
      ∙ u16_at-put_u16 second 0 n (omega (arith, second_size)) n_fits

  pub free_field : u16_at fourth 2 ≡ nf
  free_field = u16_at-put_u16 third 2 nf (omega (arith, third_size)) nf_fits

  pub length_field : u16_at fourth (at + 2) ≡ len
  length_field =
      u16_at-put_u16-Apart third 2 nf (at + 2) (inr (omega arith))
      ∙ (u16_at-put_u16-Apart second 0 n (at + 2) (inr (omega arith))
          ∙ u16_at-put_u16 first (at + 2) len (omega (arith, first_size)) len_fits)

  pub offset_field : u16_at fourth at ≡ nf
  offset_field =
      u16_at-put_u16-Apart third 2 nf at (inr (omega arith))
      ∙ (u16_at-put_u16-Apart second 0 n at (inr (omega arith))
          ∙ (u16_at-put_u16-Apart first (at + 2) len at (inl (omega arith))
              ∙ u16_at-put_u16 d at nf (omega (arith, size)) nf_fits))
