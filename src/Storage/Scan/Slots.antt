-- ===== src/Storage/Scan/Slots.antt =====
-- What the iterator's loop over a page's slots finds.
use aura_sql.Prelude.{
  ℕ, zero, suc, ◌+◌, ◌≤◌, ◌<◌, ◌≡◌, inl, inr, refl, sym, ap, ◌∙◌, subst, arith, Bool, true, false,
  List, [], Option, none, some, Bool-cases, ◌==◌, ==_iff, ltb, leb,
}
use aura_sql.Errors.{Result, ok, err, panic, OnOk, ◌>>=◌}
use aura_sql.Core.{Row}
use aura_sql.Storage.Bytes.{slice, slice_zero}
use aura_sql.Storage.Page.{Page, page_size, slot_count, entry_in_page, data_offset, data_length}
use aura_sql.Storage.Page
use aura_sql.Storage.RowCodec.{deserialize, read}
use aura_sql.Storage.Mvcc.{Txns}
use aura_sql.Storage.BufferPool.View.{ℕ-cases}
use aura_sql.Storage.Scan.{is_shown, row_in, met_row, next_slot}

module _ (e : Txns) (x : ℕ) (raw : Bool) where
  -- Those bytes are a row that the iterator is to return.
  abbrev pub Wanted : Result (List ℕ) → Row → Type 0
  Wanted r row =
      (bytes : List ℕ) × (r ≡ ok bytes)
      × (deserialize bytes ≡ ok row)
      × (is_shown e x raw row ≡ true)

  abbrev pub Unwanted : Result (List ℕ) → Type 0
  Unwanted r = (row : Row) → ¬ Wanted r row

  SlotIs : Page → ℕ → Option Row → Type 0
  SlotIs page i none = Unwanted (Page.get page i)
  SlotIs page i (some row) =
      (bytes : List ℕ) × (Page.get page i ≡ ok bytes) × (deserialize bytes ≡ ok row)

  nothing_there :
      (r : Result (List ℕ)) → ((bytes : List ℕ) → r ≡ ok bytes → bytes ≡ []) → Unwanted r
  unfolding deserialize read
  nothing_there r empty row (bytes, is_it, reads, shown) =
      let blank : deserialize [] ≡ ok row =
        subst (λ b. deserialize b ≡ ok row) (empty bytes is_it) reads in
      cc

  ok_injective : {A : Type 0} {a b : A} → ok a ≡ ok b → a ≡ b
  ok_injective h = cc

  decoded :
      (page : Page) (i : ℕ) (bytes : List ℕ) (m : Result Row)
      → Page.get page i ≡ ok bytes
      → deserialize bytes ≡ m
      → OnOk (λ found. SlotIs page i found) (m >>= λ row. ok (some row))
  unfolding SlotIs
  decoded page i bytes (ok row) held reads = (bytes, held, reads)
  decoded page i bytes (err broken) held reads = tt

  -- What the loop finds in a slot is what `Get` reads there.
  row_in-SlotIs :
      (page : Page) (i : ℕ)
      → i < slot_count page
      → OnOk (λ found. SlotIs page i found) (row_in page i)
  unfolding Page.get SlotIs
  row_in-SlotIs page i low = elim (Bool-cases (entry_in_page i)) [
    | inr outside ↦ rw outside tt
    | inl inside ↦ elim (Bool-cases (leb (data_offset page i + data_length page i) page_size)) [
      | inl fits ↦
          let held : Page.get page i
              ≡ ok (slice page.bytes (data_offset page i) (data_length page i)) =
            rw (counted, inside, fits) refl in
          elim (Bool-cases (data_length page i == 0)) [
            | inl blank ↦
                rw (inside, blank)
                  (nothing_there (Page.get page i) λ bytes at.
                    sym (ok_injective (sym held ∙ at))
                    ∙ ap (slice page.bytes (data_offset page i))
                        ((==_iff (data_length page i) 0).0 blank)
                    ∙ slice_zero page.bytes (data_offset page i))
            | inr used ↦
                rw (inside, used, fits)
                  (decoded page i (slice page.bytes (data_offset page i) (data_length page i))
                    (deserialize (slice page.bytes (data_offset page i) (data_length page i))) held
                    refl)
          ]
      | inr sticks_out ↦ elim (Bool-cases (data_length page i == 0)) [
        | inl blank ↦
            rw (inside, blank)
              (nothing_there (Page.get page i) λ bytes at.
                let broken : Page.get page i ≡ err panic = rw (counted, inside, sticks_out) refl in
                cc)
        | inr used ↦ rw (inside, used, sticks_out) tt
      ]
    ]
  ]
    where
      counted : ltb i (slot_count page) ≡ true
      counted = ground arith

  -- Of `n` slots from `s` on: which one comes first that holds a wanted row, if any does.
  unfoldable pub SlotsMet : Page → ℕ → ℕ → Option (ℕ × Row) → Type 0
  SlotsMet page s n none = (i : ℕ) → s ≤ i → i < s + n → Unwanted (Page.get page i)
  SlotsMet page s n (some (j, row)) =
      (s ≤ j)
      × (j < s + n)
      × Wanted (Page.get page j) row
      × ((i : ℕ) → s ≤ i → i < j → Unwanted (Page.get page i))

  one_before :
      (page : Page) (s bound : ℕ)
      → Unwanted (Page.get page s)
      → ((i : ℕ) → suc s ≤ i → i < bound → Unwanted (Page.get page i))
      → (i : ℕ) → s ≤ i
      → i < bound
      → Unwanted (Page.get page i)
  one_before page s bound here later i low high = elim (ℕ-cases s i) [
    | inl same ↦ subst (λ k. Unwanted (Page.get page k)) same here
    | inr differ ↦ later i (omega arith) high
  ]

  extend :
      (page : Page) (s n : ℕ) (m : Result (Option (ℕ × Row)))
      → Unwanted (Page.get page s)
      → OnOk (SlotsMet page (suc s) n) m
      → OnOk (SlotsMet page s (suc n)) m
  unfolding SlotsMet
  extend page s n (err broken) here later = tt
  extend page s n (ok none) here later =
      λ i low high. one_before page s (suc s + n) here later i low (omega arith)
  extend page s n (ok (some (j, row))) here (low, high, there, before) =
      (omega arith, omega arith, there, one_before page s j here before)

  met_row-SlotsMet :
      (page : Page) (s n : ℕ) (m : Result (Option (ℕ × Row))) (r : Result (Option Row))
      → OnOk (λ found. SlotIs page s found) r
      → OnOk (SlotsMet page (suc s) n) m
      → OnOk (SlotsMet page s (suc n)) (met_row e x raw s m r)
  unfolding SlotIs SlotsMet
  met_row-SlotsMet page s n m (err broken) here later = tt
  met_row-SlotsMet page s n m (ok none) here later = extend page s n m here later
  met_row-SlotsMet page s n m (ok (some row)) (bytes, held, reads) later =
      elim (Bool-cases (is_shown e x raw row)) [
        | inl shown ↦ rw shown (
          omega arith,
          omega arith,
          (bytes, held, reads, shown),
          λ i low high. absurd (omega arith),
        )
        | inr hidden ↦ rw hidden (extend page s n m (unwanted hidden) later)
      ]
    where
      unwanted : is_shown e x raw row ≡ false → Unwanted (Page.get page s)
      unwanted hidden other (bytes', held', reads', shown) =
          let same_bytes : bytes ≡ bytes' = ok_injective (sym held ∙ held') in
          let same : row ≡ other = ok_injective (sym reads ∙ ap deserialize same_bytes ∙ reads') in
          let shown_too : is_shown e x raw row ≡ true = ap (is_shown e x raw) same ∙ shown in cc

  pub next_slot_lem :
      (page : Page) (n s : ℕ)
      → ((i : ℕ) → s ≤ i → i < s + n → i < slot_count page)
      → OnOk (SlotsMet page s n) (next_slot e x raw page n s)
  unfolding next_slot SlotsMet
  next_slot_lem page zero s low = λ i from high. absurd (omega arith)
  next_slot_lem page (suc n) s low =
      met_row-SlotsMet page s n (next_slot e x raw page n (suc s)) (row_in page s)
        (row_in-SlotIs page s (low s (omega arith) (omega arith)))
        (next_slot_lem page n (suc s) λ i from high. low i (omega arith) (omega arith))
