-- ===== src/Storage/Page.antt =====
-- storage/page.go: a slotted page. Bytes 0-1 count the slots, bytes 2-3 hold the free-space pointer,
-- then come four bytes for each slot, its offset and length; the rows fill the page from its end.
pub mod Layout
mod Header
pub mod Insert
pub mod Update
pub mod Delete
use aura_sql.Prelude.{
  ℕ, ◌+◌, ◌-◌, ◌*◌, ◌≤◌, ◌<◌, Bool, false, ◌&&◌, List, [], ◌∷◌, length, replicate, ltb, leb,
  if◌then◌else◌,
}
use aura_sql.Errors.{Result, ok, err, errorf, panic}
use aura_sql.Storage.Bytes.{slice, write, u16_at, put_u16}

abbrev pub page_size : ℕ
page_size = 4096

pub record Page : Type 0 where
  pub page_id : ℕ
  pub bytes : List ℕ
  pub is_dirty : Bool

-- An array of that many zero bytes.
unfoldable pub zero_bytes : ℕ → List ℕ
zero_bytes n = replicate n 0

-- A `Page` that no code has written to: `&Page{}`.
unfoldable pub zero_page : Page
zero_page = record { page_id = 0; bytes = zero_bytes page_size; is_dirty = false }

unfoldable pub new_page : Page
unfolding zero_page
new_page = record zero_page { bytes = put_u16 (zero_bytes page_size) 2 page_size }

abbrev pub slot_count : Page → ℕ
slot_count p = u16_at p.bytes 0

abbrev pub free_space : Page → ℕ
free_space p = u16_at p.bytes 2

abbrev pub slot_offset : ℕ → ℕ
slot_offset i = 4 + i * 4

abbrev pub data_offset : Page → ℕ → ℕ
data_offset p i = u16_at p.bytes (slot_offset i)

abbrev pub data_length : Page → ℕ → ℕ
data_length p i = u16_at p.bytes (slot_offset i + 2)

-- `freeSpace-slotOffset < requiredSpace` is on signed numbers.
abbrev pub lacks_room : Page → List ℕ → Bool
lacks_room p row = ltb (free_space p) (slot_offset (slot_count p) + (length row + 4))

-- The page once a row is copied in, its slot entered and the header updated.
abbrev pub with_row : Page → List ℕ → Page
with_row p row =
    let n = slot_count p in
    let new_free = free_space p - length row in
    let copied = write p.bytes new_free row in
    let entered =
      put_u16 (put_u16 copied (slot_offset n) new_free) (slot_offset n + 2) (length row) in
    record p { bytes = put_u16 (put_u16 entered 0 (n + 1)) 2 new_free }

-- The slices of the row and of its slot's entry lie in the page; in Go any other slice panics.
abbrev pub entry_in_page : ℕ → Bool
entry_in_page i = leb (slot_offset i + 4) page_size

unfoldable pub insert : Page → List ℕ → Result (ℕ × Page)
insert p row =
    if lacks_room p row
    then err (errorf "page is full")
    else if leb (free_space p) page_size
    then ok (slot_count p, with_row p row)
    else err panic

unfoldable pub get : Page → ℕ → Result (List ℕ)
get p i =
    if ltb i (slot_count p)
    then if entry_in_page i && leb (data_offset p i + data_length p i) page_size
      then ok (slice p.bytes (data_offset p i) (data_length p i))
      else err panic
    else err (errorf "invalid slot index")

abbrev pub with_tombstone : Page → ℕ → Page
with_tombstone p i = record p {
  bytes = put_u16 (put_u16 p.bytes (slot_offset i) 0) (slot_offset i + 2) 0;
}

unfoldable pub delete : Page → ℕ → Result Page
delete p i =
    if ltb i (slot_count p)
    then if entry_in_page i then ok (with_tombstone p i) else err panic
    else err (errorf "invalid slot index")

abbrev pub with_update : Page → ℕ → List ℕ → Page
with_update p i row = record p {
  bytes = put_u16 (write p.bytes (data_offset p i) row) (slot_offset i + 2) (length row);
}

unfoldable pub update : Page → ℕ → List ℕ → Result Page
update p i row =
    if ltb i (slot_count p)
    then if entry_in_page i
      then if leb (length row) (data_length p i)
        then if leb (data_offset p i + length row) page_size
          then ok (with_update p i row)
          else err panic
        else err (errorf "row too large")
      else err panic
    else err (errorf "invalid slot index")
