-- ===== src/Storage/RowCodec.antt =====
-- storage/page.go: `Serialize` and `Deserialize`, the bytes of a row.
pub mod RoundTrip
use aura_sql.Prelude.{
  ℕ, zero, suc, ◌+◌, ◌%◌, ◌^◌, Bool, true, false, List, [], ◌∷◌, ◌++◌, Option, none, some, length,
  take, drop, leb, ◌==◌, GoString, if◌then◌else◌,
}
use aura_sql.Prelude.Int.{to_u64, of_u64}
use aura_sql.Errors.{Result, ok, err, panic, ◌>>=◌}
use aura_sql.Core.{
  ColumnType, type_int, type_text, type_bool, Value, new_int, new_text, new_bool, null_value, Row,
}
use aura_sql.Storage.Bytes.{le_bytes, le_value, slice}

abbrev pub null_tag : ℕ
null_tag = 255

-- `byte(v.Type)`
abbrev pub type_tag : ColumnType → ℕ
type_tag type_int = 0
type_tag type_text = 1
type_tag type_bool = 2

abbrev pub payload : ColumnType → Value → List ℕ
payload type_int v = le_bytes 8 (to_u64 v.int)
payload type_bool v = (if v.bool then 1 else 0) ∷ []
payload type_text v = le_bytes 2 (length v.str % 2 ^ 16) ++ v.str

unfoldable pub serialize_value : Value → List ℕ
serialize_value v = if v.null then null_tag ∷ [] else type_tag v.type ∷ payload v.type v

unfoldable pub serialize_values : List Value → List ℕ
serialize_values [] = []
serialize_values (v ∷ vs) = serialize_value v ++ serialize_values vs

-- Sixteen bytes of header, then the values.
unfoldable pub serialize : Row → List ℕ
serialize row = le_bytes 8 row.xmin ++ (le_bytes 8 row.xmax ++ serialize_values row.values)

-- `data[cursor : cursor+n]` where `data` is what the cursor has not passed; out of range it panics.
unfoldable pub read : ℕ → List ℕ → Result (List ℕ × List ℕ)
read n bs = if leb n (length bs) then ok (take n bs, drop n bs) else err panic

unfoldable pub read_int : List ℕ → Result (Value × List ℕ)
read_int bs = do (raw, rest) ← read 8 bs; ok (new_int (of_u64 (le_value raw)), rest)

unfoldable pub read_bool : List ℕ → Result (Value × List ℕ)
read_bool [] = err panic
read_bool (b ∷ bs) = ok (new_bool (b == 1), bs)

unfoldable pub read_text : List ℕ → Result (Value × List ℕ)
read_text bs = do
  (len, rest) ← read 2 bs
  (str, rest') ← read (le_value len) rest
  ok (new_text str, rest')

abbrev column_type : ℕ → Option ColumnType
column_type zero = some type_int
column_type (suc zero) = some type_text
column_type (suc (suc zero)) = some type_bool
column_type (suc (suc (suc n))) = none

abbrev read_payload : ColumnType → List ℕ → Result (Value × List ℕ)
read_payload type_int bs = read_int bs
read_payload type_text bs = read_text bs
read_payload type_bool bs = read_bool bs

-- One round of the loop: a value, or nothing for a tag that is no type.
unfoldable pub read_value : ℕ → List ℕ → Result (List Value × List ℕ)
read_value tag bs =
    if tag == null_tag then ok (null_value type_int ∷ [], bs) else elim (column_type tag) [
      | none ↦ ok ([], bs)
      | some t ↦ read_payload t bs >>= λ p. ok (p.0 ∷ [], p.1)
    ]

-- `for cursor < len(data)`: a round takes a byte at least, so as many rounds as there are bytes
-- are enough.
unfoldable pub deserialize_values : ℕ → List ℕ → Result (List Value)
deserialize_values fuel [] = ok []
deserialize_values zero (tag ∷ bs) = err panic
deserialize_values (suc fuel) (tag ∷ bs) = do
  (vs, rest) ← read_value tag bs
  more ← deserialize_values fuel rest
  ok (vs ++ more)

unfoldable pub deserialize : List ℕ → Result Row
deserialize bs = do
  (xmin, rest) ← read 8 bs
  (xmax, body) ← read 8 rest
  values ← deserialize_values (length body) body
  ok (record { values = values; xmin = le_value xmin; xmax = le_value xmax })
