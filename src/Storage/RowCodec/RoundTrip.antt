-- ===== src/Storage/RowCodec/RoundTrip.antt =====
-- `Deserialize` reads back what `Serialize` wrote.
use aura_sql.Prelude.{
  ℕ, zero, suc, ◌%◌, ◌^◌, ◌≤◌, ◌<◌, ◌≡◌, refl, ap, sym, subst, true, false, List, [], ◌∷◌, ◌++◌,
  length, length-append, take, drop, map, arith, Bool-cases, inl, inr, if◌then◌else◌,
}
use mathlib.Core.List.{append_assoc}
use aura_sql.Prelude.Int.{IsI64, to_u64, of_u64-to_u64, to_u64-lt}
use aura_sql.Errors.{ok, ◌>>=◌}
use aura_sql.Core.{
  ColumnType, type_int, type_text, type_bool, Value, new_int, new_text, new_bool, null_value, Row,
}
use aura_sql.Storage.Bytes.{le_bytes, length-le_bytes, le_value-le_bytes}
use aura_sql.Storage.RowCodec.{
  serialize_value, serialize_values, serialize, read, read_int, read_text, read_bool, read_value,
  type_tag, null_tag, payload, deserialize_values, deserialize,
}

-- What a value keeps on disk: its type's content; a NULL loses its type.
abbrev pub stored_as : ColumnType → Value → Value
stored_as type_int v = new_int v.int
stored_as type_text v = new_text v.str
stored_as type_bool v = new_bool v.bool

abbrev pub stored : Value → Value
stored v = if v.null then null_value type_int else stored_as v.type v

-- An int64, and a text whose length fits the two bytes of its length field.
pub record Storable (v : Value) : Type 0 where
  pub int_fits : IsI64 v.int
  pub str_fits : length v.str < 2 ^ 16

abbrev pub AllStorable : List Value → Type 0
AllStorable [] = Unit
AllStorable (v ∷ vs) = Storable v × AllStorable vs

take-append : (a b : List ℕ) → take (length a) (a ++ b) ≡ a
take-append [] b = refl
take-append (x ∷ a) b = ap (◌∷◌ x) (take-append a b)

drop-append : (a b : List ℕ) → drop (length a) (a ++ b) ≡ b
drop-append [] b = refl
drop-append (x ∷ a) b = drop-append a b

pub read-append : (n : ℕ) (a b : List ℕ) → length a ≡ n → read n (a ++ b) ≡ ok (a, b)
unfolding read
read-append n a b h =
    rw (← h) (rw (take-append a b, drop-append a b) (ground (arith, length-append a b)))

read_int-payload :
    (v : Value) (rest : List ℕ)
    → IsI64 v.int
    → read_int (le_bytes 8 (to_u64 v.int) ++ rest) ≡ ok (new_int v.int, rest)
unfolding read_int
read_int-payload v rest h =
    rw (read-append 8 (le_bytes 8 (to_u64 v.int)) rest (length-le_bytes 8 _))
      (rw (le_value-le_bytes 8 (to_u64 v.int) (to_u64-lt v.int)) (rw (of_u64-to_u64 v.int h) refl))

read_text-payload :
    (v : Value) (rest : List ℕ)
    → length v.str < 2 ^ 16
    → read_text ((le_bytes 2 (length v.str % 2 ^ 16) ++ v.str) ++ rest) ≡ ok (new_text v.str, rest)
unfolding read_text
read_text-payload v rest h = rw append_assoc (
    rw (read-append 2 (le_bytes 2 (length v.str % 2 ^ 16)) (v.str ++ rest) (length-le_bytes 2 _)) (
      rw (le_value-le_bytes 2 (length v.str % 2 ^ 16) (omega arith))
        (rw (read-append (length v.str % 2 ^ 16) v.str rest (omega arith)) refl)))

read_value-payload :
    (t : ColumnType) (v : Value) (rest : List ℕ)
    → Storable v
    → read_value (type_tag t) (payload t v ++ rest) ≡ ok (stored_as t v ∷ [], rest)
unfolding read_value
read_value-payload type_int v rest h = rw (read_int-payload v rest h.int_fits) refl
read_value-payload type_text v rest h = rw (read_text-payload v rest h.str_fits) refl
read_value-payload type_bool v rest h = unfold read_bool in ground arith

serialize_value-null :
    (v : Value)
    → v.null ≡ true
    → (serialize_value v ≡ null_tag ∷ []) × (stored v ≡ null_value type_int)
unfolding serialize_value
serialize_value-null v h = (ground arith, ground arith)

serialize_value-set :
    (v : Value)
    → v.null ≡ false
    → (serialize_value v ≡ type_tag v.type ∷ payload v.type v) × (stored v ≡ stored_as v.type v)
unfolding serialize_value
serialize_value-set v h = (ground arith, ground arith)

-- One round of the loop on what `Serialize` wrote for `v`.
deserialize_values-value :
    (fuel : ℕ) (v : Value) (rest : List ℕ)
    → Storable v
    → deserialize_values (suc fuel) (serialize_value v ++ rest)
      ≡ (deserialize_values fuel rest >>= λ more. ok (stored v ∷ more))
unfolding deserialize_values
deserialize_values-value fuel v rest h = elim (Bool-cases v.null) [
  | inl gone ↦
      let (bytes, kept) = serialize_value-null v gone in
      rw bytes (
        subst
          (λ w.
            deserialize_values (suc fuel) (null_tag ∷ rest)
            ≡ (deserialize_values fuel rest >>= λ more. ok (w ∷ more)))
          (sym kept) (unfold read_value in refl))
  | inr set ↦
      let (bytes, kept) = serialize_value-set v set in
      rw bytes (
        subst
          (λ w.
            deserialize_values (suc fuel) (type_tag v.type ∷ payload v.type v ++ rest)
            ≡ (deserialize_values fuel rest >>= λ more. ok (w ∷ more)))
          (sym kept) (rw (read_value-payload v.type v rest h) refl))
]

serialize_value-pos : (v : Value) → 1 ≤ length (serialize_value v)
unfolding serialize_value
serialize_value-pos v = ground arith

deserialize_values-serialize_values :
    (vs : List Value) (fuel : ℕ)
    → AllStorable vs
    → length (serialize_values vs) ≤ fuel
    → deserialize_values fuel (serialize_values vs) ≡ ok (map stored vs)
unfolding serialize_values
deserialize_values-serialize_values [] fuel h enough = unfold deserialize_values in refl
deserialize_values-serialize_values (v ∷ vs) zero h enough =
    absurd (
      omega (arith, serialize_value-pos v, length-append (serialize_value v) (serialize_values vs)))
deserialize_values-serialize_values (v ∷ vs) (suc fuel) h enough =
    rw (deserialize_values-value fuel v (serialize_values vs) h.0) (
      rw
        (deserialize_values-serialize_values vs fuel h.1 (
          omega (
            arith,
            serialize_value-pos v,
            length-append (serialize_value v) (serialize_values vs),
          )))
        refl)

abbrev pub stored_row : Row → Row
stored_row row = record row { values = map stored row.values }

-- `Deserialize` gives back the versions and the values that `Serialize` was given, a NULL without
-- its type, wherever every text is shorter than 2^16 bytes.
pub deserialize-serialize :
    (row : Row)
    → row.xmin < 2 ^ 64
    → row.xmax < 2 ^ 64
    → AllStorable row.values
    → deserialize (serialize row) ≡ ok (stored_row row)
unfolding deserialize serialize
deserialize-serialize row hmin hmax h =
    rw
      (read-append 8 (le_bytes 8 row.xmin) (le_bytes 8 row.xmax ++ serialize_values row.values)
        (length-le_bytes 8 _))
      (rw (read-append 8 (le_bytes 8 row.xmax) (serialize_values row.values) (length-le_bytes 8 _))
        (rw
          (deserialize_values-serialize_values row.values (length (serialize_values row.values)) h
            (omega arith))
          (rw (le_value-le_bytes 8 row.xmin hmin) (rw (le_value-le_bytes 8 row.xmax hmax) refl))))

serialize_value-stored : (v : Value) → serialize_value (stored v) ≡ serialize_value v
serialize_value-stored v = elim (Bool-cases v.null) [
  | inl gone ↦ unfold serialize_value in ground arith
  | inr set ↦ unfold serialize_value in ground arith
]

pub serialize_values-stored :
    (vs : List Value) → serialize_values (map stored vs) ≡ serialize_values vs
unfolding serialize_values
serialize_values-stored [] = refl
serialize_values-stored (v ∷ vs) =
    rw (serialize_value-stored v) (rw (serialize_values-stored vs) refl)

-- Reading a stored row, setting its `xmax` and writing it again changes just those eight bytes: the
-- new bytes are those of the row itself under the new `xmax`, and there are as many of them.
pub restamp :
    (row : Row) (xmax : ℕ)
    → row.xmin < 2 ^ 64
    → row.xmax < 2 ^ 64
    → AllStorable row.values
    → ((deserialize (serialize row) >>= λ r. ok (serialize (record r { xmax = xmax })))
        ≡ ok (serialize (record row { xmax = xmax })))
      × (length (serialize (record row { xmax = xmax })) ≡ length (serialize row))
restamp row xmax hmin hmax h = (
  rw (deserialize-serialize row hmin hmax h)
      (unfold serialize in rw (serialize_values-stored row.values) refl),
  unfold serialize in
      omega (
        arith,
        length-append (le_bytes 8 row.xmin) (le_bytes 8 xmax ++ serialize_values row.values),
        length-append (le_bytes 8 row.xmin) (le_bytes 8 row.xmax ++ serialize_values row.values),
        length-append (le_bytes 8 row.xmax) (serialize_values row.values),
        length-append (le_bytes 8 xmax) (serialize_values row.values),
        length-le_bytes 8 xmax,
        length-le_bytes 8 row.xmax,
      ),
)
