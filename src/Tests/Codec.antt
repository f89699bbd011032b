-- ===== src/Tests/Codec.antt =====
-- Rows and RowIDs of the package storage on concrete inputs.
use aura_sql.Prelude.{◌≡◌, refl, [], ◌∷◌, bytes, arith}
use aura_sql.Prelude.Int.{negsuc}
use aura_sql.Errors.{ok}
use aura_sql.Core.{new_int, new_text, null_value, type_text, Row}
use aura_sql.Storage.RowId.{encode_row_id, decode_row_id}
use aura_sql.Storage.RowCodec.{serialize, deserialize}
use aura_sql.Storage.RowCodec.RoundTrip.{stored_row, deserialize-serialize}

abbrev version : Row
version = record {
  values = new_int (negsuc 4) ∷ new_text (bytes "ada") ∷ null_value type_text ∷ [];
  xmin = 3;
  xmax = 0;
}

row_id_bits : decode_row_id (encode_row_id 5 9) ≡ (5, 9)
unfolding encode_row_id decode_row_id
row_id_bits = refl

deserialize-serialize_example : deserialize (serialize version) ≡ ok (stored_row version)
deserialize-serialize_example =
    deserialize-serialize version (omega arith) (omega arith) (omega arith)
