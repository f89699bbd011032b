-- ===== src/Tests/Eval.antt =====
-- executor/eval.go on concrete expressions.
use aura_sql.Prelude.{◌≡◌, refl, true, [], ◌∷◌, some, inr, bytes, str_eq}
use aura_sql.Prelude.Int.{pos, add_i64}
use aura_sql.Errors.{ok, err, errorf, Returns}
use aura_sql.Core.{
  new_int, new_text, type_int, type_text, type_bool, Schema, Row, row_of, Expr, literal, column_ref,
  binary, op_lt, op_add, index_of, column_index, compare_value,
}
use aura_sql.Eval.{eval, eval_where, eval_comparison}
use aura_sql.Eval.Typing.{HasType, type_of, eval_sound}

abbrev people : Schema
people = record {
  columns =
      record { name = bytes "id"; type = type_int }
      ∷ record { name = bytes "name"; type = type_text }
      ∷ [];
}

abbrev ada : Row
ada = row_of (new_int (pos 7) ∷ new_text (bytes "ada") ∷ [])

-- id + 1 < 9
abbrev id_test : Expr
id_test =
    binary op_lt (binary op_add (column_ref [] (bytes "id")) (literal (new_int (pos 1))))
      (literal (new_int (pos 9)))

id_test_type : type_of id_test people ≡ some type_bool
unfolding type_of str_eq
id_test_type = refl

id_test_value : eval_where (some id_test) ada people ≡ ok true
unfolding eval_where eval column_index index_of str_eq eval_comparison compare_value add_i64
id_test_value = refl

text_sum :
    eval (binary op_add (literal (new_text (bytes "x"))) (literal (new_int (pos 1)))) ada people
    ≡ err (errorf "+ requires integer operands, got %s and %s")
unfolding eval
text_sum = refl

eval_sound_example : Returns (HasType type_bool) (eval id_test ada people)
eval_sound_example = eval_sound id_test ada people type_bool (inr refl, (inr refl, tt)) id_test_type
