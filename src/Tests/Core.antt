-- ===== src/Tests/Core.antt =====
-- core/core.go on concrete values.
use aura_sql.Prelude.{◌≡◌, refl, Ordering, bytes, str_compare}
use aura_sql.Prelude.Int.{pos, negsuc}
use aura_sql.Errors.{ok}
use aura_sql.Core.{compare_value, new_int, new_text}

minus_one_lt_two : compare_value (new_int (negsuc 0)) (new_int (pos 2)) ≡ ok Ordering.lt
unfolding compare_value
minus_one_lt_two = refl

two_lt_nine : compare_value (new_int (pos 2)) (new_int (pos 9)) ≡ ok Ordering.lt
unfolding compare_value
two_lt_nine = refl

ab_lt_b : compare_value (new_text (bytes "ab")) (new_text (bytes "b")) ≡ ok Ordering.lt
unfolding compare_value str_compare
ab_lt_b = refl
