-- ===== src/Core/Order.antt =====
-- `Value.Compare` of core/core.go orders the non-null values of one type.
use aura_sql.Prelude.{
  ◌≡◌, ap, ◌∙◌, ◌↔◌, false, Ordering, arith, flip, str_compare-flip, str_compare-eq_iff,
  str_compare_trans,
}
use aura_sql.Core.{
  Value, ColumnType, compare_by_type, compare_value, type_int, type_text, type_bool,
}
use aura_sql.Errors.{Result, ok, err}

-- The content that a value of type `t` carries is the same.
abbrev pub SameContent : ColumnType → Value → Value → Type 0
SameContent type_int v o = v.int ≡ o.int
SameContent type_text v o = v.str ≡ o.str
SameContent type_bool v o = v.bool ≡ o.bool

-- Both values are non-null and of type `t`.
pub record Comparable (t : ColumnType) (v o : Value) : Type 0 where
  pub left_type : v.type ≡ t
  pub right_type : o.type ≡ t
  pub left_set : v.null ≡ false
  pub right_set : o.null ≡ false

compare_by_type-flip :
    (t : ColumnType) (v o : Value) → compare_by_type t o v ≡ flip (compare_by_type t v o)
compare_by_type-flip type_int v o = ground arith
compare_by_type-flip type_text v o = str_compare-flip v.str o.str
compare_by_type-flip type_bool v o = ground arith

compare_by_type-eq_iff :
    (t : ColumnType) (v o : Value) → (compare_by_type t v o ≡ Ordering.eq) ↔ SameContent t v o
compare_by_type-eq_iff type_int v o = ground arith
compare_by_type-eq_iff type_text v o = str_compare-eq_iff v.str o.str
compare_by_type-eq_iff type_bool v o = ground arith

compare_by_type_trans :
    (t : ColumnType) (u v w : Value)
    → compare_by_type t u v ≡ Ordering.lt
    → compare_by_type t v w ≡ Ordering.lt
    → compare_by_type t u w ≡ Ordering.lt
compare_by_type_trans type_int u v w h k = ground arith
compare_by_type_trans type_text u v w h k = str_compare_trans u.str v.str w.str h k
compare_by_type_trans type_bool u v w h k = ground arith

pub compare_value-Comparable :
    {t : ColumnType} (v o : Value)
    → Comparable t v o
    → compare_value v o ≡ ok (compare_by_type t v o)
unfolding compare_value
compare_value-Comparable {t = type_int} v o h = ground arith
compare_value-Comparable {t = type_text} v o h = ground arith
compare_value-Comparable {t = type_bool} v o h = ground arith

-- Swapping the operands of a comparison that succeeds turns its result round.
pub compare_value-flip :
    (v o : Value) (c : Ordering) → compare_value v o ≡ ok c → compare_value o v ≡ ok (flip c)
unfolding compare_value
compare_value-flip v o c h = ground (arith, compare_by_type-flip v.type v o)

-- What a comparison that succeeds says of its operands.
compare_value-ok :
    (v o : Value) (c : Ordering)
    → compare_value v o ≡ ok c
    → Comparable v.type v o × (compare_by_type v.type v o ≡ c)
unfolding compare_value
compare_value-ok v o c h = (ground arith, ground arith)

-- A comparison gives 0 exactly when both values are non-null, of one type and of the same content.
pub compare_value-eq_iff :
    (v o : Value)
    → (compare_value v o ≡ ok Ordering.eq) ↔ (Comparable v.type v o × SameContent v.type v o)
compare_value-eq_iff v o = (
  λ h.
      let (c, e) = compare_value-ok v o Ordering.eq h in
      (c, (compare_by_type-eq_iff v.type v o).0 e),
  λ h. compare_value-Comparable v o h.0 ∙ ap ok ((compare_by_type-eq_iff v.type v o).1 h.1),
)

-- "Less than" is transitive across successful comparisons.
pub compare_value_trans :
    (u v w : Value)
    → compare_value u v ≡ ok Ordering.lt
    → compare_value v w ≡ ok Ordering.lt
    → compare_value u w ≡ ok Ordering.lt
unfolding compare_value
compare_value_trans u v w h k = ground (arith, compare_by_type_trans u.type u v w)

abbrev pub flip_result : Result Ordering → Result Ordering
flip_result (ok c) = ok (flip c)
flip_result (err e) = err e

pub compare_value_swap : (v o : Value) → compare_value o v ≡ flip_result (compare_value v o)
unfolding compare_value
compare_value_swap v o = ground (arith, compare_by_type-flip v.type v o)
