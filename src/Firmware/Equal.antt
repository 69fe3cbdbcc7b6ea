-- ===== src/Firmware/Equal.antt =====
-- `==` of the values that JSON gives.
use linux_build.Base.{
  ℕ, zero, suc, Bool, true, false, ◌&&◌, none, some, ◌==◌, leb_ℤ, pos, ℤ, text_eq,
}
use linux_build.Toml.{
  Value, Items, Fields, nil, cons, end, field, null, bool, int, str, other, arr, table, get,
}

-- The number that a Boolean equals.
abbrev pub number_of : Bool → ℤ
number_of true = pos 1
number_of false = pos 0

abbrev pub same_int : ℤ → ℤ → Bool
same_int a b = leb_ℤ a b && leb_ℤ b a

unfoldable pub count_fields : Fields → ℕ
count_fields end = zero
count_fields (field k v fs) = suc (count_fields fs)

-- `a == b`; tables are equal if they have the same keys with equal values, in any order.
unfoldable mutual
  pub value_eq : Value → Value → Bool
  value_eq null null = true
  value_eq (bool a) (bool b) = same_int (number_of a) (number_of b)
  value_eq (bool a) (int b) = same_int (number_of a) b
  value_eq (int a) (bool b) = same_int a (number_of b)
  value_eq (int a) (int b) = same_int a b
  value_eq (str a) (str b) = text_eq a b
  value_eq (other a x) (other b y) = text_eq a b
  value_eq (arr a) (arr b) = items_eq a b
  value_eq (table a) (table b) = count_fields a == count_fields b && fields_in a b
  value_eq _ _ = false

  pub items_eq : Items → Items → Bool
  items_eq nil nil = true
  items_eq (cons a as') (cons b bs) = value_eq a b && items_eq as' bs
  items_eq _ _ = false

  pub fields_in : Fields → Fields → Bool
  fields_in end b = true
  fields_in (field k v fs) b =
      elim (get k b) [ none ↦ false | some w ↦ value_eq v w ] && fields_in fs b
