-- ===== src/Json.antt =====
-- `serde_json::Value`, as far as the program distinguishes values: the data that plugins and
-- engines own is carried whole, compared, and asked for a key or a string.
use tx_ide_rs.Prelude.{
  refl, ◌≡◌, ◌↔◌, Bool, true, false, ◌&&◌, Option, none, some, arith, Text, text_eq, text_eq_iff,
  if◌then◌else◌,
}

mutual
  pub data Value : Type 0 where
    null : Value
    bool : Bool → Value
    number : Text → Value
    string : Text → Value
    array : Items → Value
    object : Fields → Value

  pub data Items : Type 0 where
    nil : Items
    cons : Value → Items → Items

  pub data Fields : Type 0 where
    end : Fields
    field : Text → Value → Fields → Fields

abbrev bool_eq : Bool → Bool → Bool
bool_eq true b = b
bool_eq false true = false
bool_eq false false = true

unfoldable mutual
  pub value_eq : Value → Value → Bool
  value_eq null null = true
  value_eq (bool a) (bool b) = bool_eq a b
  value_eq (number a) (number b) = text_eq a b
  value_eq (string a) (string b) = text_eq a b
  value_eq (array a) (array b) = items_eq a b
  value_eq (object a) (object b) = fields_eq a b
  value_eq _ _ = false

  pub items_eq : Items → Items → Bool
  items_eq nil nil = true
  items_eq (cons a as') (cons b bs) = value_eq a b && items_eq as' bs
  items_eq _ _ = false

  pub fields_eq : Fields → Fields → Bool
  fields_eq end end = true
  fields_eq (field k v fs) (field l w gs) = text_eq k l && (value_eq v w && fields_eq fs gs)
  fields_eq _ _ = false

cons_iff :
    (p q : Bool) (a b : Value) (xs ys : Items)
    → (p ≡ true) ↔ (a ≡ b)
    → (q ≡ true) ↔ (xs ≡ ys)
    → ((p && q) ≡ true) ↔ (cons a xs ≡ cons b ys)
cons_iff p q a b xs ys h k = ground arith

field_iff :
    (o p q : Bool) (k l : Text) (a b : Value) (xs ys : Fields)
    → (o ≡ true) ↔ (k ≡ l)
    → (p ≡ true) ↔ (a ≡ b)
    → (q ≡ true) ↔ (xs ≡ ys)
    → ((o && (p && q)) ≡ true) ↔ (field k a xs ≡ field l b ys)
field_iff o p q k l a b xs ys g h i = ground arith

mutual
  unfolding value_eq

  value_iff : (a b : Value) → (value_eq a b ≡ true) ↔ (a ≡ b)
  value_iff (bool a) (bool b) = ground arith
  value_iff (number a) (number b) = ground (arith, text_eq_iff a b)
  value_iff (string a) (string b) = ground (arith, text_eq_iff a b)
  value_iff (array a) (array b) = ground (arith, items_iff a b)
  value_iff (object a) (object b) = ground (arith, fields_iff a b)
  value_iff _ _ = ground arith

  items_iff : (a b : Items) → (items_eq a b ≡ true) ↔ (a ≡ b)
  items_iff (cons a as') (cons b bs) = cons_iff _ _ a b as' bs (value_iff a b) (items_iff as' bs)
  items_iff _ _ = ground arith

  fields_iff : (a b : Fields) → (fields_eq a b ≡ true) ↔ (a ≡ b)
  fields_iff (field k v fs) (field l w gs) =
      field_iff _ _ _ k l v w fs gs (text_eq_iff k l) (value_iff v w) (fields_iff fs gs)
  fields_iff _ _ = ground arith

pub value_eq_iff : (a b : Value) → (value_eq a b ≡ true) ↔ (a ≡ b)
value_eq_iff a b = value_iff a b

-- `Value::is_null`
unfoldable pub is_null : Value → Bool
is_null null = true
is_null _ = false

pub is_null-null : (v : Value) → is_null v ≡ true → v ≡ null
unfolding is_null
is_null-null null h = refl
is_null-null (bool b) h = cc
is_null-null (number n) h = cc
is_null-null (string t) h = cc
is_null-null (array vs) h = cc
is_null-null (object fs) h = cc

-- `Value::as_str`
pub as_str : Value → Option Text
as_str (string s) = some s
as_str _ = none

field_named : Text → Fields → Option Value
field_named key end = none
field_named key (field k v fs) = if text_eq k key then some v else field_named key fs

-- `Value::get` with a key: the member of an object, and `None` for any other value.
unfoldable pub get : Text → Value → Option Value
unfolding field_named
get key (object fs) = field_named key fs
get key _ = none
