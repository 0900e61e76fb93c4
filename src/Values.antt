-- ===== src/Values.antt =====
-- The values of unstructured objects: what `interface{}` holds in a decoded Kubernetes object.
use kubernetes_resource_orch.Common.{
  ℕ, zero, suc, ◌≡◌, refl, arith, text_eq_iff, Bool, Option, none, some, if◌then◌else◌, Text,
  text_eq, ℤ,
}

-- A Go float is an opaque number: its bits.
mutual
  pub data Value : Type 0 where
    null : Value
    bool : Bool → Value
    integer : ℤ → Value
    float : ℕ → Value
    text : Text → Value
    array : Items → Value
    object : Fields → Value

  pub data Items : Type 0 where
    nil : Items
    cons : Value → Items → Items

  pub data Fields : Type 0 where
    end : Fields
    field : Text → Value → Fields → Fields

-- `v, ok := m[k]`
unfoldable pub get_field : Text → Fields → Option Value
get_field k end = none
get_field k (field j v fs) = if text_eq k j then some v else get_field k fs

-- `m[k] = v`
unfoldable pub set_field : Text → Value → Fields → Fields
set_field k v end = field k v end
set_field k v (field j w fs) = if text_eq k j then field k v fs else field j w (set_field k v fs)

unfoldable pub item_count : Items → ℕ
item_count nil = 0
item_count (cons v vs) = suc (item_count vs)

-- `a[i]`, for an index that the code has checked.
unfoldable pub get_item : ℕ → Items → Option Value
get_item i nil = none
get_item zero (cons v vs) = some v
get_item (suc i) (cons v vs) = get_item i vs

-- `a[i] = v`
unfoldable pub set_item : ℕ → Value → Items → Items
set_item i v nil = nil
set_item zero v (cons w vs) = cons v vs
set_item (suc i) v (cons w vs) = cons w (set_item i v vs)

-- `make([]interface{}, n)`
unfoldable pub nulls : ℕ → Items
nulls zero = nil
nulls (suc n) = cons null (nulls n)

-- `newArray := make([]interface{}, n); copy(newArray, array)`
unfoldable pub resize : ℕ → Items → Items
resize zero vs = nil
resize (suc n) nil = cons null (resize n nil)
resize (suc n) (cons v vs) = cons v (resize n vs)

pub get_field-set_field :
    (k j : Text) (v : Value) (fs : Fields)
    → get_field j (set_field k v fs) ≡ (if text_eq j k then some v else get_field j fs)
unfolding get_field set_field
get_field-set_field k j v end = refl
get_field-set_field k j v (field i w fs) =
    ground (arith, text_eq_iff j k, text_eq_iff k i, text_eq_iff j i, get_field-set_field k j v fs)
