-- ===== src/Value.antt =====
-- What the structs stand for: a JSON value, with `missing` for a NULL pointer.
use pillowtalk.Prelude.{if◌then◌else◌, same_bytes}
use pillowtalk.Prelude.Int.{ℤ}
use pillowtalk.Libraries.{Bytes, Libraries}
use pillowtalk.Heap.{Obj, null_node, bool_node, int_node, double_node, string_node}

module _ ⦃L : Libraries⦄ where
  -- The nodes that hold no other node.
  pub data Scalar : Type 0 where
    null_value : Scalar
    bool_value int_value : ℤ → Scalar
    double_value : L.Double → Scalar
    text : Bytes → Scalar

  abbrev pub obj_of : Scalar → Obj
  obj_of null_value = null_node
  obj_of (bool_value b) = bool_node b
  obj_of (int_value z) = int_node z
  obj_of (double_value d) = double_node d
  obj_of (text s) = string_node s

  mutual
    pub data Value : Type 0 where
      missing : Value
      scalar : Scalar → Value
      sequence : Values → Value
      mapping : Fields → Value

    pub data Values : Type 0 where
      no_values : Values
      value : Value → Values → Values

    pub data Fields : Type 0 where
      no_fields : Fields
      field : Bytes → Value → Fields → Fields

  -- The value of the first field with a key.
  abbrev pub get_field : Bytes → Fields → Value
  get_field k no_fields = missing
  get_field k (field j v fs) = if same_bytes j k then v else get_field k fs
