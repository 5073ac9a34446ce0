-- ===== src/Parser/Events.antt =====
-- The callbacks that a JSON value leads to, and what the program keeps of the value.
use pillowtalk.Prelude.{ℕ, suc, ◌+◌, ◌≡◌, refl, List, [], ◌∷◌, ◌++◌}
use pillowtalk.Prelude.Int.{to_int}
use pillowtalk.Libraries.{Libraries}
use pillowtalk.Heap.{Heap, Run, ok, fault, aborted, out_of_fuel, and_then, Obj}
use pillowtalk.Value.{
  Scalar, null_value, bool_value, int_value, double_value, text, Value, Values, Fields, missing,
  scalar, sequence, mapping, no_values, value, no_fields, field,
}
use pillowtalk.Parser.{
  Context, Event, on_null, on_boolean, on_integer, on_double, on_string, on_start_map, on_map_key,
  on_end_map, on_start_array, on_end_array, callbacks, run_callbacks,
}

module _ ⦃L : Libraries⦄ where
  abbrev pub scalar_event : Scalar → Event
  scalar_event null_value = on_null
  scalar_event (bool_value b) = on_boolean b
  scalar_event (int_value z) = on_integer z
  scalar_event (double_value d) = on_double d
  scalar_event (text s) = on_string s

  -- The callbacks for a value, in the order of its text.
  unfoldable mutual
    pub events_of : Value → List Event
    events_of missing = on_null ∷ []
    events_of (scalar s) = scalar_event s ∷ []
    events_of (sequence vs) = on_start_array ∷ (value_events vs ++ on_end_array ∷ [])
    events_of (mapping fs) = on_start_map ∷ (field_events fs ++ on_end_map ∷ [])

    pub value_events : Values → List Event
    value_events no_values = []
    value_events (value v vs) = events_of v ++ value_events vs

    pub field_events : Fields → List Event
    field_events no_fields = []
    field_events (field k v fs) = on_map_key k ∷ (events_of v ++ field_events fs)

  -- What is kept of a value: integers are cut to `int`, and a missing one reads as null.
  abbrev pub parsed_scalar : Scalar → Scalar
  parsed_scalar (int_value z) = int_value (to_int z)
  parsed_scalar null_value = null_value
  parsed_scalar (bool_value b) = bool_value b
  parsed_scalar (double_value d) = double_value d
  parsed_scalar (text s) = text s

  unfoldable mutual
    pub parsed : Value → Value
    parsed missing = scalar null_value
    parsed (scalar s) = scalar (parsed_scalar s)
    parsed (sequence vs) = sequence (parsed_values vs)
    parsed (mapping fs) = mapping (parsed_fields fs)

    pub parsed_values : Values → Values
    parsed_values no_values = no_values
    parsed_values (value v vs) = value (parsed v) (parsed_values vs)

    pub parsed_fields : Fields → Fields
    parsed_fields no_fields = no_fields
    parsed_fields (field k v fs) = field k (parsed v) (parsed_fields fs)

  -- Enough allocations: two for each value, its node and its array element, and one for each key.
  unfoldable mutual
    pub cost : Value → ℕ
    cost missing = 2
    cost (scalar s) = 2
    cost (sequence vs) = 2 + values_cost vs
    cost (mapping fs) = 2 + fields_cost fs

    pub values_cost : Values → ℕ
    values_cost no_values = 0
    values_cost (value v vs) = cost v + values_cost vs

    pub fields_cost : Fields → ℕ
    fields_cost no_fields = 0
    fields_cost (field k v fs) = suc (cost v + fields_cost fs)

  extend :
      (r : Run Obj Context) (f g k : Context → Heap Obj → Run Obj Context)
      → ((c : Context) (h : Heap Obj) → f c h ≡ and_then (g c h) k)
      → and_then r f ≡ and_then (and_then r g) k
  extend (ok c h) f g k e = e c h
  extend fault f g k e = refl
  extend aborted f g k e = refl
  extend out_of_fuel f g k e = refl

  pub run-append :
      (xs ys : List Event) (c : Context) (h : Heap Obj)
      → run_callbacks (xs ++ ys) c h ≡ and_then (run_callbacks xs c h) (run_callbacks ys)
  unfolding run_callbacks
  run-append [] ys c h = refl
  run-append (x ∷ xs) ys c h =
      extend (callbacks x c h) (run_callbacks (xs ++ ys)) (run_callbacks xs) (run_callbacks ys)
        (run-append xs ys)
