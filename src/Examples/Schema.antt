-- ===== src/Examples/Schema.antt =====
-- Schemas: tests of the builder.
use htap_storage_lsm_tree.Common.{
  ◌≡◌, refl, true, false, List, [], ◌∷◌, ok, err, ◌>>=◌, runtime_error,
}
use htap_storage_lsm_tree.Types.{ValueType}
use htap_storage_lsm_tree.Schema.{Column, make_schema}
use htap_storage_lsm_tree.Schema.Builder.{empty, add_column, add_columns, build, check_key}
use htap_storage_lsm_tree.Schema.Laws.{IsValidSchema, build-IsValidSchema}

abbrev columns : List Column
columns =
    record { name = "id"; type = ValueType.int64; is_key = true; nullable = false }
    ∷ record { name = "name"; type = ValueType.string; is_key = false; nullable = true }
    ∷ []

builds : (do b ← add_columns empty columns; build b) ≡ ok (make_schema columns)
unfolding add_columns add_column check_key build
builds = refl

needs_key :
    (do
      b ←
          add_columns empty
            (record { name = "x"; type = ValueType.double; is_key = false; nullable = true } ∷ [])
      build b)
    ≡ err (runtime_error "Schema must contain exactly one primary key")
unfolding add_columns add_column check_key build
needs_key = refl

build-IsValidSchema_example :
    IsValidSchema (make_schema columns) × ((make_schema columns).columns ≡ columns)
build-IsValidSchema_example = build-IsValidSchema columns builds
