-- ===== src/Schema/Laws.antt =====
-- What `SchemaBuilder::build` guarantees of the schema that it returns.
use htap_storage_lsm_tree.Common.{
  ℕ, zero, suc, ◌+◌, ◌≡◌, refl, ap, sym, ◌∙◌, String, Bool, true, false, some, List, [], ◌∷◌, ◌++◌,
  append_assoc, append-nil, length, get_elem?, All, All-append, All-imp, ok, ◌>>=◌, ok_of_bind,
  str_eq, str_eq_iff, Bool-cases, ◌⊎◌, ◌||◌, inl, inr, arith,
}
use htap_storage_lsm_tree.Common.Assoc.{Assoc, lookup, assign, lookup-assign, string_eq}
use htap_storage_lsm_tree.Types.{int64}
use htap_storage_lsm_tree.Schema.{Column, Schema, make_schema, index_names, get_column_index}
use htap_storage_lsm_tree.Schema.Builder.{
  SchemaBuilder, empty, contains_name, with_column, check_key, add_column, add_columns, build,
}

abbrev pub IsKeyColumn : Column → Type 0
IsKeyColumn c = (c.type ≡ int64) × (c.nullable ≡ false) × (c.is_key ≡ true)

abbrev pub IsPlainColumn : Column → Type 0
IsPlainColumn c = c.is_key ≡ false

-- With a key seen, the key is the first column and the only one.
abbrev pub HasKey : Bool → List Column → Type 0
HasKey false cs = All IsPlainColumn cs
HasKey true [] = ⊥
HasKey true (c ∷ cs) = IsKeyColumn c × All IsPlainColumn cs

abbrev pub HasDistinctNames : List Column → Type 0
HasDistinctNames [] = Unit
HasDistinctNames (c ∷ cs) = All (λ d. str_eq c.name d.name ≡ false) cs × HasDistinctNames cs

pub record IsValidSchema (s : Schema) : Type 0 where
  pub key_first : HasKey true s.columns
  pub distinct : HasDistinctNames s.columns
  pub indexed :
      (i : ℕ) (c : Column) → get_elem? s.columns i ≡ some c → get_column_index s c.name ≡ some i

record IsGood (b : SchemaBuilder) : Type 0 where
  shape : HasKey b.key_seen b.columns
  recorded : All (λ c. contains_name c.name b.column_names ≡ true) b.columns
  distinct : HasDistinctNames b.columns

fresh_differs :
    (names : List String) (n m : String)
    → contains_name n names ≡ true
    → contains_name m names ≡ false
    → str_eq n m ≡ false
fresh_differs names n m h k = elim (Bool-cases (str_eq n m)) [
  | inl e ↦
      absurd (ground (arith, ap (λ (t : String). contains_name t names) ((str_eq_iff n m).0 e)))
  | inr e ↦ e
]

HasDistinctNames-append :
    (cs : List Column) (c : Column)
    → HasDistinctNames cs
    → All (λ d. str_eq d.name c.name ≡ false) cs
    → HasDistinctNames (cs ++ c ∷ [])
HasDistinctNames-append [] c h k = (tt, tt)
HasDistinctNames-append (d ∷ cs) c h k = (
  All-append (λ e. str_eq d.name e.name ≡ false) cs (c ∷ []) h.0 (k.0, tt),
  HasDistinctNames-append cs c h.1 k.1,
)

HasKey-plain :
    (b : Bool) (cs : List Column) (c : Column)
    → HasKey b cs
    → c.is_key ≡ false
    → HasKey b (cs ++ c ∷ [])
HasKey-plain false cs c h p = All-append IsPlainColumn cs (c ∷ []) h (p, tt)
HasKey-plain true (d ∷ cs) c h p = (h.0, All-append IsPlainColumn cs (c ∷ []) h.1 (p, tt))
HasKey-plain true [] c h p = absurd h

recorded_more :
    (cs : List Column) (names : List String) (n : String)
    → All (λ c. contains_name c.name names ≡ true) cs
    → All (λ c. contains_name c.name (n ∷ names) ≡ true) cs
recorded_more cs names n h = All-imp (λ c e. ground arith) cs h

-- A key column passes its checks only into an empty builder.
check_key_ok :
    (b : SchemaBuilder) (c : Column)
    → check_key b c ≡ ok tt
    → (c.type ≡ int64) × (c.nullable ≡ false) × (b.key_seen ≡ false) × (length b.columns ≡ 0)
unfolding check_key
check_key_ok b c h = ground arith

add_column_ok :
    (b : SchemaBuilder) (c : Column) {b' : SchemaBuilder}
    → add_column b c ≡ ok b'
    → (contains_name c.name b.column_names ≡ false)
      × ((c.is_key ≡ false) ⊎ ((c.is_key ≡ true) × (check_key b c ≡ ok tt)))
      × (b' ≡ with_column b c)
unfolding add_column
add_column_ok b c h = ground arith

HasKey-add_plain :
    (seen : Bool) (cs : List Column) (c : Column)
    → HasKey seen cs
    → c.is_key ≡ false
    → HasKey (seen || c.is_key) (cs ++ c ∷ [])
HasKey-add_plain false cs c h p = simp p (HasKey-plain false cs c h p)
HasKey-add_plain true cs c h p = HasKey-plain true cs c h p

HasKey-add_key :
    (seen : Bool) (cs : List Column) (c : Column)
    → seen ≡ false
    → length cs ≡ 0
    → IsKeyColumn c
    → HasKey (seen || c.is_key) (cs ++ c ∷ [])
HasKey-add_key true cs c e z k = absurd (ground arith)
HasKey-add_key false [] c e z k = simp (k.2) ((k.0, k.1, refl), tt)
HasKey-add_key false (d ∷ cs) c e z k = absurd (omega arith)

with_column_shape :
    (b : SchemaBuilder) (c : Column)
    → HasKey b.key_seen b.columns
    → (c.is_key ≡ false) ⊎ ((c.is_key ≡ true) × (check_key b c ≡ ok tt))
    → HasKey (b.key_seen || c.is_key) (b.columns ++ c ∷ [])
with_column_shape b c h (inl p) = HasKey-add_plain b.key_seen b.columns c h p
with_column_shape b c h (inr k) =
    let (int, required, unseen, first) = check_key_ok b c k.1 in
    HasKey-add_key b.key_seen b.columns c unseen first (int, required, k.0)

with_column-IsGood :
    (b : SchemaBuilder) (c : Column)
    → IsGood b
    → contains_name c.name b.column_names ≡ false
    → (c.is_key ≡ false) ⊎ ((c.is_key ≡ true) × (check_key b c ≡ ok tt))
    → IsGood (with_column b c)
with_column-IsGood b c g new k = record {
  shape = with_column_shape b c g.shape k;
  recorded =
      All-append (λ d. contains_name d.name (c.name ∷ b.column_names) ≡ true) b.columns (c ∷ [])
        (recorded_more b.columns b.column_names c.name g.recorded)
        (ground (arith, str_eq_iff c.name c.name), tt);
  distinct =
      HasDistinctNames-append b.columns c g.distinct
        (All-imp (λ d r. fresh_differs b.column_names d.name c.name r new) b.columns g.recorded);
}

add_columns-IsGood :
    (b : SchemaBuilder) (cs : List Column) {b' : SchemaBuilder}
    → IsGood b
    → add_columns b cs ≡ ok b'
    → IsGood b' × (b'.columns ≡ b.columns ++ cs)
unfolding add_columns
add_columns-IsGood b [] {b' = b'} g h =
    let e : b ≡ b' = ground arith in rw (← e) (g, sym (append-nil b.columns))
add_columns-IsGood b (c ∷ cs) {b' = b'} g h =
    let (b₁, e, rest) = ok_of_bind (λ b₁. add_columns b₁ cs) (add_column b c) h in
    let (new, k, eq) = add_column_ok b c e in
    let good : IsGood b₁ = rw eq (with_column-IsGood b c g new k) in
    let (good', same) = add_columns-IsGood b₁ cs good rest in
    (good', same ∙ rw eq (append_assoc b.columns (c ∷ []) cs))

-- The index of a column's name is the column's place.
lookup-index_names_absent :
    (cs : List Column) (i : ℕ) (m : Assoc String ℕ) (n : String)
    → All (λ d. str_eq n d.name ≡ false) cs
    → lookup n (index_names cs i m) ≡ lookup n m
unfolding index_names
lookup-index_names_absent [] i m n h = refl
lookup-index_names_absent (c ∷ cs) i m n h =
    lookup-index_names_absent cs (suc i) (assign c.name i m) n h.1
    ∙ ground (arith, lookup-assign c.name n i m, str_eq_iff n c.name, str_eq_iff c.name n)

lookup-index_names :
    (cs : List Column) (i j : ℕ) (m : Assoc String ℕ) (c : Column)
    → HasDistinctNames cs
    → get_elem? cs j ≡ some c
    → lookup c.name (index_names cs i m) ≡ some (i + j)
unfolding index_names
lookup-index_names [] i j m c d h = absurd (ground arith)
lookup-index_names (b ∷ cs) i zero m c d h =
    let e : b ≡ c = ground arith in
    rw (← e) (
      lookup-index_names_absent cs (suc i) (assign b.name i m) b.name d.0
      ∙ ground (arith, lookup-assign b.name b.name i m, str_eq_iff b.name b.name))
lookup-index_names (b ∷ cs) i (suc j) m c d h =
    lookup-index_names cs (suc i) j (assign b.name i m) c d.1 h ∙ ap some (omega arith)

build_ok :
    (b : SchemaBuilder) {s : Schema}
    → build b ≡ ok s
    → (b.key_seen ≡ true) × (s ≡ make_schema b.columns)
unfolding build
build_ok b h = ground arith

-- A chain of `add_column` calls that ends in a successful `build` gives a schema of exactly those
-- columns: its first column, and no other, is the key, which is INT64 and not nullable; the names
-- are pairwise different; and `get_column_index` of a column's name is the column's index.
pub build-IsValidSchema :
    (cs : List Column) {s : Schema}
    → (do b ← add_columns empty cs; build b) ≡ ok s
    → IsValidSchema s × (s.columns ≡ cs)
unfolding make_schema get_column_index
build-IsValidSchema cs {s} h =
    let (b, added, built) = ok_of_bind build (add_columns empty cs) h in
    let (good, same) =
      add_columns-IsGood empty cs (record { shape = tt; recorded = tt; distinct = tt }) added in
    let (seen, eq) = build_ok b built in
    rw eq (
      (record {
        key_first = rw seen at good.shape;
        distinct = good.distinct;
        indexed =
            λ i c e. lookup-index_names b.columns 0 i [] c good.distinct e ∙ ap some (omega arith);
      }),
      same,
    )
