-- ===== src/Compaction/Choice.antt =====
-- `CompactionPolicy::pick` returns the lowest level that is over its limit.
use htap_storage_lsm_tree.Common.{
  ℕ, zero, suc, ◌+◌, ◌*◌, ◌/◌, ◌%◌, ◌^◌, ◌<◌, ◌≡◌, refl, ap, sym, ◌∙◌, subst, Bool, true, false,
  Option, none, some, List, [], ◌∷◌, drop, get_elem?, ltb, leb, arith, Bool-cases, inl, inr,
}
use native.Mathlib.Nat.{
  mod-add-div', add-mul, mul_assoc, mul_comm, add-mul-mod_self_right, pow-suc, pow-zero,
}
use htap_storage_lsm_tree.Registry.{SstableInfo, SstableRegistry, sstable_count, or_empty}
use htap_storage_lsm_tree.Registry.Laws.{at}
use htap_storage_lsm_tree.Compaction.Policy.{
  CompactionTask, PolicyConfig, level_threshold, sum_sizes, task_to, pick_by_size, pick,
}

-- the bytes of the tables
abbrev pub total_bytes : List SstableInfo → ℕ
total_bytes [] = 0
total_bytes (sst ∷ ssts) = sst.file_size_bytes + total_bytes ssts

-- A level other than 0 is over its limit if the bytes of its tables are more than the base size, times the ratio to
-- the power of the level, both on 64 bits.
abbrev pub is_oversized : PolicyConfig → ℕ → List SstableInfo → Bool
is_oversized c level ssts =
    ltb (c.base_level_size_bytes * c.size_ratio ^ level % 2 ^ 64) (total_bytes ssts % 2 ^ 64)

mod-mul-mod : (a b m : ℕ) → a % m * b % m ≡ a * b % m
mod-mul-mod a b m = sym (
    ap (λ x. x * b % m) (sym (mod-add-div' a m))
    ∙ ap (λ x. x % m) (add-mul (a % m) (a / m * m) b)
    ∙ ap (λ x. (a % m * b + x) % m)
        (mul_assoc (a / m) m b ∙ ap (λ x. a / m * x) (mul_comm m b) ∙ sym (mul_assoc (a / m) b m))
    ∙ add-mul-mod_self_right (a % m * b) (a / m * b) m)

level_threshold-pow :
    (c : PolicyConfig) (level : ℕ)
    → level_threshold c (suc level) ≡ c.base_level_size_bytes * c.size_ratio ^ suc level % 2 ^ 64
unfolding level_threshold
level_threshold-pow c zero =
    ap (λ x. c.base_level_size_bytes * x % 2 ^ 64)
      (sym
        (pow-suc c.size_ratio 0 ∙ ap (λ x. x * c.size_ratio) (pow-zero c.size_ratio) ∙ omega arith))
level_threshold-pow c (suc level) =
    ap (λ x. x * c.size_ratio % 2 ^ 64) (level_threshold-pow c level)
    ∙ mod-mul-mod (c.base_level_size_bytes * c.size_ratio ^ suc level) c.size_ratio (2 ^ 64)
    ∙ ap (λ x. x % 2 ^ 64)
        (mul_assoc c.base_level_size_bytes (c.size_ratio ^ suc level) c.size_ratio
          ∙ ap (λ x. c.base_level_size_bytes * x) (sym (pow-suc c.size_ratio (suc level))))

sum_sizes-total :
    (ssts : List SstableInfo) (n : ℕ)
    → n < 2 ^ 64
    → sum_sizes n ssts ≡ (n + total_bytes ssts) % 2 ^ 64
unfolding sum_sizes
sum_sizes-total [] n h = omega arith
sum_sizes-total (sst ∷ ssts) n h =
    sum_sizes-total ssts ((n + sst.file_size_bytes) % 2 ^ 64) (omega arith) ∙ omega arith

-- The test of the loop is that the level is over its limit.
test_eq :
    (c : PolicyConfig) (level : ℕ) (ssts : List SstableInfo)
    → ltb (level_threshold c (suc level)) (sum_sizes 0 ssts) ≡ is_oversized c (suc level) ssts
test_eq c level ssts =
    ap (λ x. ltb x (sum_sizes 0 ssts)) (level_threshold-pow c level)
    ∙ ap (λ x. ltb (c.base_level_size_bytes * c.size_ratio ^ suc level % 2 ^ 64) x)
        (sum_sizes-total ssts 0 (omega arith) ∙ omega arith)

pub empty_small : (c : PolicyConfig) (level : ℕ) → is_oversized c level [] ≡ false
empty_small c level = ground arith

-- Level 0 is over its limit by the number of its tables.
abbrev pub is_over : PolicyConfig → SstableRegistry → ℕ → Bool
is_over c r zero = leb c.level0_compaction_trigger (sstable_count r 0)
is_over c r (suc level) = is_oversized c (suc level) (at r (suc level))

abbrev IsFirstFrom : PolicyConfig → List (List SstableInfo) → ℕ → Option CompactionTask → Type 0
IsFirstFrom c ls level none =
    (i n : ℕ) → level + i ≡ n → is_oversized c n (or_empty (get_elem? ls i)) ≡ false
IsFirstFrom c ls level (some t) =
    (i : ℕ) × (n : ℕ) × (level + i ≡ n)
    × (t ≡ task_to c n)
    × (is_oversized c n (or_empty (get_elem? ls i)) ≡ true)
    × ((j m : ℕ) → j < i → level + j ≡ m → is_oversized c m (or_empty (get_elem? ls j)) ≡ false)

small_at :
    (c : PolicyConfig) (l : List SstableInfo) (ls : List (List SstableInfo)) (level i n : ℕ)
    → is_oversized c level l ≡ false
    → level + i ≡ n
    → ((j : ℕ) → i ≡ suc j → is_oversized c n (or_empty (get_elem? ls j)) ≡ false)
    → is_oversized c n (or_empty (get_elem? (l ∷ ls) i)) ≡ false
small_at c l ls level zero n small e rest = let e' : level ≡ n = omega arith in rw e' at small
small_at c l ls level (suc i) n small e rest = rest i refl

IsFirstFrom-skip :
    (c : PolicyConfig) (l : List SstableInfo) (ls : List (List SstableInfo)) (level : ℕ)
    (o : Option CompactionTask)
    → is_oversized c level l ≡ false
    → IsFirstFrom c ls (suc level) o
    → IsFirstFrom c (l ∷ ls) level o
IsFirstFrom-skip c l ls level none small h =
    λ i n e. small_at c l ls level i n small e (λ j s. h j n (omega arith))
IsFirstFrom-skip c l ls level (some t) small (i, n, e, task, big, before) = (
  suc i,
  n,
  omega arith,
  task,
  big,
  λ j m lt e'. small_at c l ls level j m small e' (λ k s. before k m (omega arith) (omega arith)),
)

pick_by_size-IsFirst :
    (c : PolicyConfig) (ls : List (List SstableInfo)) (level : ℕ)
    → IsFirstFrom c ls (suc level) (pick_by_size c ls (suc level))
unfolding pick_by_size
pick_by_size-IsFirst c [] level = λ i n e. empty_small c n
pick_by_size-IsFirst c ([] ∷ ls) level =
    IsFirstFrom-skip c [] ls (suc level) (pick_by_size c ls (suc (suc level)))
      (empty_small c (suc level)) (pick_by_size-IsFirst c ls (suc level))
pick_by_size-IsFirst c ((sst ∷ ssts) ∷ ls) level =
    elim (Bool-cases (ltb (level_threshold c (suc level)) (sum_sizes 0 (sst ∷ ssts)))) [
      | inl big ↦ simp big (
        0,
        suc level,
        omega arith,
        refl,
        sym (test_eq c level (sst ∷ ssts)) ∙ big,
        λ j m lt e. absurd (omega arith),
      )
      | inr small ↦ simp small (
          IsFirstFrom-skip c (sst ∷ ssts) ls (suc level) (pick_by_size c ls (suc (suc level)))
            (sym (test_eq c level (sst ∷ ssts)) ∙ small) (pick_by_size-IsFirst c ls (suc level)))
    ]

-- What a caller of `pick` may rely on.
abbrev pub IsChoice : PolicyConfig → SstableRegistry → Option CompactionTask → Type 0
IsChoice c r none = (level : ℕ) → is_over c r level ≡ false
IsChoice c r (some t) =
    (t ≡ task_to c t.src_level)
    × (is_over c r t.src_level ≡ true)
    × ((level : ℕ) → level < t.src_level → is_over c r level ≡ false)

get_elem?-drop_one :
    (ls : List (List SstableInfo)) (i : ℕ) → get_elem? (drop 1 ls) i ≡ get_elem? ls (suc i)
get_elem?-drop_one [] i = refl
get_elem?-drop_one (l ∷ ls) i = refl

small_level :
    (c : PolicyConfig) (r : SstableRegistry) (bound : ℕ)
    → is_over c r 0 ≡ false
    → ((j m : ℕ)
        → j < bound
        → 1 + j ≡ m
        → is_oversized c m (or_empty (get_elem? (drop 1 r.levels) j)) ≡ false)
    → (level : ℕ) → level < suc bound
    → is_over c r level ≡ false
small_level c r bound few before zero lt = few
small_level c r bound few before (suc i) lt =
    rw (get_elem?-drop_one r.levels i) at (before i (suc i) (omega arith) (omega arith))

IsChoice-at :
    (c : PolicyConfig) (r : SstableRegistry) (i : ℕ)
    → is_over c r 0 ≡ false
    → is_oversized c (suc i) (or_empty (get_elem? (drop 1 r.levels) i)) ≡ true
    → ((j m : ℕ)
        → j < i
        → 1 + j ≡ m
        → is_oversized c m (or_empty (get_elem? (drop 1 r.levels) j)) ≡ false)
    → IsChoice c r (some (task_to c (suc i)))
IsChoice-at c r i few big before =
    (refl, rw (get_elem?-drop_one r.levels i) at big, small_level c r i few before)

IsChoice-of_first :
    (c : PolicyConfig) (r : SstableRegistry) (o : Option CompactionTask)
    → is_over c r 0 ≡ false
    → IsFirstFrom c (drop 1 r.levels) 1 o
    → IsChoice c r o
IsChoice-of_first c r none few h =
    λ level. small_level c r level few (λ j m lt e. h j m e) level (omega arith)
IsChoice-of_first c r (some t) few (i, n, e, task, big, before) =
    let e' : n ≡ suc i = omega arith in
    let same : t ≡ task_to c (suc i) = task ∙ ap (task_to c) e' in
    let big' : is_oversized c (suc i) (or_empty (get_elem? (drop 1 r.levels) i)) ≡ true =
      rw e' at big in
    subst (λ (u : CompactionTask). IsChoice c r (some u)) (sym same)
      (IsChoice-at c r i few big' before)

pub pick-IsChoice : (c : PolicyConfig) (r : SstableRegistry) → IsChoice c r (pick c r)
unfolding pick
pick-IsChoice c r = elim (Bool-cases (is_over c r 0)) [
  | inl many ↦ simp many (refl, refl, λ level lt. absurd (omega arith))
  | inr few ↦ simp few (
      IsChoice-of_first c r (pick_by_size c (drop 1 r.levels) 1) few
        (pick_by_size-IsFirst c (drop 1 r.levels) 0))
]
