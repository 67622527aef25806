-- ===== src/Wire/Tests.antt =====
-- Concrete libraries for the tests: numbers in hundredths, and JSON values as a tree.
use scylla_cluster_sync_cxx.Prelude.{
  ℕ, ◌≡◌, arith, ◌+◌, ◌*◌, ◌/◌, refl, Bool, true, false, List, [], ◌∷◌, Text, text_eq, codes,
  Option, none, some, find, leb, if◌then◌else◌,
}
use scylla_cluster_sync_cxx.Wire.{Floats, Json, IsLawful}

abbrev pub hundredths : Floats
hundredths = record {
  Double = ℕ;
  Float = ℕ;
  of_nat = λ n. 100 * n;
  tenth = 10;
  add = λ a b. a + b;
  mul = λ a b. a * b / 100;
  div = λ a b. 100 * a / b;
  at_least = λ a b. leb b a;
  truncate = λ a. a / 100;
  fixed = λ d a. codes "";
  of_nat_f = λ n. 100 * n;
  mul_f = λ a b. a * b / 100;
  div_f = λ a b. 100 * a / b;
  widen = λ a. a;
}

mutual
  pub data Tree : Type 0 where
    raw : Text → Tree
    count : ℕ → Tree
    flag : Bool → Tree
    text : Text → Tree
    real : ℕ → Tree
    array : Items → Tree
    object : Fields → Tree

  pub data Items : Type 0 where
    no_item : Items
    item : Tree → Items → Items

  pub data Fields : Type 0 where
    no_field : Fields
    field : Text → Tree → Fields → Fields

abbrev pub items : List Tree → Items
items [] = no_item
items (v ∷ vs) = item v (items vs)

abbrev pub fields : List (Text × Tree) → Fields
fields [] = no_field
fields ((k, v) ∷ m) = field k v (fields m)

abbrev pub lookup : Text → Fields → Option Tree
lookup k no_field = none
lookup k (field j v m) = if text_eq j k then some v else lookup k m

lookup-fields : (k : Text) (m : List (Text × Tree)) → lookup k (fields m) ≡ find k m
unfolding find
lookup-fields k [] = refl
lookup-fields k ((j, v) ∷ m) = ground (arith, lookup-fields k m)

abbrev pub is_object_tree : Tree → Bool
is_object_tree (object m) = true
is_object_tree other = false

abbrev pub at_tree : Text → Tree → Option Tree
at_tree k (object m) = lookup k m
at_tree k other = none

abbrev pub count_of : Tree → Option ℕ
count_of (count n) = some n
count_of other = none

abbrev pub flag_of : Tree → Option Bool
flag_of (flag b) = some b
flag_of other = none

abbrev pub real_of : Tree → Option ℕ
real_of (real x) = some x
real_of other = none

abbrev pub trees : Json ℕ
trees = record {
  Value = Tree;
  Body = Tree;
  raw = raw;
  count = count;
  flag = flag;
  text = text;
  real = real;
  is_finite = λ x. true;
  array = λ vs. array (items vs);
  object = λ m. object (fields m);
  is_object = is_object_tree;
  at = at_tree;
  as_count = count_of;
  as_flag = flag_of;
  as_real = real_of;
  dump = λ v. v;
  parse = λ v. some v;
}

pub trees-IsLawful : IsLawful trees
trees-IsLawful = record {
  IsDumpable = λ v. Unit;
  parse-dump = λ v d. refl;
  count-IsDumpable = λ n small. tt;
  flag-IsDumpable = λ b. tt;
  text-IsDumpable = λ t ascii. tt;
  real-IsDumpable = λ x finite. tt;
  object-IsDumpable = λ m entries. tt;
  is_object-object = λ m. refl;
  at-object = lookup-fields;
  as_count-count = λ n small. refl;
  as_flag-flag = λ b. refl;
  as_real-real = λ x. refl;
}
