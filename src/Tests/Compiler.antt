-- ===== src/Tests/Compiler.antt =====
-- A target with a nested struct, an array and a padded vector, and the registration of its types.
use type_art.Prelude.{
  ℕ, zero, suc, sym, subst, some_inj, ◌+◌, ◌*◌, ◌≤◌, ◌<◌, ◌≡◌, ◌≢◌, refl, ◌==◌, ◌||◌, Bool, true,
  false, List, [], ◌∷◌, some, String, if◌then◌else◌, get_elem?, arith,
}
use type_art.Prelude.Int.{ℤ, pos}
use type_art.Passes.IrTypes.{
  IrOps, TypeKind, integer_ty, float_ty, double_ty, fixed_vector_ty, struct_ty, array_ty, is_array,
  is_struct, is_pointer,
}
use type_art.Passes.TypeHandlers.{get_builtin_typeid, get_name, get_vector_name}
use type_art.Passes.TypeGen.Laws.{All, IsTyped, IsNamed}
use type_art.Passes.TypeGen.Target.{offset_or_end, IsTarget}
use type_art.TypeLib.TypeDb.{TypeDb, is_reserved_type, get_type_size}
use type_art.Passes.TypeUtil.{size_of_non_array}
use type_art.Passes.TypeGen.Rule.{basic_id}
use type_art.Runtime.Resolution.{word}
use text.Mathlib.Text.{starts_with}
use text.Mathlib.TextEquality.{eq_iff}
use text.Mathlib.TextPositions.{starts_with-append}

-- struct inner { int a; double b; };
-- struct outer { char c; struct inner i; char s[3]; vector of three floats; };
pub data Sample : Type 0 where
  char_ int_ float_ double_ chars vector inner outer : Sample

abbrev kind_of : Sample → TypeKind
kind_of char_ = integer_ty
kind_of int_ = integer_ty
kind_of float_ = float_ty
kind_of double_ = double_ty
kind_of chars = array_ty
kind_of vector = fixed_vector_ty
kind_of inner = struct_ty
kind_of outer = struct_ty

abbrev size_of : Sample → ℕ
size_of char_ = 1
size_of int_ = 4
size_of float_ = 4
size_of double_ = 8
size_of chars = 3
size_of vector = 16
size_of inner = 16
size_of outer = 48

abbrev elements_of : Sample → List Sample
elements_of inner = int_ ∷ double_ ∷ []
elements_of outer = char_ ∷ inner ∷ chars ∷ vector ∷ []
elements_of t = []

abbrev offset_of : Sample → ℕ → ℕ
offset_of inner i = if i == 0 then 0 else 8
offset_of outer i = if i == 0 then 0 else if i == 1 then 8 else if i == 2 then 24 else 32
offset_of t i = 0

abbrev name_of : Sample → String
name_of inner = "struct.inner"
name_of outer = "struct.outer"
name_of t = ""

abbrev is_scalar : Sample → Bool
is_scalar chars = false
is_scalar inner = false
is_scalar outer = false
is_scalar t = true

abbrev pub target : IrOps Sample
target = record {
  kind = kind_of;
  is_single_value = is_scalar;
  integer_bits = λ t. 8 * size_of t;
  struct_elements = elements_of;
  array_num_elements = λ t. 3;
  array_element = λ t. char_;
  vector_num_elements = λ t. 3;
  vector_element = λ t. float_;
  is_literal = λ t. false;
  struct_name = name_of;
  address = λ t. 0;
  to_string = λ n. "3";
  scalar_size_in_bits = λ t. 8 * size_of t;
  pointer_size_in_bits = 64;
  alloc_size = size_of;
  element_offset = offset_of;
  struct_size = size_of;
}

abbrev pub depth : Sample → ℕ
depth chars = 1
depth inner = 1
depth outer = 2
depth t = 0

below : (t : Sample) → is_array target t ≡ true → 0 < depth t
below chars h = omega arith
below char_ h = cc
below t h = cc

members_below :
    (t : Sample) → target.kind t ≡ struct_ty → All (λ u. depth u < depth t) (elements_of t)
members_below inner h = omega arith
members_below outer h = omega arith
members_below t h = cc

first_class :
    (t : Sample)
    → (is_array target t || (is_struct target t || (is_scalar t || is_pointer target t))) ≡ true
first_class char_ = refl
first_class t = refl

vector_of :
    (t : Sample)
    → target.kind t ≡ fixed_vector_ty
    → (id : ℤ) × (get_builtin_typeid target float_ ≡ some id)
vector_of t h = (pos 5, refl)

pub target-IsTyped : IsTyped target depth
target-IsTyped = record {
  array_below = below;
  member_below = members_below;
  first_class = first_class;
  vector_of = vector_of;
}

names_differ : name_of inner ≢ name_of outer
names_differ h = cc ((eq_iff "struct.inner" "struct.outer").1 h)

one_name :
    (s t : Sample)
    → target.kind s ≡ struct_ty
    → target.kind t ≡ struct_ty
    → get_name target s ≡ get_name target t
    → s ≡ t
unfolding get_name
one_name inner inner h k e = refl
one_name inner outer h k e = absurd (names_differ e)
one_name outer inner h k e = absurd (names_differ (sym e))
one_name outer outer h k e = refl
one_name s t h k e = cc

no_vector_name :
    (s t : Sample) (element_name : String)
    → target.kind s ≡ struct_ty
    → get_name target s ≢ get_vector_name target t element_name
unfolding get_name
no_vector_name inner t name h e =
    cc (subst (λ s. starts_with s "vec3:" ≡ true) (sym e) (starts_with-append "vec3:" name))
no_vector_name outer t name h e =
    cc (subst (λ s. starts_with s "vec3:" ≡ true) (sym e) (starts_with-append "vec3:" name))
no_vector_name s t name h e = cc

pub target-IsNamed : IsNamed target
target-IsNamed = record { one_name = one_name; no_vector_name = no_vector_name }

basic_sizes :
    (db : TypeDb) (t : Sample)
    → target.kind t ≢ fixed_vector_ty
    → target.kind t ≢ struct_ty
    → is_array target t ≡ false
    → (get_type_size db (basic_id target t) ≡ size_of t)
      × (is_reserved_type (basic_id target t) ≡ true)
      × (0 < size_of t)
unfolding get_type_size
basic_sizes db char_ v s a = (refl, refl, omega arith)
basic_sizes db int_ v s a = (refl, refl, omega arith)
basic_sizes db float_ v s a = (refl, refl, omega arith)
basic_sizes db double_ v s a = (refl, refl, omega arith)
basic_sizes db chars v s a = cc
basic_sizes db vector v s a = absurd (v refl)
basic_sizes db inner v s a = absurd (s refl)
basic_sizes db outer v s a = absurd (s refl)

first_element :
    (t : Sample)
    → target.kind t ≡ struct_ty
    → (u : Sample) × (get_elem? (elements_of t) 0 ≡ some u) × (offset_of t 0 ≡ 0)
first_element inner h = (int_, refl, refl)
first_element outer h = (char_, refl, refl)
first_element t h = cc

in_order :
    (t u : Sample) (i : ℕ)
    → target.kind t ≡ struct_ty
    → get_elem? (elements_of t) i ≡ some u
    → offset_of t i + size_of u ≤ offset_or_end target t (suc i) (get_elem? (elements_of t) (suc i))
in_order inner u zero h e = rw (← some_inj e) (omega arith)
in_order inner u (suc zero) h e = rw (← some_inj e) (omega arith)
in_order inner u (suc (suc i)) h e = cc
in_order outer u zero h e = rw (← some_inj e) (omega arith)
in_order outer u (suc zero) h e = rw (← some_inj e) (omega arith)
in_order outer u (suc (suc zero)) h e = rw (← some_inj e) (omega arith)
in_order outer u (suc (suc (suc zero))) h e = rw (← some_inj e) (omega arith)
in_order outer u (suc (suc (suc (suc i)))) h e = cc
in_order t u i h e = cc

array_sizes : (t : Sample) → is_array target t ≡ true → size_of t ≡ 3 * 1
array_sizes chars h = refl
array_sizes t h = cc

struct_sizes :
    (t : Sample)
    → target.kind t ≡ struct_ty
    → (size_of t ≡ size_of t) × (0 < size_of t) × (size_of t < word)
struct_sizes inner h = omega arith
struct_sizes outer h = omega arith
struct_sizes t h = cc

vector_sizes :
    (t : Sample)
    → target.kind t ≡ fixed_vector_ty
    → (size_of_non_array target float_ ≡ 4)
      × (3 * 4 ≤ size_of t)
      × (0 < size_of t)
      × (size_of t < word)
vector_sizes vector h = (refl, omega arith, omega arith, omega arith)
vector_sizes t h = cc

vector_names :
    (t u : Sample) (name name' : String)
    → target.kind t ≡ fixed_vector_ty
    → target.kind u ≡ fixed_vector_ty
    → get_vector_name target t name ≡ get_vector_name target u name'
    → size_of t ≡ size_of u
vector_names vector vector name name' h k e = refl
vector_names t u name name' h k e = cc

pub target-IsTarget : IsTarget target
target-IsTarget = record {
  basic_sizes = basic_sizes;
  array_sizes = array_sizes;
  struct_sizes = struct_sizes;
  first_element = first_element;
  elements_in_order = in_order;
  vector_sizes = vector_sizes;
  vector_names = vector_names;
}
