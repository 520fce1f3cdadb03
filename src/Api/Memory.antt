-- ===== src/Api/Memory.antt =====
-- Go's memory as the deep copies of api/v1alpha1/zz_generated.deepcopy.go see it: a pointer, a slice
-- or a map is an address with what is stored there, and an allocation takes the next address.
pub mod Deep
pub mod Flat
pub mod Credentials
pub mod DnsProvider
pub mod Dns
pub mod ClusterSpec
pub mod ClusterStatus
pub mod Cluster
pub mod GitHub
pub mod Bootstrap
pub mod Network
pub mod TemplateContent
pub mod TemplateStatus
pub mod Template
pub mod MachineClaim
pub mod RunnerPool
pub mod Objects
use hyperfleet_controller.Base.{ℕ, suc, Text, List, [], ◌∷◌, Option, none, some, M}

pub record Ref (A : Type 0) : Type 0 where
  pub address : ℕ
  pub value : A

abbrev pub Pointer : Type 0 → Type 0
Pointer A = Option (Ref A)

abbrev pub Slice : Type 0 → Type 0
Slice A = Option (Ref (List A))

-- map[string]string
abbrev pub Map : Type 0
Map = Slice (Text × Text)

-- The state is the next free address.
abbrev pub Alloc : Type 0 → Type 0
Alloc A = M ℕ A

-- How a type is copied: its DeepCopyInto, as what `out` holds then; its values with every address
-- forgotten; and what it is for all addresses in a value to have a property.
pub record Copier (A : Type 0) : Type 1 where
  pub into : A → Alloc A
  pub erase : A → A
  pub Refs : (ℕ → Type 0) → A → Type 0

-- `*out = *in`, for a type without pointers.
abbrev pub flat : (A : Type 0) → Copier A
flat A = record { into = λ x n. (x, n); erase = λ x. x; Refs = λ P x. Unit }

module _ {A : Type 0} (c : Copier A) where
  -- `*out = new(T)` and the copy of what the pointer leads to; also DeepCopy itself.
  unfoldable pub new_copy : Pointer A → Alloc (Pointer A)
  new_copy none n = (none, n)
  new_copy (some r) n =
      let (value, n') = c.into r.value (suc n) in (some (record { address = n; value = value }), n')

  unfoldable pub erase_ref : Ref A → Ref A
  erase_ref r = record { address = 0; value = c.erase r.value }

  unfoldable pub erase_pointer : Pointer A → Pointer A
  erase_pointer none = none
  erase_pointer (some r) = some (erase_ref r)

  unfoldable pub PointerRefs : (ℕ → Type 0) → Pointer A → Type 0
  PointerRefs P none = Unit
  PointerRefs P (some r) = P r.address × c.Refs P r.value

  abbrev pub pointer : Copier (Pointer A)
  pointer = record { into = new_copy; erase = erase_pointer; Refs = PointerRefs }

  -- The loop over the elements of a slice.
  unfoldable pub copy_elements : List A → Alloc (List A)
  copy_elements [] n = ([], n)
  copy_elements (x ∷ xs) n =
      let (y, n') = c.into x n in let (ys, n'') = copy_elements xs n' in (y ∷ ys, n'')

  unfoldable pub erase_elements : List A → List A
  erase_elements [] = []
  erase_elements (x ∷ xs) = c.erase x ∷ erase_elements xs

  unfoldable pub ElementRefs : (ℕ → Type 0) → List A → Type 0
  ElementRefs P [] = Unit
  ElementRefs P (x ∷ xs) = c.Refs P x × ElementRefs P xs

  abbrev pub elements : Copier (List A)
  elements = record { into = copy_elements; erase = erase_elements; Refs = ElementRefs }

-- `*out = make([]T, len(*in))` and the copies of the elements; a map is copied entry by entry.
abbrev pub slice : {A : Type 0} → Copier A → Copier (Slice A)
slice c = pointer (elements c)

abbrev pub copy_slice : {A : Type 0} → Copier A → Slice A → Alloc (Slice A)
copy_slice c = new_copy (elements c)

abbrev pub map : Copier Map
map = slice (flat (Text × Text))

abbrev pub copy_map : Map → Alloc Map
copy_map = copy_slice (flat (Text × Text))

-- Two fields, one after the other.
abbrev pub pair : {A B : Type 0} → Copier A → Copier B → Copier (A × B)
pair c d = record {
  into = λ x n. let (a, n') = c.into x.0 n in let (b, n'') = d.into x.1 n' in ((a, b), n'');
  erase = λ x. (c.erase x.0, d.erase x.1);
  Refs = λ P x. c.Refs P x.0 × d.Refs P x.1;
}

-- The types of Kubernetes in the resources, with their own deep copies.
pub record Kubernetes : Type 1 where
  pub ObjectMeta : Type 0
  pub ListMeta : Type 0
  pub Condition : Type 0
  pub Time : Type 0
  pub Quantity : Type 0
  pub SecretSelector : Type 0
  pub object_meta : Copier ObjectMeta
  pub list_meta : Copier ListMeta
  pub condition : Copier Condition
  pub time : Copier Time
  pub quantity : Copier Quantity
  pub secret_selector : Copier SecretSelector

-- metav1.TypeMeta
pub record TypeMeta : Type 0 where
  pub kind : Text
  pub api_version : Text
