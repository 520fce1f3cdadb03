-- ===== src/Api/Memory/Deep.antt =====
-- What a deep copy is, and the deep copies of pointers, slices and maps.
use hyperfleet_controller.Base.{
  ℕ, suc, List, [], ◌∷◌, none, some, ◌≡◌, refl, sym, ap, ◌∙◌, ◌≤◌, ◌<◌, arith, Text,
}
use hyperfleet_controller.Api.Memory.{
  Copier, flat, erase_ref, pointer, elements, slice, map, pair, Pointer, new_copy, erase_pointer,
  PointerRefs, copy_elements, erase_elements, ElementRefs, Kubernetes,
}

-- An address that is taken by the allocations between two states.
abbrev pub Between : ℕ → ℕ → ℕ → Type 0
Between from top address = (from ≤ address) × (address < top)

-- The copy differs from the original in its addresses only, and all of these are new: they are
-- allocated by the copy.
pub record IsDeep {A : Type 0} (c : Copier A) : Type 0 where
  pub same : (x : A) (n : ℕ) → c.erase (c.into x n).0 ≡ c.erase x
  pub grows : (x : A) (n : ℕ) → n ≤ (c.into x n).1
  pub fresh :
      (from top : ℕ) (x : A) (n : ℕ)
      → from ≤ n
      → (c.into x n).1 ≤ top
      → c.Refs (Between from top) (c.into x n).0

pub flat-IsDeep : (A : Type 0) → IsDeep (flat A)
flat-IsDeep A = record {
  same = λ x n. refl;
  grows = λ x n. omega arith;
  fresh = λ from top x n low high. tt;
}

module _ {A : Type 0} (c : Copier A) (deep : IsDeep c) where
  pointer_same : (x : Pointer A) (n : ℕ) → erase_pointer c (new_copy c x n).0 ≡ erase_pointer c x
  unfolding erase_pointer erase_ref new_copy
  pointer_same none n = refl
  pointer_same (some r) n = rw (deep.same r.value (suc n)) refl

  pointer_grows : (x : Pointer A) (n : ℕ) → n ≤ (new_copy c x n).1
  unfolding new_copy
  pointer_grows none n = omega arith
  pointer_grows (some r) n = let next = deep.grows r.value (suc n) in omega arith

  pointer_fresh :
      (from top : ℕ) (x : Pointer A) (n : ℕ)
      → from ≤ n
      → (new_copy c x n).1 ≤ top
      → PointerRefs c (Between from top) (new_copy c x n).0
  unfolding new_copy PointerRefs
  pointer_fresh from top none n low high = tt
  pointer_fresh from top (some r) n low high =
      let next = deep.grows r.value (suc n) in
      ((low, omega arith), deep.fresh from top r.value (suc n) (omega arith) high)

  pub pointer-IsDeep : IsDeep (pointer c)
  pointer-IsDeep = record { same = pointer_same; grows = pointer_grows; fresh = pointer_fresh }

  elements_same :
      (xs : List A) (n : ℕ) → erase_elements c (copy_elements c xs n).0 ≡ erase_elements c xs
  unfolding erase_elements copy_elements
  elements_same [] n = refl
  elements_same (x ∷ xs) n = rw (deep.same x n, elements_same xs (c.into x n).1) refl

  elements_grow : (xs : List A) (n : ℕ) → n ≤ (copy_elements c xs n).1
  unfolding copy_elements
  elements_grow [] n = omega arith
  elements_grow (x ∷ xs) n =
      let first = deep.grows x n in let rest = elements_grow xs (c.into x n).1 in omega arith

  elements_fresh :
      (from top : ℕ) (xs : List A) (n : ℕ)
      → from ≤ n
      → (copy_elements c xs n).1 ≤ top
      → ElementRefs c (Between from top) (copy_elements c xs n).0
  unfolding copy_elements ElementRefs
  elements_fresh from top [] n low high = tt
  elements_fresh from top (x ∷ xs) n low high =
      let next = (c.into x n).1 in
      let first = deep.grows x n in
      let rest = elements_grow xs next in
      (
        deep.fresh from top x n low (omega arith),
        elements_fresh from top xs next (omega arith) high,
      )

  pub elements-IsDeep : IsDeep (elements c)
  elements-IsDeep = record { same = elements_same; grows = elements_grow; fresh = elements_fresh }

pub slice-IsDeep : {A : Type 0} (c : Copier A) → IsDeep c → IsDeep (slice c)
slice-IsDeep c deep = pointer-IsDeep (elements c) (elements-IsDeep c deep)

pub map-IsDeep : IsDeep map
map-IsDeep = slice-IsDeep (flat (Text × Text)) (flat-IsDeep (Text × Text))

pub pair-IsDeep :
    {A B : Type 0} {c : Copier A} {d : Copier B} → IsDeep c → IsDeep d → IsDeep (pair c d)
pair-IsDeep {A} {B} {c} {d} first second = record {
  same = λ x n. rw (first.same x.0 n, second.same x.1 (c.into x.0 n).1) refl;
  grows =
      λ x n. let a = first.grows x.0 n in let b = second.grows x.1 (c.into x.0 n).1 in omega arith;
  fresh = λ from top x n low high.
      let n' = (c.into x.0 n).1 in
      let a = first.grows x.0 n in
      let b = second.grows x.1 n' in
      (
        first.fresh from top x.0 n low (omega arith),
        second.fresh from top x.1 n' (omega arith) high,
      );
}

-- The copy of a struct replaces the fields that are got and set, and keeps the others.
pub record IsStruct {S F : Type 0} (fields : Copier F) (get : S → F) (set : S → F → S)
    (c : Copier S) : Type 1 where
  pub into :
      (x : S) (n : ℕ) → let (copied, n') = fields.into (get x) n in c.into x n ≡ (set x copied, n')
  pub erase_set : (x : S) (copied : F) → c.erase (set x copied) ≡ set x (fields.erase copied)
  pub erase : (x : S) → c.erase x ≡ set x (fields.erase (get x))
  pub refs_set :
      (P : ℕ → Type 0) (x : S) (copied : F) → fields.Refs P copied → c.Refs P (set x copied)

pub struct-IsDeep :
    {S F : Type 0} {fields : Copier F}
    → IsDeep fields
    → (c : Copier S) (get : S → F) (set : S → F → S) → IsStruct fields get set c
    → IsDeep c
struct-IsDeep {S} {F} {fields} deep c get set struct = record {
  same = λ x n.
      ap (λ r. c.erase r.0) (struct.into x n)
      ∙ struct.erase_set x (fields.into (get x) n).0
      ∙ ap (set x) (deep.same (get x) n)
      ∙ sym (struct.erase x);
  grows = λ x n. rw (struct.into x n) (deep.grows (get x) n);
  fresh = λ from top x n low high. rw (struct.into x n) (
      struct.refs_set (Between from top) x (fields.into (get x) n).0
        (deep.fresh from top (get x) n low (rw (struct.into x n) at high)));
}

-- The deep copies of Kubernetes are deep.
pub record IsKubernetes (K : Kubernetes) : Type 0 where
  pub object_meta : IsDeep K.object_meta
  pub list_meta : IsDeep K.list_meta
  pub condition : IsDeep K.condition
  pub time : IsDeep K.time
  pub quantity : IsDeep K.quantity
  pub secret_selector : IsDeep K.secret_selector
