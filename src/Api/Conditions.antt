-- ===== src/Api/Conditions.antt =====
-- The list of conditions in a status, and its laws. Both controllers update it by the same loop.
pub mod View
use hyperfleet_controller.Base.{
  Text, ◌==◌, ==_iff, ==_refl, ◌≡◌, refl, Bool, true, false, ◌&&◌, Option, none, some, List, [],
  ◌∷◌, arith, if◌then◌else◌,
}
use hyperfleet_controller.Api.Meta.{
  Condition, ConditionStatus, condition_true, condition_false, condition_unknown,
}

-- The first condition of the type is replaced; where there is none the condition is appended.
unfoldable pub set_condition : Condition → List Condition → List Condition
set_condition c [] = c ∷ []
set_condition c (x ∷ xs) = if x.type == c.type then c ∷ xs else x ∷ set_condition c xs

-- The first condition of a type.
unfoldable pub find_condition : Text → List Condition → Option Condition
find_condition type [] = none
find_condition type (x ∷ xs) = if x.type == type then some x else find_condition type xs

abbrev pub is_true : ConditionStatus → Bool
is_true condition_true = true
is_true condition_false = false
is_true condition_unknown = false

-- Some condition of the type has the status True.
unfoldable pub holds : Text → List Condition → Bool
holds type [] = false
holds type (x ∷ xs) = if x.type == type && is_true x.status then true else holds type xs

-- No type occurs twice.
abbrev pub NodupTypes : List Condition → Type 0
NodupTypes [] = Unit
NodupTypes (x ∷ xs) = (find_condition x.type xs ≡ none) × NodupTypes xs

-- After a condition is set, the first condition of its type is that condition, and the first
-- condition of each other type is the one before.
pub find_condition-set_condition :
    (type : Text) (c : Condition) (xs : List Condition)
    → find_condition type (set_condition c xs)
      ≡ (if c.type == type then some c else find_condition type xs)
unfolding find_condition set_condition
find_condition-set_condition type c [] = refl
find_condition-set_condition type c (x ∷ xs) = ground (
  arith,
  ==_iff x.type c.type,
  ==_iff x.type type,
  ==_iff c.type type,
  find_condition-set_condition type c xs,
)

-- Setting a condition keeps the types of the conditions distinct.
pub set_condition-NodupTypes :
    (c : Condition) (xs : List Condition) → NodupTypes xs → NodupTypes (set_condition c xs)
unfolding set_condition find_condition
set_condition-NodupTypes c [] h = (refl, tt)
set_condition-NodupTypes c (x ∷ xs) (fresh, h) = ground (
  arith,
  ==_iff x.type c.type,
  ==_iff c.type x.type,
  set_condition-NodupTypes c xs h,
  find_condition-set_condition x.type c xs,
)

-- Where no condition has the type, none of them holds.
holds-none :
    (type : Text) (xs : List Condition) → find_condition type xs ≡ none → holds type xs ≡ false
unfolding find_condition holds
holds-none type [] h = refl
holds-none type (x ∷ xs) h = ground (arith, holds-none type xs)

pub holds-set_condition :
    (c : Condition) (xs : List Condition)
    → NodupTypes xs
    → holds c.type (set_condition c xs) ≡ is_true c.status
unfolding set_condition holds
holds-set_condition c [] h = ground (arith, ==_refl c.type)
holds-set_condition c (x ∷ xs) (fresh, h) =
    ground (
      arith,
      ==_iff x.type c.type,
      ==_refl c.type,
      holds-set_condition c xs h,
      holds-none c.type xs,
    )
