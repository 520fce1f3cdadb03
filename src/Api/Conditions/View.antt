-- ===== src/Api/Conditions/View.antt =====
-- The conditions of a status as their readers see them: a map from types to conditions, which
-- forgets the order of the list and what stands behind the first condition of a type.
use mathlib.Core.Quot
use mathlib.Core.Quot.{Quot, Quot-set}
use hyperfleet_controller.Base.{
  Text, ◌==◌, ==_iff, ◌≡◌, refl, sym, ap, ◌∙◌, Bool, true, false, Option, none, some, List, [], ◌∷◌,
  arith, if◌then◌else◌,
}
use hyperfleet_controller.Api.Meta.{Condition}
use hyperfleet_controller.Api.Conditions.{
  set_condition, find_condition, holds, is_true, NodupTypes, find_condition-set_condition,
}

-- Two lists in which each type finds the same condition.
abbrev SameConditions : List Condition → List Condition → Type 0
SameConditions xs ys = (type : Text) → find_condition type xs ≡ find_condition type ys

abbrev pub ConditionMap : Type 0
ConditionMap = Quot SameConditions

abbrev pub view : List Condition → ConditionMap
view xs = Quot.mk xs

Option-IsSet : IsSet (Option Condition)
Option-IsSet = hlevel

pub find : Text → ConditionMap → Option Condition
find type = Quot.lift Option-IsSet (find_condition type) (λ xs ys h. h type)

set_condition-SameConditions :
    (c : Condition) (xs ys : List Condition)
    → SameConditions xs ys
    → SameConditions (set_condition c xs) (set_condition c ys)
set_condition-SameConditions c xs ys h type =
    find_condition-set_condition type c xs
    ∙ ap (λ o. if c.type == type then some c else o) (h type)
    ∙ sym (find_condition-set_condition type c ys)

pub set : Condition → ConditionMap → ConditionMap
set c =
    Quot.lift Quot-set (λ xs. view (set_condition c xs))
      (λ xs ys h. Quot.sound (set_condition-SameConditions c xs ys h))

-- The view is a map: what was set is found, and all else is found as before.
pub find-set :
    (type : Text) (c : Condition) (m : ConditionMap)
    → find type (set c m) ≡ (if c.type == type then some c else find type m)
unfolding find set
find-set type c = Quot.ind (λ m. Option-IsSet _ _) (λ xs. find_condition-set_condition type c xs)

-- The program's update of a list is the update of the map.
pub view-set_condition :
    (c : Condition) (xs : List Condition) → view (set_condition c xs) ≡ set c (view xs)
unfolding set
view-set_condition c xs = refl

-- The lists differ in order at most.
swapped :
    (c d : Condition) (xs : List Condition)
    → (c.type == d.type) ≡ false
    → SameConditions (set_condition c (set_condition d xs)) (set_condition d (set_condition c xs))
swapped c d xs other type = ground (
  arith,
  ==_iff c.type d.type,
  ==_iff c.type type,
  ==_iff d.type type,
  find_condition-set_condition type c (set_condition d xs),
  find_condition-set_condition type d xs,
  find_condition-set_condition type d (set_condition c xs),
  find_condition-set_condition type c xs,
)

-- Conditions of different types are set in any order.
pub set_comm :
    (c d : Condition)
    → (c.type == d.type) ≡ false
    → (m : ConditionMap) → set c (set d m) ≡ set d (set c m)
unfolding set
set_comm c d other = Quot.ind (λ m. Quot-set _ _) (λ xs. Quot.sound (swapped c d xs other))

-- On lists, as the program sets them.
pub view-swapped :
    (c d : Condition) (xs : List Condition)
    → (c.type == d.type) ≡ false
    → view (set_condition c (set_condition d xs)) ≡ view (set_condition d (set_condition c xs))
view-swapped c d xs other =
    view-set_condition c (set_condition d xs)
    ∙ ap (set c) (view-set_condition d xs)
    ∙ set_comm c d other (view xs)
    ∙ sym (ap (set d) (view-set_condition c xs))
    ∙ sym (view-set_condition d (set_condition c xs))

-- Where no type occurs twice, whether a condition holds is a matter of the view.
abbrev holds_in : Option Condition → Bool
holds_in none = false
holds_in (some c) = is_true c.status

holds-find :
    (type : Text) (xs : List Condition)
    → NodupTypes xs
    → holds type xs ≡ holds_in (find_condition type xs)
unfolding holds find_condition
holds-find type [] nodup = refl
holds-find type (x ∷ xs) (fresh, nodup) = ground (arith, ==_iff x.type type, holds-find type xs)

-- Whether a type holds is decided by the condition set for it, whatever is set for another type.
pub holds-set :
    (type : Text) (c d : Condition) (m : ConditionMap) (xs : List Condition)
    → NodupTypes xs
    → view xs ≡ set d (set c m)
    → (c.type == type) ≡ true
    → (d.type == type) ≡ false
    → holds type xs ≡ is_true c.status
unfolding find
holds-set type c d m xs nodup same mine other =
    holds-find type xs nodup
    ∙ ap holds_in (ap (find type) same)
    ∙ rw (find-set type d (set c m), other, find-set type c m, mine) refl
