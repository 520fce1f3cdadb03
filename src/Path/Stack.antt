-- ===== src/Path/Stack.antt =====
-- The stack of elements that filepath.Clean keeps, its top first.

use hyperfleet_controller.Base.{Text, text, ◌==◌, Bool, true, false, ◌||◌, ◌≡◌, refl}
use hyperfleet_controller.Base.{List, [], ◌∷◌, ◌++◌, All, arith, if◌then◌else◌}
use hyperfleet_controller.Path.Split.{HasNoSlash}

abbrev pub dot : Text
dot = text "."

abbrev pub dot_dot : Text
dot_dot = text ".."

-- An element that Clean keeps: it names a child of the directory before it.
pub record IsNormal (e : Text) : Type 0 where
  pub no_slash : HasNoSlash e
  pub not_empty : (e == []) ≡ false
  pub not_dot : (e == dot) ≡ false
  pub not_dot_dot : (e == dot_dot) ≡ false

-- What `..` does: it drops an element, but no `..` that stands already. At the root it is lost.
unfoldable pub pop : Bool → List Text → List Text
pop true [] = []
pop true (top ∷ st) = st
pop false [] = dot_dot ∷ []
pop false (top ∷ st) = if top == dot_dot then dot_dot ∷ top ∷ st else st

unfoldable pub push : Bool → List Text → Text → List Text
unfolding pop
push rooted st e =
    if e == [] || e == dot then st else if e == dot_dot then pop rooted st else e ∷ st

unfoldable pub pushes : Bool → List Text → List Text → List Text
unfolding push
pushes rooted st [] = st
pushes rooted st (e ∷ es) = pushes rooted (push rooted st e) es

pub pushes-append :
    (rooted : Bool) (st xs ys : List Text)
    → pushes rooted st (xs ++ ys) ≡ pushes rooted (pushes rooted st xs) ys
unfolding pushes
pushes-append rooted st [] ys = refl
pushes-append rooted st (e ∷ xs) ys = pushes-append rooted (push rooted st e) xs ys

pub push-normal :
    (rooted : Bool) (st : List Text) (e : Text) → IsNormal e → push rooted st e ≡ e ∷ st
unfolding push
push-normal rooted st e n = ground arith

-- At the root no `..` stays on the stack.
push-IsNormal :
    (st : List Text) (e : Text) → All IsNormal st → HasNoSlash e → All IsNormal (push true st e)
unfolding push
push-IsNormal [] e h n = ground arith
push-IsNormal (top ∷ st) e h n = ground arith

pub pushes-IsNormal :
    (st es : List Text) → All IsNormal st → All HasNoSlash es → All IsNormal (pushes true st es)
unfolding pushes
pushes-IsNormal st [] h n = h
pushes-IsNormal st (e ∷ es) h (n, ns) =
    pushes-IsNormal (push true st e) es (push-IsNormal st e h n) ns
