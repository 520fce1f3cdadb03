-- ===== src/Path.antt =====
-- Go's path/filepath on Unix, as cmd/bootstrap-service/main.go uses it: Clean, Join and Dir, over
-- the elements between slashes.
pub mod Split
pub mod Stack
pub mod Within
pub mod Dir
pub mod Plain
pub use Split.{slash, HasNoSlash}
pub use Stack.{dot, dot_dot, IsNormal}
use mathlib.Core.List.{reverse}
use hyperfleet_controller.Base.{Text, ◌==◌, Bool, true, false, List, [], ◌∷◌, ◌++◌, nat_eq}
use hyperfleet_controller.Base.{if◌then◌else◌}
use Split.{split, join_slash}
use Stack.{pushes}

unfoldable pub is_rooted : Text → Bool
is_rooted [] = false
is_rooted (c ∷ s) = nat_eq c slash

-- The text of a stack.
unfoldable pub render : Bool → List Text → Text
unfolding join_slash
render true st = slash ∷ join_slash (reverse st)
render false [] = dot
render false (e ∷ st) = join_slash (reverse (e ∷ st))

-- filepath.Clean
unfoldable pub clean : Text → Text
unfolding is_rooted render split pushes
clean p = render (is_rooted p) (pushes (is_rooted p) [] (split p))

-- filepath.Join of two elements
unfoldable pub join : Text → Text → Text
unfolding clean
join [] [] = []
join [] (c ∷ s) = clean (c ∷ s)
join (c ∷ s) b = clean ((c ∷ s) ++ slash ∷ b)

contains_slash : Text → Bool
contains_slash [] = false
contains_slash (c ∷ s) = if nat_eq c slash then true else contains_slash s

-- A path up to its last slash.
unfoldable pub dir_part : Text → Text
unfolding contains_slash
dir_part [] = []
dir_part (c ∷ s) = let rest = dir_part s in if contains_slash (c ∷ s) then c ∷ rest else []

-- filepath.Dir
unfoldable pub dir : Text → Text
unfolding clean dir_part
dir p = clean (dir_part p)
