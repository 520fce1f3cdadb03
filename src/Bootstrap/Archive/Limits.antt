-- ===== src/Bootstrap/Archive/Limits.antt =====
-- Installation paths for which the security check does something else than to contain the archive.
use hyperfleet_controller.Base.{
  Text, text, ◌==◌, ◌≡◌, true, false, refl, [], ◌∷◌, ◌++◌, arith, has_prefix, Bool-cases, inl, inr,
}
use hyperfleet_controller.Path.{slash, dot_dot, clean, join, is_rooted, IsNormal}
use hyperfleet_controller.Path.Within.{join-not_root}
use hyperfleet_controller.Path.Split.{split, split_no_slash}
use hyperfleet_controller.Path.Stack.{pushes, push-normal}
use hyperfleet_controller.Path.{render}
use hyperfleet_controller.Base.{not, ap, ◌∙◌}
use hyperfleet_controller.Bootstrap.Archive.{is_refused}

abbrev pub root : Text
root = slash ∷ []

-- With the root as installation path every entry but `./` is refused.
pub is_refused-root : (name : Text) → (name == text "./") ≡ false → is_refused root name ≡ true
unfolding is_refused ◌==◌
is_refused-root name e =
    elim (Bool-cases (has_prefix (join root name) (clean root ++ slash ∷ []))) [
      | inl k ↦ absurd (join-not_root root name (unfold is_rooted in refl) k (unfold clean in refl))
      | inr k ↦ ground arith
    ]

-- The name of a file two directories above `..`, as seen from there.
abbrev pub escaping : Text → Text
escaping x = dot_dot ++ slash ∷ x

split-escaping :
    (x : Text) → IsNormal x → split (escaping (escaping x)) ≡ dot_dot ∷ dot_dot ∷ x ∷ []
unfolding split text
split-escaping x n = ap (λ t. dot_dot ∷ dot_dot ∷ t) (split_no_slash x n.no_slash)

popped_twice :
    (x : Text)
    → IsNormal x
    → pushes false [] (dot_dot ∷ dot_dot ∷ x ∷ []) ≡ x ∷ dot_dot ∷ dot_dot ∷ []
unfolding pushes text ◌==◌
popped_twice x n = push-normal false (dot_dot ∷ dot_dot ∷ []) x n

clean-escaping : (x : Text) → IsNormal x → clean (escaping (escaping x)) ≡ escaping (escaping x)
unfolding clean text
clean-escaping x n =
    ap (λ t. render false (pushes false [] t)) (split-escaping x n)
    ∙ ap (render false) (popped_twice x n)

-- With `..` as installation path the check lets a file through that lies outside: `../x`, which is
-- joined to `../../x`.
pub is_refused-escaping :
    (x : Text)
    → IsNormal x
    → (is_refused dot_dot (escaping x) ≡ false)
      × (join dot_dot (escaping x) ≡ escaping (escaping x))
unfolding is_refused join text ◌==◌ has_prefix
is_refused-escaping x n =
    (ap (λ t. not (has_prefix t (dot_dot ++ slash ∷ []))) (clean-escaping x n), clean-escaping x n)
