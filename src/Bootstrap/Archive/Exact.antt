-- ===== src/Bootstrap/Archive/Exact.antt =====
-- Exactly which entries the security check accepts.
use hyperfleet_controller.Base.{
  Text, text, [], ◌==◌, ==_iff, ◌≡◌, ap, ◌∙◌, ◌↔◌, ◌⊎◌, inl, inr, true, false, ◌∷◌, ◌++◌, arith,
  has_prefix, Bool-cases,
}
use hyperfleet_controller.Path.{slash, clean, join, is_rooted}
use hyperfleet_controller.Path.Split.{join_slash}
use hyperfleet_controller.Path.Within.{Within, join-Within}
use hyperfleet_controller.Bootstrap.Archive.Success.{below-has_prefix}
use hyperfleet_controller.Bootstrap.Archive.{is_refused}

module _ (base name : Text) where
  is_refused-dot_slash : name ≡ text "./" → is_refused base name ≡ false
  unfolding is_refused
  is_refused-dot_slash e = ground (arith, ==_iff name (text "./"))

  is_refused-below :
      has_prefix (join base name) (clean base ++ slash ∷ []) ≡ true → is_refused base name ≡ false
  unfolding is_refused
  is_refused-below p = ground arith

  accepted-prefix :
      is_refused base name ≡ false
      → (name == text "./") ≡ false
      → has_prefix (join base name) (clean base ++ slash ∷ []) ≡ true
  unfolding is_refused
  accepted-prefix a e = ground arith

  -- With an absolute installation path the security check accepts an entry exactly if its name is
  -- `./` or the path it is joined to is the cleaned installation path with one or more elements
  -- behind it, none of which is empty, `.` or `..`.
  pub is_refused-exact :
      is_rooted base ≡ true
      → (is_refused base name ≡ false) ↔ ((name ≡ text "./") ⊎ Within (clean base) (join base name))
  is_refused-exact rooted = (
    λ a. elim (Bool-cases (name == text "./")) [
      | inl e ↦ inl ((==_iff name (text "./")).0 e)
      | inr e ↦ inr (join-Within base name rooted (accepted-prefix a e))
    ],
    λ c. elim c [
      | inl e ↦ is_refused-dot_slash e
      | inr w ↦ is_refused-below (
          ap (λ p. has_prefix p (clean base ++ slash ∷ [])) w.path
          ∙ below-has_prefix (clean base) (join_slash w.elements))
    ],
  )
