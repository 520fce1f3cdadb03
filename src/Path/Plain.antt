-- ===== src/Path/Plain.antt =====
-- Names without `..` below an absolute directory.
use mathlib.Core.List.{reverse, reverse-cons, append_assoc, reverse-append, reverse-reverse}
use hyperfleet_controller.Base.{
  Text, ◌==◌, true, false, Bool, ◌||◌, ◌≡◌, ◌≢◌, ◌∙◌, ap, sym, refl, List, [], ◌∷◌, ◌++◌, All,
  if◌then◌else◌, Bool-cases, inl, inr,
}
use hyperfleet_controller.Path.{slash, dot, dot_dot, is_rooted, clean, join}
use hyperfleet_controller.Path.Split.{split, join_slash, split-cons_slash, join_slash-append}
use hyperfleet_controller.Path.Stack.{push, pushes, pushes-append}
use hyperfleet_controller.Path.Within.{clean_elements, clean-rooted, join-cons}

abbrev pub IsNotParent : Text → Type 0
IsNotParent e = (e == dot_dot) ≡ false

-- The elements that Clean does not drop, where none is `..`.
unfoldable pub kept : List Text → List Text
kept [] = []
kept (e ∷ es) = let rest = kept es in if e == [] || e == dot then rest else e ∷ rest

push-kept :
    (rooted : Bool) (st : List Text) (e : Text) (es : List Text)
    → IsNotParent e
    → reverse (kept es) ++ push rooted st e ≡ reverse (kept (e ∷ es)) ++ st
unfolding kept push
push-kept rooted st e es n = elim (Bool-cases (e == [] || e == dot)) [
  | inl d ↦ rw (push, d) refl
  | inr d ↦ rw (push, d, n, reverse-cons, append_assoc) refl
]

pushes-kept :
    (rooted : Bool) (st es : List Text)
    → All IsNotParent es
    → pushes rooted st es ≡ reverse (kept es) ++ st
unfolding pushes
pushes-kept rooted st [] h = unfold kept in refl
pushes-kept rooted st (e ∷ es) (n, h) =
    pushes-kept rooted (push rooted st e) es h ∙ push-kept rooted st e es n

-- An absolute directory and a name without `..`: Clean leaves the elements of both.
pub clean_elements-join :
    (base name : Text)
    → All IsNotParent (split name)
    → clean_elements (base ++ slash ∷ name) ≡ clean_elements base ++ kept (split name)
clean_elements-join base name h =
    let above = pushes true [] (split base) in
    let es = kept (split name) in
    ap (λ x. reverse (pushes true [] x)) (split-cons_slash base name)
    ∙ ap reverse
        (pushes-append true [] (split base) (split name) ∙ pushes-kept true above (split name) h)
    ∙ reverse-append (reverse es) above
    ∙ ap (λ x. reverse above ++ x) (reverse-reverse es)

-- A name without `..` and with some element that is not dropped lies below the directory.
pub join-below :
    (base name : Text)
    → is_rooted base ≡ true
    → clean_elements base ≢ []
    → All IsNotParent (split name)
    → kept (split name) ≢ []
    → join base name ≡ clean base ++ slash ∷ join_slash (kept (split name))
join-below [] name r b h k = unfold is_rooted in cc
join-below (c ∷ s) name r b h k =
    let es = kept (split name) in
    join-cons c s name
    ∙ clean-rooted ((c ∷ s) ++ slash ∷ name) (unfold is_rooted in r)
    ∙ ap (λ xs. slash ∷ join_slash xs) (clean_elements-join (c ∷ s) name h)
    ∙ ap (λ t. slash ∷ t) (join_slash-append (clean_elements (c ∷ s)) es b k)
    ∙ ap (λ t. t ++ slash ∷ join_slash es) (sym (clean-rooted (c ∷ s) r))
