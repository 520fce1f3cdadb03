-- ===== src/Path/Within.antt =====
-- Paths below a directory: what the test on archive entries in cmd/bootstrap-service/main.go
-- gives, and the directory of such a path.
use mathlib.Core.List.{reverse, reverse-cons, append_assoc}
use hyperfleet_controller.Base.{
  Bool, nat_eq, text, ℕ, Text, ◌==◌, true, ◌≡◌, ◌≢◌, ◌∙◌, ap, sym, refl,
}
use hyperfleet_controller.Base.{List, [], ◌∷◌, ◌++◌, All, All-append, All-append_right}
use hyperfleet_controller.Base.{has_prefix, has_prefix-rest}
use hyperfleet_controller.Path.{slash, IsNormal, HasNoSlash, is_rooted, render, clean, join}
use hyperfleet_controller.Path.Split.{split, join_slash, split-join_slash, split-cons_slash}
use hyperfleet_controller.Path.Split.{
  split-ne-nil, split-HasNoSlash, join_slash-split, append-ne-nil,
}
use hyperfleet_controller.Path.Stack.{pushes, pushes-append, pushes-IsNormal}

-- `p` is `base`, a slash, and one or more elements none of which is `..`.
pub record Within (base p : Text) : Type 0 where
  pub elements : List Text
  pub nonempty : elements ≢ []
  pub normal : All IsNormal elements
  pub path : p ≡ base ++ slash ∷ join_slash elements

All-reverse : (xs : List Text) → All IsNormal xs → All IsNormal (reverse xs)
All-reverse [] h = tt
All-reverse (x ∷ xs) (p, h) =
    rw reverse-cons (All-append IsNormal (reverse xs) (x ∷ []) (All-reverse xs h) (p, tt))

pub normal-HasNoSlash : (xs : List Text) → All IsNormal xs → All HasNoSlash xs
normal-HasNoSlash [] h = tt
normal-HasNoSlash (x ∷ xs) (p, h) = (p.no_slash, normal-HasNoSlash xs h)

-- Normal elements whose join continues another join by a slash continue its elements.
join_slash-continues :
    (xs ys : List Text) (rest : Text)
    → All IsNormal xs
    → All IsNormal ys
    → join_slash ys ≡ join_slash xs ++ slash ∷ rest
    → ys ≡ split (join_slash xs) ++ split rest
unfolding join_slash
join_slash-continues xs [] rest h k e = absurd (append-ne-nil (join_slash xs) rest slash (sym e))
join_slash-continues xs (y ∷ ys) rest h k e =
    sym (split-join_slash (y ∷ ys) (normal-HasNoSlash (y ∷ ys) k) (λ p. cc))
    ∙ ap split e
    ∙ split-cons_slash (join_slash xs) rest

-- Normal elements whose join is below that of others end in normal elements.
rest-IsNormal :
    (xs ys : List Text) (rest : Text)
    → All IsNormal xs
    → All IsNormal ys
    → join_slash ys ≡ join_slash xs ++ slash ∷ rest
    → All IsNormal (split rest)
rest-IsNormal xs ys rest h k e =
    All-append_right IsNormal (split (join_slash xs)) (split rest)
      (rw (join_slash-continues xs ys rest h k e) at k)

-- What Clean leaves of an absolute path.
abbrev pub clean_elements : Text → List Text
clean_elements p = reverse (pushes true [] (split p))

pub clean_elements-IsNormal : (p : Text) → All IsNormal (clean_elements p)
clean_elements-IsNormal p = All-reverse _ (pushes-IsNormal [] (split p) tt (split-HasNoSlash p))

pub clean-rooted : (p : Text) → is_rooted p ≡ true → clean p ≡ slash ∷ join_slash (clean_elements p)
unfolding clean
clean-rooted p h = rw h

pub join-cons : (c : ℕ) (s name : Text) → join (c ∷ s) name ≡ clean ((c ∷ s) ++ slash ∷ name)
unfolding join
join-cons c s name = refl

no_elements :
    (xs ys : List Text) (rest : Text)
    → All IsNormal xs
    → All IsNormal ys
    → join_slash ys ≡ join_slash xs ++ slash ∷ rest
    → xs ≢ []
unfolding join_slash split ◌==◌
no_elements [] ys rest h k e =
    let n : All IsNormal ([] ∷ split rest) = rw (join_slash-continues [] ys rest h k e) at k in
    absurd (cc n.0.not_empty)
no_elements (x ∷ xs) ys rest h k e = λ p. cc

-- The elements that follow those of `p` are normal, and `p` is not the root.
continues-IsNormal :
    (p q rest : Text)
    → is_rooted p ≡ true
    → is_rooted q ≡ true
    → clean q ≡ clean p ++ slash ∷ rest
    → All IsNormal (split rest) × (clean_elements p ≢ [])
continues-IsNormal p q rest h k e =
    let joined : join_slash (clean_elements q) ≡ join_slash (clean_elements p) ++ slash ∷ rest =
      cc (clean-rooted p h, clean-rooted q k) in
    let n = clean_elements-IsNormal p in
    let m = clean_elements-IsNormal q in
    (rest-IsNormal _ _ rest n m joined, no_elements _ _ rest n m joined)

-- An absolute directory and any name: where the joined path begins with the cleaned directory and
-- a slash, it lies below the directory, which is not the root.
join_below :
    (base name : Text)
    → is_rooted base ≡ true
    → has_prefix (join base name) (clean base ++ slash ∷ []) ≡ true
    → Within (clean base) (join base name) × (clean_elements base ≢ [])
join_below [] name h k = unfold is_rooted in cc
join_below (c ∷ s) name h k =
    let (rest, e) = has_prefix-rest (join (c ∷ s) name) (clean (c ∷ s) ++ slash ∷ []) k in
    let below : join (c ∷ s) name ≡ clean (c ∷ s) ++ slash ∷ rest =
      e ∙ append_assoc (clean (c ∷ s)) (slash ∷ []) rest in
    let (n, r) =
      continues-IsNormal (c ∷ s) ((c ∷ s) ++ slash ∷ name) rest h (unfold is_rooted in h)
        (sym (join-cons c s name) ∙ below) in
    (
      record {
        elements = split rest;
        nonempty = split-ne-nil rest;
        normal = n;
        path = below ∙ ap (λ x. clean (c ∷ s) ++ slash ∷ x) (sym (join_slash-split rest));
      },
      r,
    )

module _ (base name : Text) (h : is_rooted base ≡ true) where
  pub join-Within :
      has_prefix (join base name) (clean base ++ slash ∷ []) ≡ true
      → Within (clean base) (join base name)
  join-Within k = (join_below base name h k).0

  pub join-not_root :
      has_prefix (join base name) (clean base ++ slash ∷ []) ≡ true → clean_elements base ≢ []
  join-not_root k = (join_below base name h k).1

pushes-dot_slash : (rooted : Bool) (st : List Text) → pushes rooted st (split (text "./")) ≡ st
unfolding pushes split text ◌==◌
pushes-dot_slash rooted st = refl

-- The archive's entry for the directory itself, whatever the directory.
pub join-dot_slash : (c : ℕ) (s : Text) → join (c ∷ s) (text "./") ≡ clean (c ∷ s)
unfolding join clean is_rooted
join-dot_slash c s =
    let b = nat_eq c slash in
    ap (λ t. render b (pushes b [] t)) (split-cons_slash (c ∷ s) (text "./"))
    ∙ ap (render b) (
        pushes-append b [] (split (c ∷ s)) (split (text "./"))
        ∙ pushes-dot_slash b (pushes b [] (split (c ∷ s))))
