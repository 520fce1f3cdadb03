-- ===== src/Path/Dir.antt =====
-- filepath.Dir of a path below a directory.
use mathlib.Core.List.{reverse, reverse_aux, reverse-reverse, append_assoc, append-nil}
use hyperfleet_controller.Base.{Text, ◌==◌, Bool, true, false, ◌≡◌, ◌≢◌, ◌∙◌, ap, sym, refl}
use hyperfleet_controller.Base.{
  List, [], ◌∷◌, ◌++◌, ◌⊎◌, inl, inr, All, All-append, All-append_left,
}
use hyperfleet_controller.Base.{All-append_right, arith}
use hyperfleet_controller.Path.{slash, IsNormal, HasNoSlash, is_rooted, clean, dir, dir_part}
use hyperfleet_controller.Path.{contains_slash}
use hyperfleet_controller.Path.Split.{split, join_slash, split-join_slash, split-cons_slash}
use hyperfleet_controller.Path.Split.{join_slash-append}
use hyperfleet_controller.Path.Stack.{pushes, push, pushes-append, push-normal}
use hyperfleet_controller.Path.Within.{
  Within, clean_elements, clean_elements-IsNormal, clean-rooted,
}
use hyperfleet_controller.Path.Within.{normal-HasNoSlash}

pushes-normal :
    (rooted : Bool) (st xs : List Text) → All IsNormal xs → pushes rooted st xs ≡ reverse_aux xs st
unfolding pushes
pushes-normal rooted st [] h = refl
pushes-normal rooted st (x ∷ xs) (p, h) =
    ap (λ t. pushes rooted t xs) (push-normal rooted st x p) ∙ pushes-normal rooted (x ∷ st) xs h

-- The empty element before a slash, or behind one, is dropped.
push-empty : (rooted : Bool) (st : List Text) → push rooted st [] ≡ st
unfolding push ◌==◌
push-empty rooted st = refl

elements :
    (xs : List Text)
    → All IsNormal xs
    → xs ≢ []
    → split ((slash ∷ join_slash xs) ++ slash ∷ []) ≡ [] ∷ (xs ++ [] ∷ [])
unfolding split
elements xs h k =
    split-cons_slash (slash ∷ join_slash xs) []
    ∙ ap (λ t. [] ∷ (t ++ [] ∷ [])) (split-join_slash xs (normal-HasNoSlash xs h) k)

popped : (xs : List Text) → All IsNormal xs → pushes true [] ([] ∷ (xs ++ [] ∷ [])) ≡ reverse xs
unfolding pushes
popped xs h =
    ap (λ t. pushes true t (xs ++ [] ∷ [])) (push-empty true [])
    ∙ pushes-append true [] xs ([] ∷ [])
    ∙ push-empty true (pushes true [] xs)
    ∙ pushes-normal true [] xs h

clean-normal :
    (xs : List Text)
    → All IsNormal xs
    → xs ≢ []
    → clean ((slash ∷ join_slash xs) ++ slash ∷ []) ≡ slash ∷ join_slash xs
clean-normal xs h k =
    clean-rooted q (unfold is_rooted in refl)
    ∙ ap (λ t. slash ∷ join_slash (reverse t)) (ap (pushes true []) (elements xs h k) ∙ popped xs h)
    ∙ ap (λ t. slash ∷ join_slash t) (reverse-reverse xs)
  where
    q : Text
    q = (slash ∷ join_slash xs) ++ slash ∷ []

contains_slash-false : (x : Text) → HasNoSlash x → contains_slash x ≡ false
unfolding contains_slash
contains_slash-false [] h = refl
contains_slash-false (c ∷ x) (e, h) = ground (arith, contains_slash-false x h)

contains_slash-middle : (s x : Text) → contains_slash (s ++ slash ∷ x) ≡ true
unfolding contains_slash
contains_slash-middle [] x = refl
contains_slash-middle (c ∷ s) x = ground (arith, contains_slash-middle s x)

dir_part_no_slash : (x : Text) → HasNoSlash x → dir_part x ≡ []
unfolding dir_part
dir_part_no_slash [] h = refl
dir_part_no_slash (c ∷ x) (e, h) = ground (arith, contains_slash-false x h)

dir_part-element : (s x : Text) → HasNoSlash x → dir_part (s ++ slash ∷ x) ≡ s ++ slash ∷ []
unfolding dir_part
dir_part-element [] x h = ground (arith, dir_part_no_slash x h)
dir_part-element (c ∷ s) x h = ground (arith, dir_part-element s x h, contains_slash-middle s x)

-- The directory of a clean absolute path is the path without its last element.
dir_last :
    (xs : List Text) (x : Text)
    → All IsNormal xs
    → IsNormal x
    → dir (slash ∷ join_slash (xs ++ x ∷ [])) ≡ slash ∷ join_slash xs
unfolding dir join_slash
dir_last [] x h p = ap clean (dir_part-element [] x p.no_slash) ∙ unfold ◌==◌ in refl
dir_last (y ∷ xs) x h p =
    ap dir (ap (λ t. slash ∷ t) (join_slash-append (y ∷ xs) (x ∷ []) (λ e. cc) (λ e. cc)))
    ∙ ap clean (dir_part-element (slash ∷ join_slash (y ∷ xs)) x p.no_slash)
    ∙ clean-normal (y ∷ xs) h (λ e. cc)

pub data Snoc : List Text → Type 0 where
  snoc : (xs ys : List Text) (y : Text) → xs ≡ ys ++ y ∷ [] → Snoc xs

to_snoc : (xs : List Text) → xs ≢ [] → Snoc xs
to_snoc [] h = absurd (h refl)
to_snoc (x ∷ []) h = snoc (x ∷ []) [] x refl
to_snoc (x ∷ y ∷ xs) h = push_front x (y ∷ xs) (to_snoc (y ∷ xs) (λ e. cc))
  where
    push_front : (x : Text) (xs : List Text) → Snoc xs → Snoc (x ∷ xs)
    push_front x xs (snoc _ ys y e) = snoc (x ∷ xs) (x ∷ ys) y (ap (λ t. x ∷ t) e)

snoc-ne-nil : (ys : List Text) (y : Text) → ys ++ y ∷ [] ≢ []
snoc-ne-nil [] y = λ e. cc
snoc-ne-nil (x ∷ ys) y = λ e. cc

dir_below :
    (xs ys : List Text) (y : Text)
    → xs ≢ []
    → All IsNormal xs
    → All IsNormal (ys ++ y ∷ [])
    → dir ((slash ∷ join_slash xs) ++ slash ∷ join_slash (ys ++ y ∷ []))
      ≡ slash ∷ join_slash (xs ++ ys)
dir_below xs ys y k h n =
    ap (λ t. dir (slash ∷ t)) (sym (join_slash-append xs (ys ++ y ∷ []) k (snoc-ne-nil ys y)))
    ∙ ap (λ t. dir (slash ∷ join_slash t)) (sym (append_assoc xs ys (y ∷ [])))
    ∙ dir_last (xs ++ ys) y (All-append IsNormal xs ys h (All-append_left IsNormal ys (y ∷ []) n))
        (All-append_right IsNormal ys (y ∷ []) n).0

-- What a path without its last element is: the directory itself, or below it.
place :
    (xs ys : List Text) (p : Text)
    → xs ≢ []
    → All IsNormal ys
    → p ≡ slash ∷ join_slash (xs ++ ys)
    → (p ≡ slash ∷ join_slash xs) ⊎ Within (slash ∷ join_slash xs) p
place xs [] p k n e = inl (e ∙ ap (λ t. slash ∷ join_slash t) (append-nil xs))
place xs (y ∷ ys) p k n e = inr (record {
  elements = y ∷ ys;
  nonempty = λ q. cc;
  normal = n;
  path = e ∙ ap (λ t. slash ∷ t) (join_slash-append xs (y ∷ ys) k (λ q. cc));
})

dir-Within_elements :
    (xs rest : List Text) (p : Text)
    → xs ≢ []
    → All IsNormal xs
    → All IsNormal rest
    → p ≡ (slash ∷ join_slash xs) ++ slash ∷ join_slash rest
    → Snoc rest
    → (dir p ≡ slash ∷ join_slash xs) ⊎ Within (slash ∷ join_slash xs) (dir p)
dir-Within_elements xs rest p k h n e (snoc _ ys y q) =
    let m : All IsNormal (ys ++ y ∷ []) = rw q at n in
    place xs ys (dir p) k (All-append_left IsNormal ys (y ∷ []) m) (
      ap dir (e ∙ ap (λ t. (slash ∷ join_slash xs) ++ slash ∷ join_slash t) q)
      ∙ dir_below xs ys y k h m)

-- The directory of a path below a directory other than the root is below it too, or is it.
pub dir-Within :
    (base p : Text)
    → is_rooted base ≡ true
    → clean_elements base ≢ []
    → Within (clean base) p
    → (dir p ≡ clean base) ⊎ Within (clean base) (dir p)
dir-Within base p h k w =
    let c = clean-rooted base h in
    rw c (
      dir-Within_elements (clean_elements base) w.elements p k (clean_elements-IsNormal base)
        w.normal (w.path ∙ ap (λ t. t ++ slash ∷ join_slash w.elements) c)
        (to_snoc w.elements w.nonempty))
