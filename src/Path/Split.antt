-- ===== src/Path/Split.antt =====
-- Texts as lists of elements between slashes.
use mathlib.Core.List.{append_assoc}
use hyperfleet_controller.Base.{ℕ, Text, false, ◌≡◌, ◌≢◌, ◌∙◌, ap, refl}
use hyperfleet_controller.Base.{List, [], ◌∷◌, ◌++◌, All, arith, nat_eq, nat_eq_iff, if◌then◌else◌}

-- os.PathSeparator
abbrev pub slash : ℕ
slash = b'/'

-- Puts a byte in front of the first element.
abbrev cons_head : ℕ → List Text → List Text
cons_head c [] = (c ∷ []) ∷ []
cons_head c (s ∷ r) = (c ∷ s) ∷ r

-- The elements of a path, empty ones included: `a//b/` has `a`, empty, `b` and empty.
unfoldable pub split : Text → List Text
split [] = [] ∷ []
split (c ∷ s) = if nat_eq c slash then [] ∷ split s else cons_head c (split s)

-- The elements with slashes between them.
unfoldable pub join_slash : List Text → Text
join_slash [] = []
join_slash (s ∷ []) = s
join_slash (s ∷ t ∷ r) = s ++ slash ∷ join_slash (t ∷ r)

abbrev pub HasNoSlash : Text → Type 0
HasNoSlash [] = Unit
HasNoSlash (c ∷ s) = (nat_eq c slash ≡ false) × HasNoSlash s

pub split_no_slash : (s : Text) → HasNoSlash s → split s ≡ s ∷ []
unfolding split
split_no_slash [] h = refl
split_no_slash (c ∷ s) (e, h) = ground (arith, split_no_slash s h)

split-element : (s t : Text) → HasNoSlash s → split (s ++ slash ∷ t) ≡ s ∷ split t
unfolding split
split-element [] t h = refl
split-element (c ∷ s) t (e, h) = ground (arith, split-element s t h)

-- A nonempty list of elements is read back from its join.
pub split-join_slash : (xs : List Text) → All HasNoSlash xs → xs ≢ [] → split (join_slash xs) ≡ xs
unfolding join_slash
split-join_slash [] h k = absurd (k refl)
split-join_slash (s ∷ []) (h, _) k = split_no_slash s h
split-join_slash (s ∷ t ∷ r) (h, hs) k =
    split-element s (join_slash (t ∷ r)) h ∙ ap (λ x. s ∷ x) (split-join_slash (t ∷ r) hs (λ e. cc))

pub split-ne-nil : (s : Text) → split s ≢ []
unfolding split
split-ne-nil [] = λ e. cc
split-ne-nil (c ∷ s) = ground (arith, split-ne-nil s)

-- Splitting goes through a slash.
pub split-cons_slash : (s t : Text) → split (s ++ slash ∷ t) ≡ split s ++ split t
unfolding split
split-cons_slash [] t = refl
split-cons_slash (c ∷ s) t = ground (arith, split-cons_slash s t, split-ne-nil s)

pub split-HasNoSlash : (s : Text) → All HasNoSlash (split s)
unfolding split
split-HasNoSlash [] = (tt, tt)
split-HasNoSlash (c ∷ s) = ground (arith, split-HasNoSlash s)

-- Elements joined behind other elements.
pub join_slash-append :
    (xs ys : List Text)
    → xs ≢ []
    → ys ≢ []
    → join_slash (xs ++ ys) ≡ join_slash xs ++ slash ∷ join_slash ys
unfolding join_slash
join_slash-append [] ys h k = absurd (h refl)
join_slash-append (s ∷ []) [] h k = absurd (k refl)
join_slash-append (s ∷ []) (y ∷ ys) h k = refl
join_slash-append (s ∷ t ∷ r) ys h k =
    ap (λ x. s ++ slash ∷ x) (join_slash-append (t ∷ r) ys (λ e. cc) k) ∙ rw append_assoc

join_slash-cons_head :
    (c : ℕ) (xs : List Text) → xs ≢ [] → join_slash (cons_head c xs) ≡ c ∷ join_slash xs
unfolding join_slash
join_slash-cons_head c [] h = absurd (h refl)
join_slash-cons_head c (x ∷ []) h = refl
join_slash-cons_head c (x ∷ y ∷ xs) h = refl

join_slash-nil : (xs : List Text) → xs ≢ [] → join_slash ([] ∷ xs) ≡ slash ∷ join_slash xs
unfolding join_slash
join_slash-nil [] h = absurd (h refl)
join_slash-nil (x ∷ xs) h = refl

-- The elements of a path, joined, are the path.
pub join_slash-split : (s : Text) → join_slash (split s) ≡ s
unfolding split
join_slash-split [] = unfold join_slash in refl
join_slash-split (c ∷ s) = ground (
  arith,
  nat_eq_iff c slash,
  join_slash-split s,
  join_slash-cons_head c (split s) (split-ne-nil s),
  join_slash-nil (split s) (split-ne-nil s),
)

pub append-ne-nil : (s t : Text) (c : ℕ) → s ++ c ∷ t ≢ []
append-ne-nil [] t c = λ e. cc
append-ne-nil (b ∷ s) t c = λ e. cc
