-- ===== src/Bootstrap/Archive/Success.antt =====
-- Archives that the extraction accepts.
use mathlib.Core.List.{append_assoc}
use hyperfleet_controller.Base.{
  Text, ◌≡◌, ◌≢◌, ◌∙◌, ap, sym, refl, true, false, none, List, [], ◌∷◌, ◌++◌, All, arith,
  has_prefix, has_prefix-append, done, fail, resume, check_or,
}
use hyperfleet_controller.Path.{slash, clean, join, is_rooted}
use hyperfleet_controller.Path.Split.{split, join_slash}
use hyperfleet_controller.Path.Within.{clean_elements}
use hyperfleet_controller.Path.Plain.{IsNotParent, kept, join-below}
use hyperfleet_controller.Bootstrap.System.{
  Trace, Typeflag, type_dir, type_reg, type_other, Header, Env,
}
use hyperfleet_controller.Bootstrap.Works.{Works, check-works, check_or-works}
use hyperfleet_controller.Bootstrap.Archive.{extract_at, extract_entry, extract, is_refused}

pub below-has_prefix : (base t : Text) → has_prefix (base ++ slash ∷ t) (base ++ slash ∷ []) ≡ true
below-has_prefix base t =
    ap (λ x. has_prefix x (base ++ slash ∷ [])) (sym (append_assoc base (slash ∷ []) t))
    ∙ has_prefix-append (base ++ slash ∷ []) t

-- With an absolute installation path that is not the root, an entry is accepted whose name has no
-- `..` and names something; it is put at its own elements below the cleaned installation path.
pub is_refused-accepts :
    (base name : Text)
    → is_rooted base ≡ true
    → clean_elements base ≢ []
    → All IsNotParent (split name)
    → kept (split name) ≢ []
    → (is_refused base name ≡ false)
      × (join base name ≡ clean base ++ slash ∷ join_slash (kept (split name)))
unfolding is_refused
is_refused-accepts base name r b h k =
    let below = join-below base name r b h k in
    let prefix : has_prefix (join base name) (clean base ++ slash ∷ []) ≡ true =
      rw below (below-has_prefix (clean base) _) in
    (ground arith, below)

module _ (env : Env) (works : Works env) (base : Text) where
  extract_at-none :
      (target : Text) (header : Header) (flag : Typeflag) (t : Trace)
      → (extract_at env target header flag t).0 ≡ none
  unfolding extract_at done
  extract_at-none target header type_dir t = ap (λ o. o.0) (check-works env works _ _ _ t)
  extract_at-none target header type_reg t =
      ap (λ o. o.0)
        (check-works env works _ _ _ t
          ∙ check-works env works _ _ _ _
          ∙ check_or-works env works _ _ _ _
          ∙ check-works env works _ _ done _)
  extract_at-none target header (type_other flag) t = refl

  extract_entry-none :
      (header : Header) (t : Trace)
      → is_refused base header.name ≡ false
      → (extract_entry env base header t).0 ≡ none
  unfolding extract_entry
  extract_entry-none header t e = rw e (extract_at-none _ header header.typeflag t)

  -- Where every call succeeds and no entry is refused, an archive that the tar reader reads to its
  -- end is extracted without error.
  pub extract-none :
      (entries : List Header) (t : Trace)
      → All (λ h. is_refused base h.name ≡ false) entries
      → (extract env base entries none t).0 ≡ none
  unfolding extract done check_or
  extract-none [] t h = refl
  extract-none (header ∷ rest) t (e, h) =
      let m = extract_entry env base header in
      ap (λ r. (resume fail (extract env base rest none) r (m t).1).0)
        (extract_entry-none header t e)
      ∙ extract-none rest (m t).1 h
