-- ===== src/Bootstrap/Archive/Safety.antt =====
-- Where the extraction of an archive writes.
use hyperfleet_controller.Base.{
  Text, text, ◌==◌, ==_iff, ◌≡◌, ◌≢◌, ◌⊎◌, inl, inr, true, false, List, [], ◌∷◌, ◌++◌, arith,
  Bool-cases, ap, ◌∙◌, has_prefix, Err, Emits,
}
use hyperfleet_controller.Path.{slash, clean, join, dir, is_rooted}
use hyperfleet_controller.Path.Within.{
  Within, join-Within, join-not_root, clean_elements, join-dot_slash,
}
use hyperfleet_controller.Path.Dir.{dir-Within}
use hyperfleet_controller.Bootstrap.System.{
  mkdir_all, open_file, copy, close_file, Event, Header, Env,
}
use hyperfleet_controller.Bootstrap.Archive.Emission.{Permits, extract-Emits}
use hyperfleet_controller.Bootstrap.Archive.{extract, is_refused}

abbrev pub Inside : Text → Text → Type 0
Inside base p = (p ≡ base) ⊎ Within base p

-- A call that touches only the directory and what is below it. Its parent may be created.
abbrev pub IsContained : Text → Event → Type 0
IsContained base (mkdir_all p mode, r) = Inside base p ⊎ (p ≡ dir base)
IsContained base (open_file p flags mode, r) = Inside base p
IsContained base (copy p content, r) = Inside base p
IsContained base (close_file p, r) = Inside base p
IsContained base _ = ⊥

module _ (base : Text) (h : is_rooted base ≡ true) where
  abbrev IsAllowed : Text → Type 0
  IsAllowed p = (p ≡ clean base) ⊎ (Within (clean base) p × (clean_elements base ≢ []))

  dot_slash-Inside : (b : Text) → is_rooted b ≡ true → join b (text "./") ≡ clean b
  dot_slash-Inside [] e = unfold is_rooted in cc
  dot_slash-Inside (c ∷ s) e = join-dot_slash c s

  -- What the security check lets through.
  allowed : (name : Text) → is_refused base name ≡ false → IsAllowed (join base name)
  unfolding is_refused
  allowed name a = elim (Bool-cases (name == text "./")) [
    | inl e ↦ inl (ap (join base) ((==_iff name (text "./")).0 e) ∙ dot_slash-Inside base h)
    | inr e ↦
        let k : has_prefix (join base name) (clean base ++ slash ∷ []) ≡ true = ground arith in
        inr (join-Within base name h k, join-not_root base name h k)
  ]

  allowed-Inside : (p : Text) → IsAllowed p → Inside (clean base) p
  allowed-Inside p (inl e) = inl e
  allowed-Inside p (inr w) = inr w.0

  parent : (p : Text) → IsAllowed p → Inside (clean base) (dir p) ⊎ (dir p ≡ dir (clean base))
  parent p (inl e) = inr (ap dir e)
  parent p (inr w) = inl (dir-Within base p h w.1 w.0)

  allowed-Permits :
      (name : Text)
      → is_refused base name ≡ false
      → Permits (IsContained (clean base)) (join base name)
  allowed-Permits name e =
      let a = allowed name e in
      let i = allowed-Inside (join base name) a in
      record {
        create = λ mode r. inl i;
        create_parent = λ mode r. parent (join base name) a;
        open_at = λ mode r. i;
        copy_to = λ content r. i;
        close_at = λ r. i;
      }

  -- With an absolute installation path, whatever the archive holds and whatever the calls return,
  -- every call that the extraction adds creates a directory, or opens, writes or closes a file, at
  -- the cleaned installation path or below it; the one other path is the parent of the installation
  -- path, which may be created as a directory.
  pub extract-IsContained :
      (env : Env) (entries : List Header) (tar_error : Err)
      → Emits (IsContained (clean base)) (extract env base entries tar_error)
  extract-IsContained env = extract-Emits env base allowed-Permits
