-- ===== src/Bootstrap/Archive/Complete.antt =====
-- What a successful extraction has done, and where an extraction stops.
use hyperfleet_controller.Base.{
  done, Text, ◌≡◌, ◌∙◌, ap, refl, ◌≢◌, true, false, none, some, List, [], ◌∷◌, ◌++◌, All, arith,
  Err, check_or-none, Bool-cases, check_or, fail, deferring, inl, inr,
}
use hyperfleet_controller.Path.{join, dir}
use hyperfleet_controller.Bootstrap.System.{
  mkdir_all, open_file, copy, close_file, Trace, Typeflag, type_dir, type_reg, type_other, Header,
  Env, perform,
}
use hyperfleet_controller.Bootstrap.Config.{dir_permissions}
use hyperfleet_controller.Bootstrap.Archive.{
  extract_at, extract_entry, extract, is_refused, create_flags, file_mode,
}

-- What an entry adds to a trace where no call fails: a directory is created, a regular file is
-- created anew behind its parent directory, filled and closed, and an entry of another type, such
-- as a link, is skipped.
abbrev pub placed : Text → Header → Typeflag → Trace → Trace
placed target header type_dir t = (mkdir_all target (file_mode header.mode), none) ∷ t
placed target header type_reg t =
    (close_file target, none)
    ∷ (copy target header.content, none)
    ∷ (open_file target create_flags (file_mode header.mode), none)
    ∷ (mkdir_all (dir target) dir_permissions, none)
    ∷ t
placed target header (type_other flag) t = t

-- The entries in their order.
abbrev pub all_placed : Text → List Header → Trace → Trace
all_placed base [] t = t
all_placed base (header ∷ rest) t =
    all_placed base rest (placed (join base header.name) header header.typeflag t)

module _ (env : Env) (base : Text) where
  extract_at-placed :
      (target : Text) (header : Header) (flag : Typeflag) (t : Trace)
      → (extract_at env target header flag t).0 ≡ none
      → (extract_at env target header flag t).1 ≡ placed target header flag t
  unfolding extract_at deferring perform
  extract_at-placed target header type_dir t h = ground arith
  extract_at-placed target header type_reg t h = ground arith
  extract_at-placed target header (type_other flag) t h = refl

  extract_entry-placed :
      (header : Header) (t : Trace)
      → (extract_entry env base header t).0 ≡ none
      → (is_refused base header.name ≡ false)
        × ((extract_entry env base header t).1
            ≡ placed (join base header.name) header header.typeflag t)
  unfolding extract_entry
  extract_entry-placed header t h = elim (Bool-cases (is_refused base header.name)) [
    | inl e ↦ unfold fail in cc
    | inr e ↦
        (e, rw e (extract_at-placed (join base header.name) header header.typeflag t (rw e at h)))
  ]

  -- An extraction that returns nil has met no entry that the security check refuses, the tar reader
  -- has ended by io.EOF, and its calls are exactly those of the entries in their order, each
  -- without error: a directory is created with its mode; for a regular file its parent directory is
  -- created, and the file is opened anew with its mode, given its content and closed; an entry of
  -- any other type, such as a link, is skipped without a call.
  pub extract-all_placed :
      (entries : List Header) (tar_error : Err) (t : Trace)
      → (extract env base entries tar_error t).0 ≡ none
      → (tar_error ≡ none)
        × All (λ header. is_refused base header.name ≡ false) entries
        × ((extract env base entries tar_error t).1 ≡ all_placed base entries t)
  unfolding extract done
  extract-all_placed [] none t h = (refl, tt, refl)
  extract-all_placed [] (some e) t h = unfold fail in cc
  extract-all_placed (header ∷ rest) tar_error t h =
      let m = extract_entry env base header in
      let k = extract env base rest tar_error in
      let (first, same) = check_or-none m k t h in
      let (ended, others, calls) = extract-all_placed rest tar_error (m t).1 (rw same at h) in
      let (accepted, place) = extract_entry-placed header t first in
      (ended, (accepted, others), ap (λ o. o.1) same ∙ calls ∙ ap (all_placed base rest) place)

  abbrev StopsAs : Err × Trace → Trace → Type 0
  StopsAs outcome t = (outcome.0 ≢ none) × (outcome.1 ≡ t)

  extract-refused_first :
      (bad : Header) (rest : List Header) (tar_error : Err) (t : Trace)
      → is_refused base bad.name ≡ true
      → StopsAs (extract env base (bad ∷ rest) tar_error t) t
  unfolding extract extract_entry check_or fail
  extract-refused_first bad rest tar_error t e = rw e (λ h. cc, refl)

  extract-refused_later :
      (header : Header) (xs ys : List Header) (tar_error : Err) (t : Trace)
      → StopsAs
          (extract env base xs tar_error (extract_entry env base header t).1)
          (extract env base ys none (extract_entry env base header t).1).1
      → StopsAs
          (extract env base (header ∷ xs) tar_error t)
          (extract env base (header ∷ ys) none t).1
  unfolding extract check_or fail
  extract-refused_later header xs ys tar_error t h = ground arith

  -- An entry that the security check refuses ends the extraction in an error, whatever stands
  -- before it and behind it: the calls are those of an archive that ends before this entry.
  pub extract-refused :
      (before : List Header) (bad : Header) (rest : List Header) (tar_error : Err) (t : Trace)
      → is_refused base bad.name ≡ true
      → ((extract env base (before ++ bad ∷ rest) tar_error t).0 ≢ none)
        × ((extract env base (before ++ bad ∷ rest) tar_error t).1
            ≡ (extract env base before none t).1)
  unfolding done
  extract-refused [] bad rest tar_error t e =
      unfold extract in extract-refused_first bad rest tar_error t e
  extract-refused (header ∷ before) bad rest tar_error t e =
      extract-refused_later header (before ++ bad ∷ rest) before tar_error t
        (extract-refused before bad rest tar_error (extract_entry env base header t).1 e)
