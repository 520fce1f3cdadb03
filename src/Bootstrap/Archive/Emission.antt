-- ===== src/Bootstrap/Archive/Emission.antt =====
-- The calls of the extraction, for any property that they may have.
use hyperfleet_controller.Base.{
  ℕ, Text, ◌≡◌, false, none, some, List, [], ◌∷◌, Err, fail, Emits, Emits-done, Emits-fail,
  Emits-check, Emits-check_or, Emits-if, Emits-ignoring,
}
use hyperfleet_controller.Path.{join, dir}
use hyperfleet_controller.Bootstrap.System.{
  mkdir_all, open_file, copy, close_file, Event, Typeflag, type_dir, type_reg, type_other, Header,
  Env, Emits-perform,
}
use hyperfleet_controller.Bootstrap.Archive.{
  copy_and_close, extract_at, extract_entry, extract, is_refused, create_flags,
}

-- The property allows each call that an entry with this target may lead to.
pub record Permits (P : Event → Type 0) (target : Text) : Type 0 where
  pub create : (mode : ℕ) (r : Err) → P (mkdir_all target mode, r)
  pub create_parent : (mode : ℕ) (r : Err) → P (mkdir_all (dir target) mode, r)
  pub open_at : (mode : ℕ) (r : Err) → P (open_file target create_flags mode, r)
  pub copy_to : (content : Text) (r : Err) → P (copy target content, r)
  pub close_at : (r : Err) → P (close_file target, r)

module _ {P : Event → Type 0} (env : Env) where
  copy_and_close-Emits : (p content : Text) → Permits P p → Emits P (copy_and_close env p content)
  unfolding copy_and_close
  copy_and_close-Emits p content a =
      let close = Emits-perform {P = P} env (close_file p) a.close_at in
      Emits-check_or _ _ _ (λ e. Emits-ignoring _ _ close (Emits-fail _))
        (Emits-perform env (copy p content) (a.copy_to content))
        (Emits-check _ _ _ close Emits-done)

  extract_at-Emits :
      (p : Text) (header : Header) (flag : Typeflag)
      → Permits P p
      → Emits P (extract_at env p header flag)
  unfolding extract_at
  extract_at-Emits p header type_dir a =
      Emits-check _ _ _ (Emits-perform env _ (a.create _)) Emits-done
  extract_at-Emits p header type_reg a =
      Emits-check _ _ _ (Emits-perform env _ (a.create_parent _)) (
        Emits-check _ _ _ (Emits-perform env _ (a.open_at _))
          (copy_and_close-Emits p header.content a))
  extract_at-Emits p header (type_other flag) a = Emits-done

  module _ (base : Text)
      (permits : (name : Text) → is_refused base name ≡ false → Permits P (join base name)) where
    pub extract_entry-Emits : (header : Header) → Emits P (extract_entry env base header)
    unfolding extract_entry
    extract_entry-Emits header =
        Emits-if (is_refused base header.name) _ _ (λ _. Emits-fail _)
          (λ e. extract_at-Emits _ header header.typeflag (permits header.name e))

    pub extract-Emits :
        (entries : List Header) (tar_error : Err) → Emits P (extract env base entries tar_error)
    unfolding extract
    extract-Emits [] none = Emits-done
    extract-Emits [] (some e) = Emits-fail _
    extract-Emits (header ∷ rest) tar_error =
        Emits-check_or fail _ _ Emits-fail (extract_entry-Emits header)
          (extract-Emits rest tar_error)
