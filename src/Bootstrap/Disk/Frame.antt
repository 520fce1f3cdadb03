-- ===== src/Bootstrap/Disk/Frame.antt =====
-- What the extraction of an archive cannot change.
use mathlib.Core.Path.{subst}
use hyperfleet_controller.Base.{
  Text, ◌==◌, ==_iff, ◌≡◌, refl, ap, ◌∙◌, true, none, some, List, [], ◌∷◌, ◌++◌, All, Err,
  Bool-cases, inl, inr, ◌&&◌, if◌then◌else◌, Bool, false,
}
use hyperfleet_controller.Path.{clean, is_rooted}
use hyperfleet_controller.Bootstrap.System.{
  mkdir_all, open_file, copy, close_file, Event, Trace, Header, Env, write_string, remove_all, run,
  http_get, close_body, close_gzip, sync, reboot, sleep,
}
use hyperfleet_controller.Bootstrap.Archive.Safety.{Inside, IsContained, extract-IsContained}
use hyperfleet_controller.Bootstrap.Archive.{extract}
use hyperfleet_controller.Bootstrap.Disk.{Disk, Content, truncates, effect, contents}

module _ (base p : Text) (outside : ¬ Inside base p) where
  elsewhere : (q : Text) → Inside base q → (q == p) ≡ false
  elsewhere q i = elim (Bool-cases (q == p)) [
    | inl e ↦ absurd (outside (subst (Inside base) ((==_iff q p).0 e) i))
    | inr e ↦ e
  ]

  skipped :
      (q : Text) (c : Bool) (new old : Content)
      → Inside base q
      → (if c && q == p then new else old) ≡ old
  skipped q true new old i = rw (elsewhere q i) refl
  skipped q false new old i = refl

  effect-outside : (e : Event) (disk : Disk) → IsContained base e → effect e disk p ≡ disk p
  unfolding effect
  effect-outside (mkdir_all q mode, r) disk i = refl
  effect-outside (open_file q flags mode, none) disk i = skipped q (truncates flags) _ _ i
  effect-outside (open_file q flags mode, some e) disk i = refl
  effect-outside (copy q content, none) disk i = skipped q true _ _ i
  effect-outside (copy q content, some e) disk i = skipped q true _ _ i
  effect-outside (close_file q, r) disk i = refl
  effect-outside (remove_all _, r) disk i = absurd i
  effect-outside (write_string _ _, r) disk i = absurd i
  effect-outside (http_get _, r) disk i = absurd i
  effect-outside (close_body, r) disk i = absurd i
  effect-outside (close_gzip, r) disk i = absurd i
  effect-outside (sync, r) disk i = absurd i
  effect-outside (run _, r) disk i = absurd i
  effect-outside (reboot _, r) disk i = absurd i
  effect-outside (sleep _, r) disk i = absurd i

  events-outside :
      (events t : Trace) (disk : Disk)
      → All (IsContained base) events
      → contents disk (events ++ t) p ≡ contents disk t p
  unfolding contents
  events-outside [] t disk all = refl
  events-outside (e ∷ events) t disk (i, all) =
      effect-outside e (contents disk (events ++ t)) i ∙ events-outside events t disk all

-- With an absolute installation path, whatever the archive holds and whatever the calls return,
-- what is known of a file that is neither at the cleaned installation path nor below it is the same
-- after the extraction.
pub extract-outside :
    (base p : Text)
    → is_rooted base ≡ true
    → ¬ Inside (clean base) p
    → (env : Env) (entries : List Header) (tar_error : Err) (disk : Disk) (t : Trace)
    → contents disk (extract env base entries tar_error t).1 p ≡ contents disk t p
extract-outside base p rooted outside env entries tar_error disk t =
    let m = (extract-IsContained base rooted env entries tar_error).from t in
    ap (λ u. contents disk u p) m.trace
    ∙ events-outside (clean base) p outside m.events t disk m.all
