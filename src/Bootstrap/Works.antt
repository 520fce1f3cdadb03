-- ===== src/Bootstrap/Works.antt =====
-- Machines on which every call succeeds.
use hyperfleet_controller.Base.{
  Text, ◌≡◌, refl, ap, none, ◌∷◌, Error, Err, M, resume, check_or, check, ignoring,
}
use hyperfleet_controller.Bootstrap.System.{Call, Trace, Env, perform}

abbrev pub Works : Env → Type 0
Works env = (t : Trace) (c : Call) → env.answer t c ≡ none

module _ (env : Env) (works : Works env) where
  pub perform-works : (c : Call) (t : Trace) → perform env c t ≡ (none, (c, none) ∷ t)
  unfolding perform
  perform-works c t = rw (works t c) refl

  pub check_or-works :
      (handle : Error → M Trace Err) (c : Call) (k : M Trace Err) (t : Trace)
      → check_or handle (perform env c) k t ≡ k ((c, none) ∷ t)
  unfolding check_or
  check_or-works handle c k t = ap (λ o. resume handle k o.0 o.1) (perform-works c t)

  pub check-works :
      (message : Text) (c : Call) (k : M Trace Err) (t : Trace)
      → check message (perform env c) k t ≡ k ((c, none) ∷ t)
  unfolding check
  check-works message c k t = check_or-works _ c k t

  pub ignoring-works :
      (c : Call) (k : M Trace Err) (t : Trace) → ignoring (perform env c) k t ≡ k ((c, none) ∷ t)
  unfolding ignoring
  ignoring-works c k t = ap (λ o. k o.1) (perform-works c t)
