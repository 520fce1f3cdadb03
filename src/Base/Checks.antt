-- ===== src/Base/Checks.antt =====
-- When a chain of checked calls returns nil.
use mathlib.Core.Path.{◌≡◌, refl}
use mathlib.Core.Logic.{◌≢◌, ◌⊎◌, inl, inr}
use mathlib.Core.Option.{none, some}
use hyperfleet_controller.Base.Strings.{Text}
use hyperfleet_controller.Base.Errors.{Error, wrap, Err}
use hyperfleet_controller.Base.Effect.{M, fail, resume, check_or, check}

module _ {W : Type 0} where
  resume-none :
      (handle : Error → M W Err) (k : M W Err) (r : Err) (w : W)
      → ((e : Error) (v : W) → (handle e v).0 ≢ none)
      → (resume handle k r w).0 ≡ none
      → (r ≡ none) × (resume handle k r w ≡ k w)
  resume-none handle k none w never h = (refl, refl)
  resume-none handle k (some e) w never h = absurd (never e w h)

  fail-ne-none : (e : Error) (w : W) → (fail e w).0 ≢ none
  unfolding fail
  fail-ne-none e w = λ h. cc

  -- With an error passed on, nil means that both calls returned nil, one after the other.
  pub check_or-none :
      (m k : M W Err) (w : W)
      → (check_or fail m k w).0 ≡ none
      → ((m w).0 ≡ none) × (check_or fail m k w ≡ k (m w).1)
  unfolding check_or
  check_or-none m k w h = resume-none fail k (m w).0 (m w).1 fail-ne-none h

  pub check-none :
      (message : Text) (m k : M W Err) (w : W)
      → (check message m k w).0 ≡ none
      → ((m w).0 ≡ none) × (check message m k w ≡ k (m w).1)
  unfolding check
  check-none message m k w h =
      resume-none (λ e. fail (wrap message e)) k (m w).0 (m w).1
        (λ e. fail-ne-none (wrap message e)) h

  resume-fails :
      (f : Error → Error) (k : M W Err) (r : Err) (w : W)
      → ((resume (λ e. fail (f e)) k r w).1 ≡ w) ⊎ (resume (λ e. fail (f e)) k r w ≡ k w)
  unfolding fail
  resume-fails f k none w = inr refl
  resume-fails f k (some e) w = inl refl

  -- A checked call is the last one, or what follows decides.
  pub check-cases :
      (message : Text) (m k : M W Err) (w : W)
      → ((check message m k w).1 ≡ (m w).1) ⊎ (check message m k w ≡ k (m w).1)
  unfolding check
  check-cases message m k w = resume-fails (wrap message) k (m w).0 (m w).1
