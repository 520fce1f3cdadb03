-- ===== src/Base/Effect.antt =====
-- Code that changes a state and may fail. The state that a failed call leaves is kept.
use mathlib.Core.Option.{none, some}
use hyperfleet_controller.Base.Strings.{Text}
use hyperfleet_controller.Base.Errors.{Error, wrap, Err}

abbrev pub M : Type 0 → Type 0 → Type 0
M W A = W → A × W

module _ {W : Type 0} where
  -- `return nil`
  unfoldable pub done : M W Err
  done w = (none, w)

  -- `return e`
  unfoldable pub fail : Error → M W Err
  fail e w = (some e, w)

  abbrev pub resume : (Error → M W Err) → M W Err → Err → M W Err
  resume handle k none = k
  resume handle k (some e) = handle e

  -- `if err := m; err != nil { handle err }`, followed by `k`.
  unfoldable pub check_or : (Error → M W Err) → M W Err → M W Err → M W Err
  check_or handle m k w = let (r, w') = m w in resume handle k r w'

  -- The usual `return fmt.Errorf(message + ": %w", err)`.
  unfoldable pub check : Text → M W Err → M W Err → M W Err
  unfolding check_or fail
  check message = check_or (λ e. fail (wrap message e))

  -- `m` whose error is only logged, followed by `k`.
  unfoldable pub ignoring : M W Err → M W Err → M W Err
  ignoring m k w = k (m w).1

  -- `defer cleanup()` before the body `m`. An error of the cleanup is only logged. To unfold this
  -- is to unfold all of these.
  unfoldable pub deferring : M W Err → M W Err → M W Err
  unfolding done check ignoring
  deferring cleanup m w = let (r, w') = m w in (r, (cleanup w').1)
