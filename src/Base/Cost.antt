-- ===== src/Base/Cost.antt =====
-- How many events a fallible call adds to a trace at most, one rule for each way to build the call.
use Prim.Native.Nat.{ℕ, suc, ◌+◌, ◌≤◌}
use mathlib.Core.Bool.{Bool, true, false}
use mathlib.Core.Option.{none, some}
use mathlib.Core.List.{List, [], ◌∷◌}
use native.Mathlib.Omega.{arith}
use hyperfleet_controller.Base.Strings.{Text}
use hyperfleet_controller.Base.Errors.{Error, wrap, Err}
use hyperfleet_controller.Base.Tests.{if◌then◌else◌}
use hyperfleet_controller.Base.Effect.{M, done, fail, resume, check_or, check, ignoring, deferring}

unfoldable pub length {ℓ} : {A : Type ℓ} → List A → ℕ
length [] = 0
length (x ∷ xs) = suc (length xs)

pub record Costs {E : Type 0} (n : ℕ) (m : M (List E) Err) : Type 0 where
  pub bound : (t : List E) → length (m t).1 ≤ n + length t

module _ {E : Type 0} where
  pub Costs-pure : (n : ℕ) (r : Err) → Costs {E = E} n (λ t. (r, t))
  Costs-pure n r = record { bound = λ t. omega arith }

  pub Costs-done : (n : ℕ) → Costs {E = E} n done
  unfolding done
  Costs-done n = record { bound = λ t. omega arith }

  pub Costs-fail : (n : ℕ) (e : Error) → Costs {E = E} n (fail e)
  unfolding fail
  Costs-fail n e = record { bound = λ t. omega arith }

  pub Costs-more : (a b : ℕ) (m : M (List E) Err) → a ≤ b → Costs a m → Costs b m
  Costs-more a b m h c = record { bound = λ t. let x = c.bound t in omega arith }

  Costs-resume :
      (n : ℕ) (handle : Error → M (List E) Err) (k : M (List E) Err) (r : Err)
      → ((e : Error) → Costs n (handle e))
      → Costs n k
      → Costs n (resume handle k r)
  Costs-resume n handle k none ch ck = ck
  Costs-resume n handle k (some e) ch ck = ch e

  pub Costs-check_or :
      (a b : ℕ) (handle : Error → M (List E) Err) (m k : M (List E) Err)
      → ((e : Error) → Costs b (handle e))
      → Costs a m
      → Costs b k
      → Costs (a + b) (check_or handle m k)
  unfolding check_or
  Costs-check_or a b handle m k ch cm ck = record {
    bound = λ t.
        let first = cm.bound t in
        let rest = (Costs-resume b handle k (m t).0 ch ck).bound (m t).1 in omega arith;
  }

  pub Costs-check :
      (a b : ℕ) (message : Text) (m k : M (List E) Err)
      → Costs a m
      → Costs b k
      → Costs (a + b) (check message m k)
  unfolding check
  Costs-check a b message m k cm ck =
      Costs-check_or a b (λ e. fail (wrap message e)) m k (λ e. Costs-fail b (wrap message e)) cm ck

  pub Costs-ignoring :
      (a b : ℕ) (m k : M (List E) Err) → Costs a m → Costs b k → Costs (a + b) (ignoring m k)
  unfolding ignoring
  Costs-ignoring a b m k cm ck = record {
    bound = λ t. let first = cm.bound t in let rest = ck.bound (m t).1 in omega arith;
  }

  pub Costs-deferring :
      (a b : ℕ) (m k : M (List E) Err) → Costs a m → Costs b k → Costs (a + b) (deferring m k)
  unfolding deferring
  Costs-deferring a b m k cm ck = record {
    bound = λ t. let first = ck.bound t in let rest = cm.bound (k t).1 in omega arith;
  }

  pub Costs-if :
      (n : ℕ) (b : Bool) (m k : M (List E) Err)
      → Costs n m
      → Costs n k
      → Costs n (if b then m else k)
  Costs-if n true m k cm ck = cm
  Costs-if n false m k cm ck = ck
