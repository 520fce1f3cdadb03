-- ===== src/Base/Emission.antt =====
-- What a fallible call adds to a trace of events, one rule for each way to build the call.
use mathlib.Core.Path.{◌≡◌, refl, ap, ◌∙◌, sym}
use mathlib.Core.Bool.{Bool, true, false}
use mathlib.Core.Option.{none, some}
use mathlib.Core.List.{List, [], ◌∷◌, ◌++◌, append_assoc}
use hyperfleet_controller.Base.Strings.{Text}
use hyperfleet_controller.Base.Errors.{Error, wrap, Err}
use hyperfleet_controller.Base.Tests.{if◌then◌else◌, All, All-append}
use hyperfleet_controller.Base.Effect.{M, done, fail, resume, check_or, check, ignoring, deferring}

-- `after` is `before` with events in front that all have the property.
pub record Emitted {E : Type 0} (P : E → Type 0) (before after : List E) : Type 0 where
  pub events : List E
  pub trace : after ≡ events ++ before
  pub all : All P events

module _ {E : Type 0} (P : E → Type 0) where
  pub Emitted-refl : (t : List E) → Emitted P t t
  Emitted-refl t = record { events = []; trace = refl; all = tt }

  pub Emitted-cons : (e : E) (t : List E) → P e → Emitted P t (e ∷ t)
  Emitted-cons e t p = record { events = e ∷ []; trace = refl; all = (p, tt) }

  pub Emitted-trans : (a b c : List E) → Emitted P a b → Emitted P b c → Emitted P a c
  Emitted-trans a b c p q = record {
    events = q.events ++ p.events;
    trace = q.trace ∙ ap (λ t. q.events ++ t) p.trace ∙ sym (append_assoc q.events p.events a);
    all = All-append P q.events p.events q.all p.all;
  }

-- Every event that the call adds has the property, whether it fails or not.
pub record Emits {E : Type 0} (P : E → Type 0) (m : M (List E) Err) : Type 0 where
  pub from : (t : List E) → Emitted P t (m t).1

module _ {E : Type 0} {P : E → Type 0} where
  pub Emits-done : Emits P done
  unfolding done
  Emits-done = record { from = Emitted-refl P }

  pub Emits-fail : (e : Error) → Emits P (fail e)
  unfolding fail
  Emits-fail e = record { from = Emitted-refl P }

  Emits-resume :
      (handle : Error → M (List E) Err) (k : M (List E) Err) (r : Err)
      → ((e : Error) → Emits P (handle e))
      → Emits P k
      → Emits P (resume handle k r)
  Emits-resume handle k none kh kk = kk
  Emits-resume handle k (some e) kh kk = kh e

  pub Emits-check_or :
      (handle : Error → M (List E) Err) (m k : M (List E) Err)
      → ((e : Error) → Emits P (handle e))
      → Emits P m
      → Emits P k
      → Emits P (check_or handle m k)
  unfolding check_or
  Emits-check_or handle m k kh km kk = record {
    from = λ t.
        Emitted-trans P t (m t).1 _ (km.from t)
          ((Emits-resume handle k (m t).0 kh kk).from (m t).1);
  }

  pub Emits-check :
      (message : Text) (m k : M (List E) Err) → Emits P m → Emits P k → Emits P (check message m k)
  unfolding check
  Emits-check message m k km kk =
      Emits-check_or (λ e. fail (wrap message e)) m k (λ e. Emits-fail (wrap message e)) km kk

  pub Emits-ignoring : (m k : M (List E) Err) → Emits P m → Emits P k → Emits P (ignoring m k)
  unfolding ignoring
  Emits-ignoring m k km kk = record {
    from = λ t. Emitted-trans P t (m t).1 _ (km.from t) (kk.from (m t).1);
  }

  pub Emits-deferring : (m k : M (List E) Err) → Emits P m → Emits P k → Emits P (deferring m k)
  unfolding deferring
  Emits-deferring m k km kk = record {
    from = λ t. Emitted-trans P t (k t).1 _ (kk.from t) (km.from (k t).1);
  }

  pub Emits-if :
      (b : Bool) (m k : M (List E) Err)
      → (b ≡ true → Emits P m)
      → (b ≡ false → Emits P k)
      → Emits P (if b then m else k)
  Emits-if true m k km kk = km refl
  Emits-if false m k km kk = kk refl

  -- A step that only gives a result.
  pub Emits-pure : (r : Err) → Emits P (λ t. (r, t))
  Emits-pure r = record { from = Emitted-refl P }
