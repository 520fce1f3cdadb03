-- ===== src/Base/Protocol.antt =====
-- A protocol is a step relation on phases, one step for each event. What a fallible call adds to a
-- trace is a walk of the protocol, by one rule for each way to build the call.
use mathlib.Core.Path.{◌≡◌, refl, sym, subst}
use mathlib.Core.Bool.{Bool, true, false}
use mathlib.Core.Option.{none, some}
use mathlib.Core.List.{List, ◌∷◌}
use hyperfleet_controller.Base.Strings.{Text}
use hyperfleet_controller.Base.Errors.{Error, wrap, Err}
use hyperfleet_controller.Base.Tests.{if◌then◌else◌}
use hyperfleet_controller.Base.Effect.{M, done, fail, resume, check_or, check, ignoring, deferring}

module _ {E S : Type 0} (Step : S → E → S → Type 0) where
  -- From a phase and a trace to later ones. The newest event is the first of a trace.
  pub data Walk (p : S) (t : List E) : List E → S → Type 0 where
    stay : Walk p t t p
    move : {u : List E} {q r : S} (e : E) → Walk p t u q → Step q e r → Walk p t (e ∷ u) r

  pub Walk-trans : {p q : S} {t u v : List E} {r : S} → Walk p t u q → Walk q u v r → Walk p t v r
  Walk-trans w stay = w
  Walk-trans w (move e v s) = move e (Walk-trans w v) s

  -- The walk behind a result, and what is known of its last phase.
  pub record Ends (p : S) (t : List E) (post : Err → S → Type 0) (o : Err × List E) : Type 0 where
    pub last : S
    pub walk : Walk p t o.1 last
    pub known : post o.0 last

  pub record Leads (p : S) (m : M (List E) Err) (post : Err → S → Type 0) : Type 0 where
    pub from : (t : List E) → Ends p t post (m t)

module _ {E S : Type 0} {Step : S → E → S → Type 0} where
  pub Leads-done : {p : S} {post : Err → S → Type 0} → post none p → Leads Step p done post
  unfolding done
  Leads-done h = record { from = λ t. record { last = _; walk = stay; known = h } }

  pub Leads-fail :
      {p : S} {post : Err → S → Type 0} (e : Error) → post (some e) p → Leads Step p (fail e) post
  unfolding fail
  Leads-fail e h = record { from = λ t. record { last = _; walk = stay; known = h } }

  -- A step that only gives a result.
  pub Leads-pure :
      {p : S} {post : Err → S → Type 0} (r : Err) → post r p → Leads Step p (λ t. (r, t)) post
  Leads-pure r h = record { from = λ t. record { last = _; walk = stay; known = h } }

  Leads-resume :
      {q : S} (mid : Err → S → Type 0) {post : Err → S → Type 0} (handle : Error → M (List E) Err)
      (k : M (List E) Err) (r : Err)
      → mid r q
      → ((e : Error) → mid (some e) q → Leads Step q (handle e) post)
      → (mid none q → Leads Step q k post)
      → Leads Step q (resume handle k r) post
  Leads-resume mid handle k none h failed continued = continued h
  Leads-resume mid handle k (some e) h failed continued = failed e h

  Ends-after :
      {p q : S} {t u : List E} {post : Err → S → Type 0} {o : Err × List E}
      → Walk Step p t u q
      → Ends Step q u post o
      → Ends Step p t post o
  Ends-after w e = record { last = e.last; walk = Walk-trans Step w e.walk; known = e.known }

  pub Leads-check_or :
      {p : S} (mid : Err → S → Type 0) {post : Err → S → Type 0} (handle : Error → M (List E) Err)
      (m k : M (List E) Err)
      → Leads Step p m mid
      → ((e : Error) (q : S) → mid (some e) q → Leads Step q (handle e) post)
      → ((q : S) → mid none q → Leads Step q k post)
      → Leads Step p (check_or handle m k) post
  unfolding check_or
  Leads-check_or mid handle m k first failed continued = record {
    from = λ t.
        let a = first.from t in
        Ends-after a.walk (
          (Leads-resume mid handle k (m t).0 a.known (λ e. failed e a.last) (continued a.last)).from
            (m t).1);
  }

  pub Leads-check :
      {p : S} (mid : Err → S → Type 0) {post : Err → S → Type 0} (message : Text)
      (m k : M (List E) Err)
      → Leads Step p m mid
      → ((e : Error) (q : S) → mid (some e) q → post (some (wrap message e)) q)
      → ((q : S) → mid none q → Leads Step q k post)
      → Leads Step p (check message m k) post
  unfolding check
  Leads-check mid message m k first failed continued =
      Leads-check_or mid (λ e. fail (wrap message e)) m k first
        (λ e q h. Leads-fail (wrap message e) (failed e q h)) continued

  pub Leads-ignoring :
      {p : S} (mid : Err → S → Type 0) {post : Err → S → Type 0} (m k : M (List E) Err)
      → Leads Step p m mid
      → ((r : Err) (q : S) → mid r q → Leads Step q k post)
      → Leads Step p (ignoring m k) post
  unfolding ignoring
  Leads-ignoring mid m k first continued = record {
    from = λ t.
        let a = first.from t in Ends-after a.walk ((continued (m t).0 a.last a.known).from (m t).1);
  }

  -- The result is that of the body, the last phase that of the cleanup.
  pub Leads-deferring :
      {p : S} (mid : Err → S → Type 0) {post : Err → S → Type 0} (cleanup m : M (List E) Err)
      → Leads Step p m mid
      → ((r : Err) (q : S) → mid r q → Leads Step q cleanup (λ _ s. post r s))
      → Leads Step p (deferring cleanup m) post
  unfolding deferring
  Leads-deferring mid cleanup m first continued = record {
    from = λ t.
        let a = first.from t in
        let b = (continued (m t).0 a.last a.known).from (m t).1 in
        record { last = b.last; walk = Walk-trans Step a.walk b.walk; known = b.known };
  }

  pub Leads-if :
      {p : S} {post : Err → S → Type 0} (b : Bool) (m k : M (List E) Err)
      → (b ≡ true → Leads Step p m post)
      → (b ≡ false → Leads Step p k post)
      → Leads Step p (if b then m else k) post
  Leads-if true m k lm lk = lm refl
  Leads-if false m k lm lk = lk refl

-- Calls that lead to one phase if they succeed and to another if they fail, and such as lead to one
-- phase anyway.
abbrev pub Expect : {S : Type 0} → S → S → Err → S → Type 0
Expect a b none q = q ≡ a
Expect a b (some e) q = q ≡ b

abbrev pub Always : {S : Type 0} → S → Err → S → Type 0
Always a r q = q ≡ a

module _ {E S : Type 0} {Step : S → E → S → Type 0} where
  pub Leads-at :
      {a q : S} {post : Err → S → Type 0} {m : M (List E) Err}
      → q ≡ a
      → Leads Step a m post
      → Leads Step q m post
  Leads-at {a} {q} {post} {m} same l = subst (λ p. Leads Step p m post) (sym same) l

  pub Expect-check_or :
      {p : S} (a b : S) {post : Err → S → Type 0} (handle : Error → M (List E) Err)
      (m k : M (List E) Err)
      → Leads Step p m (Expect a b)
      → ((e : Error) → Leads Step b (handle e) post)
      → Leads Step a k post
      → Leads Step p (check_or handle m k) post
  Expect-check_or a b handle m k first failed continued =
      Leads-check_or (Expect a b) handle m k first (λ e q h. Leads-at h (failed e))
        (λ q h. Leads-at h continued)

  pub Expect-check :
      {p : S} (a b : S) {post : Err → S → Type 0} (message : Text) (m k : M (List E) Err)
      → Leads Step p m (Expect a b)
      → ((e : Error) → post (some e) b)
      → Leads Step a k post
      → Leads Step p (check message m k) post
  Expect-check a b {post} message m k first failed continued =
      Leads-check (Expect a b) message m k first
        (λ e q h. subst (λ s. post (some (wrap message e)) s) (sym h) (failed (wrap message e)))
        (λ q h. Leads-at h continued)

  pub Always-ignoring :
      {p : S} (a : S) {post : Err → S → Type 0} (m k : M (List E) Err)
      → Leads Step p m (Always a)
      → Leads Step a k post
      → Leads Step p (ignoring m k) post
  Always-ignoring a m k first continued =
      Leads-ignoring (Always a) m k first (λ r q h. Leads-at h continued)

  pub Expect-deferring :
      {p : S} (a b c d : S) (cleanup m : M (List E) Err)
      → Leads Step p m (Expect a b)
      → Leads Step a cleanup (Always c)
      → Leads Step b cleanup (Always d)
      → Leads Step p (deferring cleanup m) (Expect c d)
  Expect-deferring a b c d cleanup m first worked failed =
      Leads-deferring (Expect a b) cleanup m first behind
    where
      behind : (r : Err) (q : S) → Expect a b r q → Leads Step q cleanup (λ _ s. Expect c d r s)
      behind none q h = Leads-at h worked
      behind (some e) q h = Leads-at h failed

-- A protocol that has the steps of another.
module _ {E S : Type 0} {Step Other : S → E → S → Type 0}
    (step : (p q : S) (e : E) → Step p e q → Other p e q) where
  Walk-map : {p : S} {t u : List E} {q : S} → Walk Step p t u q → Walk Other p t u q
  Walk-map stay = stay
  Walk-map (move e w s) = move e (Walk-map w) (step _ _ e s)

  pub Leads-map :
      {p : S} {m : M (List E) Err} {post : Err → S → Type 0}
      → Leads Step p m post
      → Leads Other p m post
  Leads-map l = record {
    from =
        λ t. let e = l.from t in record { last = e.last; walk = Walk-map e.walk; known = e.known };
  }

-- What is known of the end may be less.
pub Leads-weaken :
    {E S : Type 0} {Step : S → E → S → Type 0} {p : S} {m : M (List E) Err}
    {post less : Err → S → Type 0}
    → ((r : Err) (q : S) → post r q → less r q)
    → Leads Step p m post
    → Leads Step p m less
Leads-weaken h l = record {
  from =
      λ t. let e = l.from t in record { last = e.last; walk = e.walk; known = h _ e.last e.known };
}
