-- ===== src/Bootstrap/Protocol/Steps.antt =====
-- One call of the service as a step of a protocol.
use hyperfleet_controller.Base.{
  refl, none, some, ◌∷◌, Error, Err, stay, move, Ends, Leads, Expect, Always,
}
use hyperfleet_controller.Bootstrap.System.{Call, Event, Trace, Env, perform}

module _ {S : Type 0} {Step : S → Event → S → Type 0} (env : Env) where
  pub Leads-perform :
      {p a b : S} (call : Call)
      → Step p (call, none) a
      → ((e : Error) → Step p (call, some e) b)
      → Leads Step p (perform env call) (Expect a b)
  unfolding perform
  Leads-perform {p} {a} {b} call works fails = record { from = λ t. answered t (env.answer t call) }
    where
      answered : (t : Trace) (r : Err) → Ends Step p t (Expect a b) (r, (call, r) ∷ t)
      answered t none = record { last = a; walk = move _ stay works; known = refl }
      answered t (some e) = record { last = b; walk = move _ stay (fails e); known = refl }

  pub Leads-anyway :
      {p a : S} (call : Call)
      → ((r : Err) → Step p (call, r) a)
      → Leads Step p (perform env call) (Always a)
  unfolding perform
  Leads-anyway call step = record {
    from = λ t. record { last = _; walk = move _ stay (step (env.answer t call)); known = refl };
  }
