-- ===== src/Provider/Mocked.antt =====
-- What the mock factory keeps over a sequence of requests.
use hyperfleet_controller.Base.{
  Text, Bool, true, false, ◌||◌, arith, Result, Option, none, some, List, [], ◌∷◌, ◌++◌,
  append_assoc, append-nil, ◌≡◌, refl, sym, ap, ◌∙◌, Err, M,
}
use hyperfleet_controller.Provider.{ConnectionInfo, ClientConfig, AuthConfig}
use hyperfleet_controller.Provider.Mock.{
  MockHypervisorClient, mock_test_connection, mock_close, MockClientFactory, keep,
  mock_create_client,
}

abbrev pub Request : Type 0
Request = Text × Option ClientConfig × Option AuthConfig

-- The clients that were returned without an error, in order.
abbrev pub delivered : {C : Type 0} → List (Option C × Err) → List C
delivered [] = []
delivered ((some c, none) ∷ rs) = c ∷ delivered rs
delivered ((some c, some e) ∷ rs) = delivered rs
delivered ((none, e) ∷ rs) = delivered rs

module _ {W C : Type 0} (make : M W C) where
  abbrev pub create_all : List Request → M (MockClientFactory W C × W) (List (Option C × Err))
  create_all [] s = ([], s)
  create_all ((provider, config, auth) ∷ rs) s =
      let (r, s') = mock_create_client make provider config auth s in
      let (results, s'') = create_all rs s' in (r ∷ results, s'')

  kept_client :
      (m : MockClientFactory W C) (r : Option C × Err) (rest : List (Option C × Err))
      → (keep make m r).created_clients ++ delivered rest
        ≡ m.created_clients ++ delivered (r ∷ rest)
  unfolding keep
  kept_client m (some c, none) rest = append_assoc m.created_clients (c ∷ []) (delivered rest)
  kept_client m (some c, some e) rest = refl
  kept_client m (none, e) rest = refl

  create_one :
      (provider : Text) (config : Option ClientConfig) (auth : Option AuthConfig)
      (func : Option (Text → Option ClientConfig → Option AuthConfig → M W (Option C × Err)))
      (created : List C) (w : W) (rest : List (Option C × Err))
      → let m : MockClientFactory W C = record {
        create_client_func = func;
        created_clients = created;
      } in
        let (r, s') = mock_create_client make provider config auth (m, w) in
        s'.0.created_clients ++ delivered rest ≡ created ++ delivered (r ∷ rest)
  unfolding mock_create_client
  create_one provider config auth (some f) created w rest =
      kept_client (record { create_client_func = some f; created_clients = created })
        (f provider config auth w).0 rest
  create_one provider config auth none created w rest =
      append_assoc created ((make w).0 ∷ []) (delivered rest)

  -- After any sequence of requests to the mock factory, the clients that it has kept are those that
  -- it had and then, in order, those that it returned without an error.
  pub create_all-created_clients :
      (rs : List Request) (s : MockClientFactory W C × W)
      → let (results, s') = create_all rs s in
        s'.0.created_clients ≡ s.0.created_clients ++ delivered results
  create_all-created_clients [] s = sym (append-nil s.0.created_clients)
  create_all-created_clients ((provider, config, auth) ∷ rs) s =
      create_all-created_clients rs (mock_create_client make provider config auth s).1
      ∙ create_one provider config auth s.0.create_client_func s.0.created_clients s.1 _

-- The methods of a mock client.
pub data MockCall : Type 0 where
  test_connection_called close_called : MockCall

abbrev pub closes_client : List MockCall → Bool
closes_client [] = false
closes_client (test_connection_called ∷ cs) = closes_client cs
closes_client (close_called ∷ cs) = true

module _ {W : Type 0} where
  abbrev pub after_call : MockCall → MockHypervisorClient W × W → MockHypervisorClient W × W
  after_call test_connection_called s = (mock_test_connection s).1
  after_call close_called s = (mock_close s).1

  abbrev pub after_calls : List MockCall → MockHypervisorClient W × W → MockHypervisorClient W × W
  after_calls [] s = s
  after_calls (c ∷ cs) s = after_calls cs (after_call c s)

  tested_closed :
      (test : Option (M W (Result ConnectionInfo))) (close : Option (M W Err)) (b : Bool) (w : W)
      → let m : MockHypervisorClient W = record {
        test_connection_func = test;
        close_func = close;
        closed = b;
      } in
        (mock_test_connection (m, w)).1.0.closed ≡ b
  unfolding mock_test_connection
  tested_closed none close b w = refl
  tested_closed (some f) close b w = refl

  closed_closed :
      (test : Option (M W (Result ConnectionInfo))) (close : Option (M W Err)) (b : Bool) (w : W)
      → let m : MockHypervisorClient W = record {
        test_connection_func = test;
        close_func = close;
        closed = b;
      } in
        (mock_close (m, w)).1.0.closed ≡ true
  unfolding mock_close
  closed_closed test none b w = refl
  closed_closed test (some f) b w = refl

  -- A mock client is closed exactly if it was before or Close was called on it.
  pub after_calls-closed :
      (cs : List MockCall) (s : MockHypervisorClient W × W)
      → (after_calls cs s).0.closed ≡ (s.0.closed || closes_client cs)
  after_calls-closed [] s = ground arith
  after_calls-closed (test_connection_called ∷ cs) s =
      after_calls-closed cs _
      ∙ ap (λ b. b || closes_client cs)
          (tested_closed s.0.test_connection_func s.0.close_func s.0.closed s.1)
  after_calls-closed (close_called ∷ cs) s =
      after_calls-closed cs _
      ∙ ap (λ b. b || closes_client cs)
          (closed_closed s.0.test_connection_func s.0.close_func s.0.closed s.1)
      ∙ ground arith
