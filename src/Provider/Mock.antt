-- ===== src/Provider/Mock.antt =====
-- The mock of internal/provider/mock.go: a client that can be told what to answer, and a factory
-- that keeps the clients it has made.
use hyperfleet_controller.Base.{
  Text, text, Bool, true, false, Option, none, some, List, [], ◌∷◌, ◌++◌, Error, Err, Result, ok, M,
}
use hyperfleet_controller.Provider.{ConnectionInfo, ClientConfig, AuthConfig, HypervisorClient}

-- MockHypervisorClient. A nil function is `none`; the functions act on what lies outside.
pub record MockHypervisorClient (W : Type 0) : Type 0 where
  pub test_connection_func : Option (M W (Result ConnectionInfo))
  pub close_func : Option (M W Err)
  pub closed : Bool

abbrev pub mock_info : ConnectionInfo
mock_info = record {
  version = text "mock-1.0.0";
  metadata = (text "provider", text "mock") ∷ (text "type", text "test") ∷ [];
}

-- `&MockHypervisorClient{}`
abbrev pub new_mock : {W : Type 0} → MockHypervisorClient W
new_mock = record { test_connection_func = none; close_func = none; closed = false }

-- The methods act on the client that the receiver points to.
module _ {W : Type 0} where
  unfoldable pub mock_test_connection : M (MockHypervisorClient W × W) (Result ConnectionInfo)
  mock_test_connection (m, w) = elim m.test_connection_func [
    | some f ↦ let (r, w') = f w in (r, (m, w'))
    | none ↦ (ok mock_info, (m, w))
  ]

  unfoldable pub mock_close : M (MockHypervisorClient W × W) Err
  mock_close (m, w) =
      let m' = record m { closed = true } in
      elim m.close_func [ some f ↦ let (e, w') = f w in (e, (m', w')) | none ↦ (none, (m', w)) ]

  -- The mock, as a HypervisorClient.
  unfoldable pub mock_client : HypervisorClient (MockHypervisorClient W × W)
  mock_client = record { test_connection = mock_test_connection; close = mock_close }

-- MockClientFactory, over the pointers `C` to clients. CreateClientFunc returns a client, which may
-- be nil, and an error.
pub record MockClientFactory (W C : Type 0) : Type 0 where
  pub create_client_func :
      Option (Text → Option ClientConfig → Option AuthConfig → M W (Option C × Err))
  pub created_clients : List C

-- `make` allocates a client that is not told anything.
module _ {W C : Type 0} (make : M W C) where
  abbrev pub append_client : MockClientFactory W C → C → MockClientFactory W C
  append_client m client = record m { created_clients = m.created_clients ++ client ∷ [] }

  -- `if err == nil && client != nil`
  unfoldable pub keep : MockClientFactory W C → Option C × Err → MockClientFactory W C
  keep m (some client, none) = append_client m client
  keep m (some client, some e) = m
  keep m (none, e) = m

  unfoldable pub mock_create_client :
      Text
      → Option ClientConfig
      → Option AuthConfig
      → M (MockClientFactory W C × W) (Option C × Err)
  mock_create_client provider config auth (m, w) = elim m.create_client_func [
    | some f ↦ let (r, w') = f provider config auth w in (r, (keep m r, w'))
    | none ↦ let (client, w') = make w in ((some client, none), (append_client m client, w'))
  ]

module _ {W C : Type 0} where
  unfoldable pub new_mock_client_factory : MockClientFactory W C
  new_mock_client_factory = record { create_client_func = none; created_clients = [] }

  unfoldable pub new_failing_mock_client_factory : Error → MockClientFactory W C
  new_failing_mock_client_factory e = record {
    create_client_func = some (λ provider config auth w. ((none, some e), w));
    created_clients = [];
  }

  unfoldable pub new_mock_client_factory_with_client : C → MockClientFactory W C
  new_mock_client_factory_with_client client = record {
    create_client_func = some (λ provider config auth w. ((some client, none), w));
    created_clients = client ∷ [];
  }
