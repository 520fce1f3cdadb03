-- ===== src/Provider/Tests.antt =====
-- The mock factory at a concrete input.
use hyperfleet_controller.Base.{ℕ, suc, text, none, [], ◌∷◌, ◌≡◌, refl, errorf, M}
use hyperfleet_controller.Provider.Mock.{
  MockClientFactory, keep, mock_create_client, new_mock_client_factory,
  new_failing_mock_client_factory, new_mock_client_factory_with_client,
}
use hyperfleet_controller.Provider.Mocked.{Request, create_all}

-- Clients are numbered as they are allocated.
abbrev make : M ℕ ℕ
make n = (n, suc n)

abbrev request : Request
request = (text "proxmox", none, none)

abbrev factory : MockClientFactory ℕ ℕ
factory = new_mock_client_factory

two_clients :
    (create_all make (request ∷ request ∷ []) (factory, 7)).1.0.created_clients ≡ 7 ∷ 8 ∷ []
unfolding mock_create_client new_mock_client_factory
two_clients = refl

abbrev failing : MockClientFactory ℕ ℕ
failing = new_failing_mock_client_factory (errorf (text "refused"))

no_client : (create_all make (request ∷ []) (failing, 7)).1.0.created_clients ≡ []
unfolding mock_create_client new_failing_mock_client_factory keep
no_client = refl

-- The given client is kept from the start, and once more for each request.
abbrev given : MockClientFactory ℕ ℕ
given = new_mock_client_factory_with_client 3

given_twice : (create_all make (request ∷ []) (given, 7)).1.0.created_clients ≡ 3 ∷ 3 ∷ []
unfolding mock_create_client new_mock_client_factory_with_client keep
given_twice = refl
