-- ===== src/Controller/Cluster.antt =====
-- HypervisorClusterReconciler (internal/controller/hypervisorcluster_controller.go).
pub mod Credentials
pub mod Connection
pub mod Status
pub mod Proxmox
use hyperfleet_controller.Base.{
  ℕ, Text, text, Bool, true, false, Option, none, some, [], ◌++◌, if◌then◌else◌, Error, errorf,
  wrap, error_text, is_not_found, Err, Result, ok, err, M,
}
use hyperfleet_controller.Api.Meta.{
  Time, Condition, ConditionStatus, condition_true, condition_false, NamespacedName, name_text,
  SecretSelector, Secret,
}
use hyperfleet_controller.Api.Conditions.{set_condition}
use hyperfleet_controller.Api.Cluster.{HypervisorCluster, TlsConfig}
use hyperfleet_controller.Provider.{
  ConnectionInfo, TlsClientConfig, ClientConfig, AuthConfig, HypervisorClient, ClientFactory,
}
use hyperfleet_controller.Controller.Kube.{KubeClient, ReconcileResult, no_requeue, five_minutes}

abbrev pub requeue_interval : ℕ
requeue_interval = five_minutes

-- seconds
abbrev pub default_timeout : ℕ
default_timeout = 300

abbrev pub default_insecure_skip_verify : Bool
default_insecure_skip_verify = false

abbrev pub condition_ready : Text
condition_ready = text "Ready"

pub record ConnectionResult : Type 0 where
  pub success : Bool
  pub message : Text
  pub tested_at : Time

abbrev pub both {ℓ} : {A : Type ℓ} → Option A → Option A → Option (A × A)
both (some a) (some b) = some (a, b)
both _ _ = none

-- `a, err := r; if err != nil { return fmt.Errorf(message + ": %w", err) }`
abbrev pub try_as {ℓ κ} : {A : Type ℓ} {B : Type κ} → Text → Result A → (A → Result B) → Result B
try_as message (ok a) f = f a
try_as message (err e) f = err (wrap message e)

-- The value of a key in a secret that was found.
unfoldable pub value_of : NamespacedName → Text → Secret → Result Text
value_of name key secret = elim (secret.value_at key) [
  | some value ↦ ok value
  | none ↦ err (errorf (text "key " ++ (key ++ (text " not found in secret " ++ name_text name))))
]

abbrev pub token_auth : Text → Text → AuthConfig
token_auth token_id token_secret = record {
  type = text "token";
  token_id = token_id;
  token_secret = token_secret;
  username = [];
  password = [];
}

abbrev pub password_auth : Text → Text → AuthConfig
password_auth username password = record {
  type = text "password";
  token_id = [];
  token_secret = [];
  username = username;
  password = password;
}

-- The client configuration, with the TLS settings of the cluster if it has any.
unfoldable pub insecure_skip_verify : Option TlsConfig → Bool
insecure_skip_verify none = default_insecure_skip_verify
insecure_skip_verify (some tls) = tls.insecure_skip_verify

unfoldable pub client_config : HypervisorCluster → ClientConfig
client_config cluster = record {
  endpoint = cluster.spec.endpoint;
  tls_config = some (record { insecure_skip_verify = insecure_skip_verify cluster.spec.tls });
  timeout = default_timeout;
}

abbrev pub failed : Time → Text → ConnectionResult
failed now message = record { success = false; message = message; tested_at = now }

abbrev pub connected : Time → HypervisorCluster → ConnectionResult
connected now cluster = record {
  success = true;
  message = text "Successfully connected to " ++ (cluster.spec.provider ++ text " cluster");
  tested_at = now;
}

-- `if r.ClientFactory == nil { r.ClientFactory = provider.NewClientFactory() }`
abbrev pub factory_of : {W : Type 0} → ClientFactory W → Option (ClientFactory W) → ClientFactory W
factory_of default none = default
factory_of default (some factory) = factory

module _ {W : Type 0} (k : KubeClient W) where
  unfoldable pub get_secret_value : Text → SecretSelector → W → Result Text
  get_secret_value namespace selector w =
      let name : NamespacedName = record { namespace = namespace; name = selector.name } in
      try_as (text "failed to get secret " ++ name_text name) (k.get_secret name w)
        (value_of name selector.key)

  unfoldable pub load_token : Text → SecretSelector → SecretSelector → W → Result AuthConfig
  load_token namespace id secret w =
      try_as (text "failed to get tokenId") (get_secret_value namespace id w) λ token_id.
        try_as (text "failed to get tokenSecret") (get_secret_value namespace secret w)
          λ token_secret. ok (token_auth token_id token_secret)

  unfoldable pub load_password : Text → SecretSelector → SecretSelector → W → Result AuthConfig
  load_password namespace user pass w =
      try_as (text "failed to get username") (get_secret_value namespace user w) λ username.
        try_as (text "failed to get password") (get_secret_value namespace pass w)
          λ password. ok (password_auth username password)

  -- The choice between the pairs of selectors that are complete: the token first.
  unfoldable pub load_from :
      Text
      → Option (SecretSelector × SecretSelector)
      → Option (SecretSelector × SecretSelector)
      → W
      → Result AuthConfig
  load_from namespace (some (id, secret)) passwords w = load_token namespace id secret w
  load_from namespace none (some (user, pass)) w = load_password namespace user pass w
  load_from namespace none none w = err (errorf (text "no valid credential configuration found"))

  unfoldable pub load_credentials : HypervisorCluster → W → Result AuthConfig
  load_credentials cluster w =
      let creds = cluster.spec.credentials in
      load_from cluster.meta.namespace (both creds.token_id creds.token_secret)
        (both creds.username creds.password) w

  -- From the call of TestConnection on. The client is closed behind it.
  unfoldable pub probe : HypervisorClient W → HypervisorCluster → Time → M W ConnectionResult
  probe client cluster now w =
      let (r, w') = client.test_connection w in
      let closed = (client.close w').1 in
      elim r [
        | err e ↦ (failed now (text "Hypervisor connection failed: " ++ error_text e), closed)
        | ok info ↦ (connected now cluster, closed)
      ]

  -- What follows the call of CreateClient, by its result.
  unfoldable pub use_client :
      HypervisorCluster → Time → Result (HypervisorClient W) → M W ConnectionResult
  use_client cluster now (err e) w =
      (failed now (text "Failed to create hypervisor client: " ++ error_text e), w)
  use_client cluster now (ok client) w = probe client cluster now w

  -- From the client configuration on.
  unfoldable pub connect :
      ClientFactory W → HypervisorCluster → AuthConfig → Time → M W ConnectionResult
  connect factory cluster auth now w =
      let (r, w') =
        factory.create_client cluster.spec.provider (some (client_config cluster)) (some auth) w in
      use_client cluster now r w'

  -- `default` is NewClientFactory(), which stands for a nil ClientFactory.
  unfoldable pub test_connection :
      ClientFactory W → Option (ClientFactory W) → HypervisorCluster → Time → M W ConnectionResult
  test_connection default factory cluster now w = elim (load_credentials cluster w) [
    | err e ↦ (failed now (text "Credential loading failed: " ++ error_text e), w)
    | ok auth ↦ connect (factory_of default factory) cluster auth now w
  ]

-- The condition that a test leads to.
unfoldable pub ready_condition : HypervisorCluster → ConnectionResult → Condition
ready_condition cluster result = record {
  type = condition_ready;
  status = if result.success then condition_true else condition_false;
  observed_generation = cluster.meta.generation;
  last_transition_time = result.tested_at;
  reason = if result.success then text "ConnectionSuccessful" else text "ConnectionFailed";
  message = result.message;
}

-- The cluster with its new status.
unfoldable pub with_result : HypervisorCluster → ConnectionResult → HypervisorCluster
with_result cluster result = record cluster {
  status = record (cluster.status) {
    conditions = set_condition (ready_condition cluster result) cluster.status.conditions;
    last_sync_time = some result.tested_at;
  };
}

module _ {W : Type 0} (k : KubeClient W) where
  unfoldable pub update_status : HypervisorCluster → ConnectionResult → M W Err
  update_status cluster result = k.update_cluster_status (with_result cluster result)

  -- The part of Reconcile for a cluster that was found.
  unfoldable pub sync_cluster :
      ClientFactory W
      → Option (ClientFactory W)
      → HypervisorCluster
      → Time
      → M W (Result ReconcileResult)
  sync_cluster default factory cluster now w =
      let (result, w') = test_connection k default factory cluster now w in
      let (r, w'') = update_status cluster result w' in
      elim r [
        | some e ↦ (err e, w'')
        | none ↦ (ok (record { requeue = false; requeue_after = requeue_interval }), w'')
      ]

  -- Reconcile, with the reconciler's ClientFactory.
  unfoldable pub reconcile :
      ClientFactory W
      → Option (ClientFactory W)
      → NamespacedName
      → Time
      → M W (Result ReconcileResult)
  reconcile default factory key now w = elim (k.get_cluster key w) [
    | err e ↦ (if is_not_found e then ok no_requeue else err e, w)
    | ok cluster ↦ sync_cluster default factory cluster now w
  ]
