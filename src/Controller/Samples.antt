-- ===== src/Controller/Samples.antt =====
-- Inputs for the tests of the reconcilers: an API server with one cluster and one template, and a
-- Proxmox that answers.
use hyperfleet_controller.Base.{
  ℕ, suc, Text, text, ◌==◌, ==_refl, ==_iff, ◌≡◌, refl, Bool, false, true, ◌&&◌, none, some, List,
  [], ◌∷◌, if◌then◌else◌, arith, nat_eq, Error, Err, not_found, external, Result, ok, err, M, pos,
}
use hyperfleet_controller.Api.Meta.{
  Condition, ConditionStatus, condition_true, ObjectMeta, NamespacedName, Secret, SecretSelector,
}
use hyperfleet_controller.Api.Cluster.{HypervisorCluster}
use hyperfleet_controller.Api.Template.{HypervisorMachineTemplate}
use hyperfleet_controller.Provider.Proxmox.{ProxmoxApi}
use hyperfleet_controller.Controller.Kube.{KubeClient, FinalizerUtil, FinalizerLaws, key_of}
use hyperfleet_controller.Controller.Template.{finalizer_name}

-- What the API server stores, how often Proxmox was called.
pub record World : Type 0 where
  pub cluster : HypervisorCluster
  pub template : HypervisorMachineTemplate
  pub requests : ℕ

abbrev pub same_name : NamespacedName → NamespacedName → Bool
same_name a b = a.namespace == b.namespace && a.name == b.name

pub same_name_refl : (a : NamespacedName) → same_name a a ≡ true
same_name_refl a = rw (==_refl a.namespace, ==_refl a.name) refl

abbrev pub missing : Error
missing = not_found (text "not found")

abbrev pub get {ℓ} : {A : Type ℓ} → ObjectMeta → A → NamespacedName → Result A
get meta a key = if same_name key (key_of meta) then ok a else err missing

pub get_stored : {A : Type 0} (meta : ObjectMeta) (a : A) → get meta a (key_of meta) ≡ ok a
get_stored meta a = ground (arith, same_name_refl (key_of meta))

abbrev pub secrets : Secret
secrets = record {
  value_at = λ key. if key == text "id" then some (text "u@pam!t") else some (text "s3cret");
}

abbrev pub put_cluster_status : HypervisorCluster → Bool → M World Err
put_cluster_status c true w =
    (none, record w { cluster = record (w.cluster) { status = c.status } })
put_cluster_status c false w = (some missing, w)

-- A server by the templates that it accepts, and by the version that follows one.
module _ (accepts : HypervisorMachineTemplate → World → Bool) (following : ℕ → ℕ) where
  abbrev pub put_template : HypervisorMachineTemplate → Bool → M World Err
  put_template t true w = (
    none,
    record w {
      template = record t {
        status = w.template.status;
        meta = record (t.meta) { resource_version = following w.template.meta.resource_version };
      };
    },
  )
  put_template t false w = (some missing, w)

  abbrev pub put_template_status : HypervisorMachineTemplate → Bool → M World Err
  put_template_status t true w = (
    none,
    record w {
      template = record (w.template) {
        status = t.status;
        meta = record (w.template.meta) {
          resource_version = following w.template.meta.resource_version;
        };
      };
    },
  )
  put_template_status t false w = (some missing, w)

  abbrev pub server_with : KubeClient World
  server_with = record {
    get_cluster = λ key w. get w.cluster.meta w.cluster key;
    get_template = λ key w. get w.template.meta w.template key;
    get_secret = λ key w. if key.name == text "proxmox" then ok secrets else err missing;
    update_cluster_status =
        λ c w. put_cluster_status c (same_name (key_of c.meta) (key_of w.cluster.meta)) w;
    update_template = λ t w. put_template t (accepts t w) w;
    update_template_status = λ t w. put_template_status t (accepts t w) w;
  }

abbrev pub names : HypervisorMachineTemplate → World → Bool
names t w = same_name (key_of t.meta) (key_of w.template.meta)

-- A server that writes whatever names a stored object, and one that keeps the versions.
abbrev pub server : KubeClient World
server = server_with names (λ version. version)

abbrev pub is_current : HypervisorMachineTemplate → World → Bool
is_current t w = names t w && nat_eq w.template.meta.resource_version t.meta.resource_version

abbrev pub versioned : KubeClient World
versioned = server_with is_current suc

-- The list functions of controllerutil.
unfoldable pub contains : List Text → Text → Bool
contains [] f = false
contains (x ∷ xs) f = if x == f then true else contains xs f

unfoldable pub remove : List Text → Text → List Text
remove [] f = []
remove (x ∷ xs) f = let rest = remove xs f in if x == f then rest else x ∷ rest

contains-remove :
    (xs : List Text) (f g : Text)
    → contains (remove xs f) g ≡ (if f == g then false else contains xs g)
unfolding contains remove
contains-remove [] f g = ground arith
contains-remove (x ∷ xs) f g =
    ground (arith, ==_iff x f, ==_iff x g, ==_iff f g, contains-remove xs f g)

abbrev pub util : FinalizerUtil
util = record { contains = contains; add = λ fs f. f ∷ fs; remove = remove }

pub util-FinalizerLaws : FinalizerLaws util
unfolding contains
util-FinalizerLaws = record { contains-add = λ fs f g. refl; contains-remove = contains-remove }

-- A Proxmox that accepts every call, and one that cannot be reached.
abbrev pub proxmox : ProxmoxApi World Text
proxmox = record {
  new_client = λ endpoint tls timeout w. (ok endpoint, w);
  set_api_token = λ client id secret w. w;
  login = λ client user pass w. (none, w);
  get_version = λ client w. (ok (text "8.1"), record w { requests = suc w.requests });
}

abbrev pub unreachable : ProxmoxApi World Text
unreachable = record proxmox {
  get_version =
      λ client w. (err (external (text "timeout")), record w { requests = suc w.requests });
}

abbrev meta : Text → List Text → ObjectMeta
meta name finalizers = record {
  name = name;
  namespace = text "default";
  generation = 1;
  resource_version = 1;
  finalizers = finalizers;
  deletion_timestamp = none;
}

abbrev selector : Text → SecretSelector
selector key = record { name = text "proxmox"; key = key }

abbrev pub ready_condition_of : ConditionStatus → Condition
ready_condition_of status = record {
  type = text "Ready";
  status = status;
  observed_generation = 1;
  last_transition_time = 1;
  reason = text "ConnectionSuccessful";
  message = [];
}

abbrev pub cluster_with : List Condition → HypervisorCluster
cluster_with conditions = record {
  meta = meta (text "pve") [];
  spec = record {
    provider = text "Proxmox";
    endpoint = text "https://pve:8006";
    credentials = record {
      token_id = some (selector (text "id"));
      token_secret = some (selector (text "secret"));
      username = none;
      password = none;
    };
    tls = none;
    nodes = [];
    default_storage = [];
    default_network = [];
    dns = none;
    tags = [];
  };
  status = record {
    conditions = conditions;
    connected_nodes = pos 3;
    available_resources = none;
    last_sync_time = none;
  };
}

abbrev pub template_with : List Text → HypervisorMachineTemplate
template_with finalizers = record {
  meta = meta (text "small") finalizers;
  spec = record {
    hypervisor_cluster_ref = record { name = text "pve"; namespace = [] };
    template = record {
      proxmox = some (record { template_id = pos 9000; clone = true; linked_clone = false });
    };
    resources = record { cpu = pos 2; memory = text "4Gi"; disk = text "20Gi" };
    attestation = record {
      method = text "join-token";
      config = record { join_token_ttl = text "1h"; tpm_device = [] };
    };
    bootstrap = record { method = text "runner-token"; config = record { github = none } };
    network = record { mode = text "dhcp"; static_config = none; dhcp = none };
    cloud_init = none;
  };
  status = record {
    conditions = [];
    template_available = false;
    validation_status = [];
    last_validated = none;
  };
}

abbrev pub fresh : World
fresh = record { cluster = cluster_with []; template = template_with []; requests = 0 }

-- The cluster is ready and the template has the finalizer.
abbrev pub settled : World
settled = record {
  cluster = cluster_with (ready_condition_of condition_true ∷ []);
  template = template_with (finalizer_name ∷ []);
  requests = 0;
}

abbrev pub deleted_template : HypervisorMachineTemplate
deleted_template = record (template_with (finalizer_name ∷ text "other" ∷ [])) {
  meta = record (meta (text "small") (finalizer_name ∷ text "other" ∷ [])) {
    deletion_timestamp = some 5;
  };
}

abbrev pub deleting : World
deleting = record settled { template = deleted_template }
