-- ===== src/Api/MemoryTests.antt =====
-- The deep copies at a concrete input.
use hyperfleet_controller.Base.{ℕ, Text, text, true, none, some, [], ◌∷◌, ◌≡◌, pos}
use hyperfleet_controller.Api.Meta.{Time, Condition, SecretSelector, ObjectMeta}
use hyperfleet_controller.Api.Memory.{Ref, Kubernetes, flat}
use hyperfleet_controller.Api.Memory.Deep.{Between, IsKubernetes, flat-IsDeep}
use hyperfleet_controller.Api.Memory.Cluster.{StoredHypervisorCluster}
use hyperfleet_controller.Api.Memory.Objects.{
  RuntimeObject, hypervisor_cluster_object, copy_object, erase_object, ObjectRefs,
  copy_object-fresh,
}

abbrev kubernetes : Kubernetes
kubernetes = record {
  ObjectMeta = ObjectMeta;
  ListMeta = Text;
  Condition = Condition;
  Time = Time;
  Quantity = Text;
  SecretSelector = SecretSelector;
  object_meta = flat ObjectMeta;
  list_meta = flat Text;
  condition = flat Condition;
  time = flat Time;
  quantity = flat Text;
  secret_selector = flat SecretSelector;
}

kubernetes-IsKubernetes : IsKubernetes kubernetes
kubernetes-IsKubernetes = record {
  object_meta = flat-IsDeep ObjectMeta;
  list_meta = flat-IsDeep Text;
  condition = flat-IsDeep Condition;
  time = flat-IsDeep Time;
  quantity = flat-IsDeep Text;
  secret_selector = flat-IsDeep SecretSelector;
}

abbrev selector : ℕ → Ref SecretSelector
selector n = record { address = n; value = record { name = text "proxmox"; key = text "id" } }

-- A cluster in memory, at the addresses 1 to 7. Two of its pointers lead to one selector.
abbrev cluster : StoredHypervisorCluster kubernetes
cluster = record {
  type_meta = record { kind = text "HypervisorCluster"; api_version = text "v1alpha1" };
  object_meta = record {
    name = text "pve";
    namespace = text "default";
    generation = 1;
    resource_version = 1;
    finalizers = [];
    deletion_timestamp = none;
  };
  spec = record {
    provider = text "proxmox";
    endpoint = text "https://pve:8006";
    credentials = record {
      token_id = some (selector 2);
      token_secret = some (selector 2);
      username = none;
      password = none;
    };
    tls = some (record {
      address = 3;
      value = record { insecure_skip_verify = true; ca_certificate = some (selector 4) };
    });
    nodes = some (record { address = 5; value = text "pve1" ∷ text "pve2" ∷ [] });
    default_storage = [];
    default_network = [];
    dns = none;
    tags = some (record { address = 6; value = (text "env", text "ci") ∷ [] });
  };
  status = record {
    conditions = none;
    connected_nodes = pos 2;
    available_resources = none;
    last_sync_time = some (record { address = 7; value = 9 });
  };
}

abbrev object : RuntimeObject kubernetes
object = hypervisor_cluster_object (record { address = 1; value = cluster })

copy_object-fresh_example :
    (c : RuntimeObject kubernetes) × ((copy_object kubernetes object 8).0 ≡ some c)
    × (erase_object kubernetes c ≡ erase_object kubernetes object)
    × ObjectRefs kubernetes (Between 8 (copy_object kubernetes object 8).1) c
copy_object-fresh_example = copy_object-fresh kubernetes kubernetes-IsKubernetes object 8
