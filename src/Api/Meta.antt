-- ===== src/Api/Meta.antt =====
-- The Kubernetes types that the resources are made of (metav1 and corev1), with the fields that
-- the program reads or writes, and the reference types of
-- api/v1alpha1/hypervisormachinetemplate_types.go.
use hyperfleet_controller.Base.{ℕ, Text, text, ◌++◌, List, Option}

-- A point in time, in whole seconds, as the API server stores it. The zero value of metav1.Time is 0.
abbrev pub Time : Type 0
Time = ℕ

pub data ConditionStatus : Type 0 where
  condition_true condition_false condition_unknown : ConditionStatus

pub record Condition : Type 0 where
  pub type : Text
  pub status : ConditionStatus
  pub observed_generation : ℕ
  pub last_transition_time : Time
  pub reason : Text
  pub message : Text

-- The resource version is the number of the revision that wrote the object.
pub record ObjectMeta : Type 0 where
  pub name : Text
  pub namespace : Text
  pub generation : ℕ
  pub resource_version : ℕ
  pub finalizers : List Text
  pub deletion_timestamp : Option Time

pub record NamespacedName : Type 0 where
  pub namespace : Text
  pub name : Text

-- NamespacedName.String
abbrev pub name_text : NamespacedName → Text
name_text n = n.namespace ++ text "/" ++ n.name

-- corev1.SecretKeySelector
pub record SecretSelector : Type 0 where
  pub name : Text
  pub key : Text

-- corev1.Secret, by its map Data
pub record Secret : Type 0 where
  pub value_at : Text → Option Text

pub record ObjectReference : Type 0 where
  pub name : Text
  pub namespace : Text

-- The SecretKeySelector of the template types, with a namespace.
pub record SecretKeySelector : Type 0 where
  pub name : Text
  pub key : Text
  pub namespace : Text
