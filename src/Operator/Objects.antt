-- ===== src/Operator/Objects.antt =====
-- The Kubernetes objects that operator/pkg/stub/handler.go fabricates, by the fields that it sets;
-- APIVersion and Kind are those of the constructor of `Object`.
use bank_vaults.Prelude.{String, Bool, ℕ, ℤ, Option, List, Dict}

pub record OwnerReference : Type 0 where
  pub api_version : String
  pub kind : String
  pub name : String
  pub uid : String
  pub controller : Bool

pub record ObjectMeta : Type 0 where
  pub name : String
  pub namespace : String
  pub labels : Dict String
  pub owner_references : List OwnerReference

pub data VolumeSource : Type 0 where
  empty_dir : VolumeSource
  secret_source : String → VolumeSource
  config_map_source : String → VolumeSource

pub record Volume : Type 0 where
  pub name : String
  pub source : VolumeSource

pub record VolumeMount : Type 0 where
  pub name : String
  pub mount_path : String
  pub sub_path : String

pub record EnvVar : Type 0 where
  pub name : String
  pub value : String

-- An HTTPS probe of a named port.
pub record Probe : Type 0 where
  pub port : String
  pub path : String

-- Every container has the pull policy IfNotPresent.
pub record Container : Type 0 where
  pub image : String
  pub name : String
  pub command : List String
  pub args : List String
  pub ports : List (String × ℕ)
  pub env : List EnvVar
  pub capabilities : List String
  pub liveness_probe : Option Probe
  pub readiness_probe : Option Probe
  pub volume_mounts : List VolumeMount
  pub working_dir : String

pub record PodTemplate : Type 0 where
  pub labels : Dict String
  pub containers : List Container
  pub volumes : List Volume

-- `replicas` is `none` where the pointer is nil.
pub record WorkloadSpec : Type 0 where
  pub replicas : Option ℤ
  pub match_labels : Dict String
  pub template : PodTemplate

pub record EtcdSpec : Type 0 where
  pub size : ℕ
  pub version : String
  pub operator_secret : String
  pub server_secret : String
  pub peer_secret : String

-- A service of type NodePort.
pub record ServiceSpec : Type 0 where
  pub selector : Dict String
  pub ports : List (String × ℕ)

pub data Object : Type 0 where
  secret : ObjectMeta → Dict String → Object
  etcd_cluster : ObjectMeta → EtcdSpec → Object
  stateful_set : ObjectMeta → WorkloadSpec → Object
  service : ObjectMeta → ServiceSpec → Object
  deployment : ObjectMeta → WorkloadSpec → Object
  config_map : ObjectMeta → Option (Dict String) → Object

abbrev pub meta_of : Object → ObjectMeta
meta_of (secret m d) = m
meta_of (etcd_cluster m s) = m
meta_of (stateful_set m s) = m
meta_of (service m s) = m
meta_of (deployment m s) = m
meta_of (config_map m d) = m
