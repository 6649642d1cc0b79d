-- ===== src/Machines.antt =====
-- The contents of PROGRAM and INSTANCE messages, as src/aleph/handlers/content/vm.py and
-- src/aleph/services/cost.py read them. Texts, enumerations that are only copied, and JSON are naturals.
use py_aleph.Prelude.{ℕ, Bool, Option, List}

-- What names a file: the item hash of a STORE message, or a tag if the latest revision is used.
pub record VolumeRef : Type 0 where
  pub ref : ℕ
  pub use_latest : Bool

pub record PersistentVolume : Type 0 where
  pub persistence : Option ℕ
  pub name : Option ℕ
  pub size_mib : ℕ
  pub parent : Option VolumeRef

-- The volumes, after their comment and their mount.
pub data Volume : Type 0 where
  immutable : Option ℕ → Option ℕ → VolumeRef → Volume
  ephemeral : Option ℕ → Option ℕ → ℕ → Volume
  persistent : Option ℕ → Option ℕ → PersistentVolume → Volume

pub record TrustedExecution : Type 0 where
  pub policy : ℕ
  pub firmware : Option ℕ

pub record Environment : Type 0 where
  pub reproducible : Bool
  pub internet : Bool
  pub aleph_api : Bool
  pub shared_cache : Bool
  pub trusted_execution : Option TrustedExecution

pub record Resources : Type 0 where
  pub vcpus : ℕ
  pub memory : ℕ
  pub seconds : ℕ

pub record CpuRequirements : Type 0 where
  pub architecture : Option ℕ
  pub vendor : Option ℕ

pub record NodeRequirements : Type 0 where
  pub owner : Option ℕ
  pub address_regex : Option ℕ
  pub node_hash : Option ℕ

pub record Requirements : Type 0 where
  pub cpu : Option CpuRequirements
  pub node : Option NodeRequirements

pub data PaymentType : Type 0 where
  hold superfluid : PaymentType

pub record Payment : Type 0 where
  pub type : Option PaymentType
  pub is_stream : Bool

pub record Code : Type 0 where
  pub encoding : ℕ
  pub entrypoint : ℕ
  pub volume : VolumeRef

pub record Runtime : Type 0 where
  pub volume : VolumeRef
  pub comment : ℕ

pub record Data : Type 0 where
  pub encoding : ℕ
  pub mount : ℕ
  pub volume : VolumeRef

pub record Program : Type 0 where
  pub type : ℕ
  pub is_persistent : Bool
  pub http : Bool
  pub message : Option ℕ
  pub code : Code
  pub runtime : Runtime
  pub data_volume : Option Data
  pub export_encoding : Option ℕ

pub record Rootfs : Type 0 where
  pub parent : VolumeRef
  pub persistence : ℕ
  pub size_mib : ℕ

pub record Instance : Type 0 where
  pub rootfs : Rootfs
  pub authorized_keys : Option ℕ

pub data VmKind : Type 0 where
  program_content : Program → VmKind
  instance_content : Instance → VmKind

pub record VmContent : Type 0 where
  pub address : ℕ
  pub time : ℕ
  pub allow_amend : Bool
  pub metadata : Option ℕ
  pub variables : Option ℕ
  pub volumes : List Volume
  pub environment : Environment
  pub resources : Resources
  pub requirements : Option Requirements
  pub payment : Option Payment
  pub replaces : Option ℕ
  pub kind : VmKind
