-- ===== src/Costs.antt =====
-- src/aleph/services/cost.py and src/aleph/types/cost.py: what a program or an instance costs. Decimal
-- is a parameter, with the operations that the code uses.
pub mod Units
use py_aleph.Prelude.{
  ℕ, ◌+◌, ◌-◌, ◌*◌, ◌/◌, Bool, true, false, not, ◌&&◌, ◌||◌, Option, none, some, List, [], ◌∷◌,
  ◌++◌, leb, if◌then◌else◌, bind, is_none, coalesce,
}
use py_aleph.Status.{Error}
use py_aleph.Result.{Result, ok, raise, ◌>>=◌, ◌>>◌}
use py_aleph.Machines.{
  VolumeRef, PersistentVolume, Volume, immutable, ephemeral, persistent, Environment, Resources,
  Program, Instance, program_content, instance_content, VmKind, VmContent, Data,
}
use py_aleph.Files.{FileTables, StoredFile, FilePin, FileTag, get_file_tag, get_message_file_pin}

-- `ProductPriceType`.
pub data ProductPriceType : Type 0 where
  storage_price web3_hosting program_price program_persistent instance_price instance_gpu_premium
        instance_confidential instance_gpu_standard :
      ProductPriceType

-- `ProductPriceOptions` and `ProductComputeUnit`.
pub record PriceOptions (D : Type 0) : Type 0 where
  pub holding : D
  pub payg : D

pub record ComputeUnit : Type 0 where
  pub vcpus : ℕ
  pub disk_mib : ℕ
  pub memory_mib : ℕ

-- `ProductPricing`, with `ProductPrice`.
pub record ProductPricing (D : Type 0) : Type 0 where
  pub type : ProductPriceType
  pub storage : PriceOptions D
  pub compute_unit_price : PriceOptions D
  pub compute_unit : Option ComputeUnit

-- The entry of a product type in the content of the pricing aggregate; a price that is missing, empty or
-- the number 0 is `none`.
pub record PriceEntry (D : Type 0) : Type 0 where
  pub storage_holding : Option D
  pub storage_payg : Option D
  pub compute_unit_holding : Option D
  pub compute_unit_payg : Option D
  pub compute_unit : Option ComputeUnit

-- Decimal, and the pricing aggregate, if there is one.
pub record CostEnv (D : Type 0) : Type 0 where
  pub of_nat : ℕ → D
  pub plus : D → D → D
  pub times : D → D → D
  pub over : D → D → D
  pub less : D → D → Bool
  pub entry : ProductPriceType → Option (PriceEntry D)

abbrev pub mib : ℕ
mib = 1024 * 1024

abbrev pub hour : ℕ
hour = 60 * 60

-- `_is_on_demand`.
abbrev pub is_on_demand : VmKind → Bool
is_on_demand (program_content p) = not p.is_persistent
is_on_demand (instance_content i) = false

-- `_is_confidential_vm`: only the environment of an instance has a trusted execution.
abbrev pub is_instance : VmKind → Bool
is_instance (program_content p) = false
is_instance (instance_content i) = true

abbrev pub is_confidential_vm : VmContent → Bool
is_confidential_vm content =
    not (is_on_demand content.kind)
    && (is_instance content.kind && not (is_none content.environment.trusted_execution))

unfoldable pub get_product_price_type : VmContent → ProductPriceType
get_product_price_type content =
    if is_on_demand content.kind
    then program_price
    else if is_confidential_vm content
    then instance_confidential
    else instance_price

-- `_get_file_from_ref`.
abbrev pub file_of_tag : Option FileTag → FileTables → Option StoredFile
file_of_tag none t = none
file_of_tag (some tag) t = t.files tag.file_hash

abbrev pub file_of_pin : Option FilePin → FileTables → Option StoredFile
file_of_pin none t = none
file_of_pin (some pin) t = t.files pin.file_hash

unfoldable pub get_file_from_ref : VolumeRef → FileTables → Option StoredFile
get_file_from_ref v t =
    if v.use_latest
    then file_of_tag (get_file_tag v.ref t) t
    else file_of_pin (get_message_file_pin v.ref t) t

-- `_get_nb_compute_units`, with `math.ceil(memory / 2048)`.
unfoldable pub get_nb_compute_units : Resources → ℕ
get_nb_compute_units r =
    let memory = (r.memory + 2047) / 2048 in if leb memory r.vcpus then r.vcpus else memory

-- `_get_compute_unit_multiplier`.
unfoldable pub get_compute_unit_multiplier : VmContent → ℕ
get_compute_unit_multiplier content =
    if is_on_demand content.kind && content.environment.internet then 2 else 1

-- The two lists of `get_volume_size`: the volumes that refer to files, and the sizes of the others.
abbrev pub data_refs : Option Data → List VolumeRef
data_refs none = []
data_refs (some d) = d.volume ∷ []

abbrev pub immutable_refs : List Volume → List VolumeRef
immutable_refs [] = []
immutable_refs (immutable comment mount ref ∷ volumes) = ref ∷ immutable_refs volumes
immutable_refs (ephemeral comment mount size ∷ volumes) = immutable_refs volumes
immutable_refs (persistent comment mount v ∷ volumes) = immutable_refs volumes

abbrev pub sizes : List Volume → ℕ
sizes [] = 0
sizes (immutable comment mount ref ∷ volumes) = sizes volumes
sizes (ephemeral comment mount size ∷ volumes) = size * mib + sizes volumes
sizes (persistent comment mount v ∷ volumes) = v.size_mib * mib + sizes volumes

abbrev pub ref_volumes : VmKind → List VolumeRef
ref_volumes (program_content p) = p.code.volume ∷ p.runtime.volume ∷ data_refs p.data_volume
ref_volumes (instance_content i) = []

abbrev pub rootfs_size : VmKind → ℕ
rootfs_size (program_content p) = 0
rootfs_size (instance_content i) = i.rootfs.size_mib * mib

-- A reference without a file is a RuntimeError.
abbrev pub size_of_file : Option StoredFile → Result ℕ
size_of_file none = raise Error.other
size_of_file (some f) = ok f.size

unfoldable pub sum_of_refs : List VolumeRef → FileTables → Result ℕ
sum_of_refs [] t = ok 0
sum_of_refs (v ∷ refs) t =
    size_of_file (get_file_from_ref v t) >>= λ n. sum_of_refs refs t >>= λ rest. ok (n + rest)

unfoldable pub get_volume_size : VmContent → FileTables → Result ℕ
get_volume_size content t =
    sum_of_refs (ref_volumes content.kind ++ immutable_refs content.volumes) t >>= λ total.
    ok (total + (rootfs_size content.kind + sizes content.volumes))

abbrev pub disk_of : Option ComputeUnit → ℕ
disk_of none = 0
disk_of (some u) = u.disk_mib

module _ {D : Type 0} (env : CostEnv D) where
  -- `PRICE_MAX_PRICE`, the price of an option that the entry leaves out.
  abbrev pub max_price : D
  max_price = env.of_nat 18446744073709551615

  -- `ProductPricing.from_aggregate`; a missing aggregate or entry is an exception.
  abbrev pub from_entry : ProductPriceType → Option (PriceEntry D) → Result (ProductPricing D)
  from_entry type none = raise Error.other
  from_entry type (some e) = ok (record {
    type = type;
    storage = record {
      holding = coalesce e.storage_holding max_price;
      payg = coalesce e.storage_payg max_price;
    };
    compute_unit_price = record {
      holding = coalesce e.compute_unit_holding max_price;
      payg = coalesce e.compute_unit_payg max_price;
    };
    compute_unit = e.compute_unit;
  })

  unfoldable pub get_product_price : VmContent → Result (ProductPricing D)
  get_product_price content =
      let type = get_product_price_type content in from_entry type (env.entry type)

  -- `get_additional_storage_bytes`: `max(total - free, 0)`.
  unfoldable pub get_additional_storage_bytes : VmContent → ProductPricing D → FileTables → Result ℕ
  get_additional_storage_bytes content pricing t = get_volume_size content t >>= λ total.
      ok (total - disk_of pricing.compute_unit * mib * get_nb_compute_units content.resources)

  -- `get_additional_storage_price`.
  unfoldable pub get_additional_storage_price : VmContent → ProductPricing D → FileTables → Result D
  get_additional_storage_price content pricing t =
      get_additional_storage_bytes content pricing t >>= λ bytes.
      ok (env.times (env.over (env.of_nat bytes) (env.of_nat mib)) pricing.storage.holding)

  -- `_get_additional_storage_flow_price`.
  unfoldable pub get_additional_storage_flow_price :
      VmContent → ProductPricing D → FileTables → Result D
  get_additional_storage_flow_price content pricing t =
      get_additional_storage_bytes content pricing t >>= λ bytes. ok (
        env.times (env.over (env.of_nat bytes) (env.of_nat mib))
          (env.over pricing.storage.payg (env.of_nat hour)))

  abbrev pub units_of : VmContent → ℕ
  units_of content = get_nb_compute_units content.resources * get_compute_unit_multiplier content

  -- `compute_cost`.
  unfoldable pub compute_cost : VmContent → FileTables → Result D
  compute_cost content t = do
    pricing ← get_product_price content
    additional ← get_additional_storage_price content pricing t
    ok (
        env.plus (env.times (env.of_nat (units_of content)) pricing.compute_unit_price.holding)
          additional)

  -- `compute_flow_cost`.
  unfoldable pub compute_flow_cost : VmContent → FileTables → Result D
  compute_flow_cost content t = do
    pricing ← get_product_price content
    additional ← get_additional_storage_flow_price content pricing t
    ok (
        env.plus
          (env.times (env.of_nat (units_of content))
            (env.over pricing.compute_unit_price.payg (env.of_nat hour)))
          additional)
