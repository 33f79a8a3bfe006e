-- ===== src/Config.antt =====
-- The configuration dictionaries that the managers read: a key that may be absent is an option. The
-- code never checks the types of the values, so a document that the schema
-- (python/ai_how/src/ai_how/schemas/cluster.schema.json) refuses for a type is outside the model,
-- but for the two shapes of `worker_nodes`.
pub mod Nodes
use ai_hyperscaler_on_workst.Common.{ℕ, Option, List, Bool, Text}
use ai_hyperscaler_on_workst.Common.Dict.{Dict}

pub record PcieDevice : Type 0 where
  pub pci_address : Option Text
  pub device_type : Option Text

pub record PcieConfig : Type 0 where
  pub enabled : Option Bool
  pub devices : Option (List PcieDevice)

pub record NodeConfig : Type 0 where
  pub cpu_cores : Option ℕ
  pub memory_gb : Option ℕ
  pub disk_gb : Option ℕ
  -- "ip_address" of controllers, "ip" of other nodes
  pub ip_address : Option Text
  pub ip : Option Text
  pub auto_start : Option Bool
  pub pcie_passthrough : Option PcieConfig

-- The schema and the cloud manager have a list of workers; the two validators of shared GPUs read a
-- dictionary of lists.
pub data Workers : Type 0 where
  listed : List NodeConfig → Workers
  keyed : Dict (List NodeConfig) → Workers

-- Under "network". `address` is the entry of "service_discovery".
pub record NetworkSettings : Type 0 where
  pub subnet : Option Text
  pub network_range : Option Text
  pub bridge : Option Text
  pub bridge_name : Option Text
  pub gateway_ip : Option Text
  pub dhcp_start : Option Text
  pub dhcp_end : Option Text
  pub dns_servers : Option (List Text)
  pub dns_mode : Option Text
  pub address : Option Text

pub record ClusterConfig : Type 0 where
  pub name : Option Text
  pub base_image_path : Option Text
  pub network : Option NetworkSettings
  pub controller : Option NodeConfig
  pub control_plane : Option NodeConfig
  pub compute_nodes : Option (List NodeConfig)
  pub worker_nodes : Option Workers

-- What Python raises on a dictionary that is not as the code expects.
pub data ConfigError : Type 0 where
  key_error attribute_error : ConfigError
