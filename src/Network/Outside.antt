-- ===== src/Network/Outside.antt =====
-- What the network manager calls: libvirt's networks, the files of dnsmasq, and its service.
use ai_hyperscaler_on_workst.Common.{ℕ, Option, List, Bool, Text}
use ai_hyperscaler_on_workst.Problem.{Act}
use ai_hyperscaler_on_workst.Network.Plan.{Plan}

-- The `ip` element of the XML of a network, with the range of its `dhcp` element.
pub record IpElement : Type 0 where
  pub address : Text
  pub netmask : Text
  pub range : Option (Text × Text)

-- What the XML of a network says; a forwarder may have no address.
pub record Description : Type 0 where
  pub bridge : Option Text
  pub ip : Option IpElement
  pub forwarders : List (Option Text)
  pub uuid : Text

-- A lease that libvirt reports: a key may be missing.
pub record Lease : Type 0 where
  pub ip : Option Text
  pub mac : Option Text
  pub hostname : Option Text
  pub client_id : Option Text
  pub expiry_time : Option ℕ

pub data Restart : Type 0 where
  systemctl service : Restart

-- A call that raises leaves the state that it made. A network object is the name under which it was
-- looked up.
pub record Outside (Host : Type 0) : Type 0 where
  -- `get_connection`
  pub connect : Act Host Unit
  pub lookup : Text → Act Host Unit
  pub is_active : Text → Act Host Bool
  -- `networkDefineXML` of the rendered template
  pub define : (name : Text) → Plan → Act Host Unit
  pub create : Text → Act Host Unit
  pub set_autostart : Text → Act Host Unit
  pub destroy : Text → Act Host Unit
  pub undefine : Text → Act Host Unit
  -- the parsed `XMLDesc`, and `DHCPLeases`; `none` is an `AttributeError`
  pub describe : Text → Act Host Description
  pub dhcp_leases : Text → Act Host (Option (List Lease))
  -- `os.geteuid() == 0`
  pub is_root : Host → Bool
  pub exists : Text → Host → Bool
  -- writing a file with its directory and its permissions
  pub write : (path content : Text) → Act Host Unit
  pub copy : (source target : Text) → Act Host Unit
  pub remove : Text → Act Host Unit
  pub restart : Restart → Act Host Bool
