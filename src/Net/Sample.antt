-- ===== src/Net/Sample.antt =====
-- An instance of `Stack`: a table of the devices' names, and a log of the registrations.
use Prim.Native.String.{String}
use text.Mathlib.Text.{◌==◌ as str_eq}
use driver_workflow.Prelude.{ℕ, refl, Bool, Option, none, some, List, [], ◌∷◌, ◌++◌, if◌then◌else◌}
use driver_workflow.Net.Stack.{Stack, Cidr, IpEndpoint}

pub record Named : Type 0 where
  pub name : String
  pub ipv4 : Option ℕ
  pub ipv6 : Option ℕ

pub record Table : Type 0 where
  pub devices : List String
  pub log : List (String × String)

abbrev find : String → List String → Option String
find n [] = none
find n (x ∷ xs) = let rest = find n xs in if str_eq x n then some x else rest

abbrev address_of : Option Cidr → Option ℕ
address_of none = none
address_of (some c) = some c.address

abbrev logged : Table → String → Named → Table
logged w n i = record w { log = w.log ++ ((n, i.name) ∷ []) }

-- Polling and broadcast leave no trace; receive callbacks do not either.
instance abbrev pub table_stack : Stack
table_stack = record {
  World = Table;
  Iface = Named;
  NetDevice = String;
  virtio_device_name = "virtio-net";
  get_device = λ w n. find n w.devices;
  mac_addr = λ w v. [];
  ip_iface = λ c c6 n f. record { name = n; ipv4 = some c.address; ipv6 = address_of c6 };
  ether_iface = λ v m c g n f. record { name = n; ipv4 = some c.address; ipv6 = none };
  name = λ i. i.name;
  ipv4_addr = λ i. i.ipv4;
  ipv6_addr = λ i. i.ipv6;
  register_recv_callback = λ w n i. w;
  register_send_callback = λ w n i. logged w n i;
  broadcast_init = λ w. w;
  poll_ifaces = λ w. w;
  BindPortConfig = IpEndpoint × Bool;
  bind_port_config = λ e r. (e, r);
  name-ip_iface = λ c c6 n f. refl;
  ipv4_addr-ip_iface = λ c c6 n f. refl;
  name-ether_iface = λ v m c g n f. refl;
  ipv4_addr-ether_iface = λ v m c g n f. refl;
}

-- A kernel with an r8169 and an e1000e device.
abbrev pub two_devices : Table
two_devices = record { devices = "e1000e-net" ∷ "r8169-net" ∷ []; log = [] }
