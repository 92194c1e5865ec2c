-- ===== src/Net/Stack.antt =====
-- What kernel/src/net uses of aster_bigtcp and aster_network, which are not in the repository:
-- interfaces and their constructors, the table of network devices and its callbacks, and the parts of
-- kernel/src/net/iface that are not there. Addresses are numbers, and a text is a `String`.
use Prim.Native.String.{String}
use driver_workflow.Prelude.{ℕ, ◌+◌, ◌*◌, ◌≡◌, Bool, Option, some, List}

-- `InterfaceFlags`, those that are set.
pub data Flag : Type 0 where
  up : Flag
  loopback : Flag
  broadcast : Flag
  running : Flag
  multicast : Flag
  lower_up : Flag

-- An address with the length of its prefix, `Ipv4Cidr` or `Ipv6Cidr`.
pub record Cidr : Type 0 where
  pub address : ℕ
  pub prefix_len : ℕ

-- `Ipv4Address::new`
abbrev pub ipv4_new : ℕ → ℕ → ℕ → ℕ → ℕ
ipv4_new a b c d = ((a * 256 + b) * 256 + c) * 256 + d

pub data IpAddress : Type 0 where
  ipv4 : ℕ → IpAddress
  ipv6 : ℕ → IpAddress

pub record IpEndpoint : Type 0 where
  pub addr : IpAddress
  pub port : ℕ

pub record Stack : Type 1 where
  -- The table of devices, with the callbacks, and what else the calls below change.
  pub World : Type 0
  pub Iface : Type 0
  pub NetDevice : Type 0
  -- `aster_virtio::device::network::DEVICE_NAME`
  pub virtio_device_name : String
  pub get_device : World → String → Option NetDevice
  pub mac_addr : World → NetDevice → List ℕ
  -- `IpIface::new` on a loopback device, and `EtherIface::new`
  pub ip_iface : Cidr → Option Cidr → String → List Flag → Iface
  pub ether_iface : NetDevice → List ℕ → Cidr → ℕ → String → List Flag → Iface
  pub name : Iface → String
  pub ipv4_addr : Iface → Option ℕ
  pub ipv6_addr : Iface → Option ℕ
  -- `register_recv_callback` and `register_send_callback`, with a callback that polls an interface
  pub register_recv_callback : World → String → Iface → World
  pub register_send_callback : World → String → Iface → World
  -- `broadcast::init` and `poll_ifaces`
  pub broadcast_init : World → World
  pub poll_ifaces : World → World
  -- `BindPortConfig::new`
  pub BindPortConfig : Type 0
  pub bind_port_config : IpEndpoint → Bool → BindPortConfig
  -- An interface has the name and the addresses that it is made with.
  pub name-ip_iface :
      (c : Cidr) (c6 : Option Cidr) (n : String) (f : List Flag) → name (ip_iface c c6 n f) ≡ n
  pub ipv4_addr-ip_iface :
      (c : Cidr) (c6 : Option Cidr) (n : String) (f : List Flag)
      → ipv4_addr (ip_iface c c6 n f) ≡ some c.address
  pub name-ether_iface :
      (v : NetDevice) (m : List ℕ) (c : Cidr) (g : ℕ) (n : String) (f : List Flag)
      → name (ether_iface v m c g n f) ≡ n
  pub ipv4_addr-ether_iface :
      (v : NetDevice) (m : List ℕ) (c : Cidr) (g : ℕ) (n : String) (f : List Flag)
      → ipv4_addr (ether_iface v m c g n f) ≡ some c.address
