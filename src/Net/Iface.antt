-- ===== src/Net/Iface.antt =====
-- kernel/src/net/iface/init.rs: the interfaces of the kernel, and who polls them. A function that
-- reads `IFACES` takes the vector that it holds; before `init` has run, `unwrap` panics. The four
-- functions that make an Ethernet interface differ in the two names alone.
pub mod Order
mod Tests
use Prim.Native.String.{String}
use text.Mathlib.Text.{◌==◌ as str_eq}
use driver_workflow.Prelude.{
  ℕ, zero, suc, Bool, Option, none, some, List, [], ◌∷◌, ◌++◌, if◌then◌else◌,
}
use driver_workflow.Net.Stack.{
  Stack, Cidr, Flag, up, loopback, broadcast, running, multicast, lower_up, ipv4_new,
}

abbrev pub r8169_device_name : String
r8169_device_name = "r8169-net"

abbrev pub r8169_iface_name : String
r8169_iface_name = "r8169"

-- `DEVICE_NAME` of aster_e1000 and of aster_e1000e
abbrev pub e1000_device_name : String
e1000_device_name = "e1000-net"

abbrev pub e1000_iface_name : String
e1000_iface_name = "e1000"

abbrev pub e1000e_device_name : String
e1000e_device_name = "e1000e-net"

abbrev pub e1000e_iface_name : String
e1000e_iface_name = "e1000e"

abbrev pub loopback_address : ℕ
loopback_address = ipv4_new 127 0 0 1

-- `VIRTIO_ADDRESS`, which is also the address of the other three, and the gateway.
abbrev pub ether_address : ℕ
ether_address = ipv4_new 10 0 2 15

abbrev pub ether_gateway : ℕ
ether_gateway = ipv4_new 10 0 2 2

abbrev pub or_else {ℓ} : {A : Type ℓ} → Option A → Option A → Option A
or_else none b = b
or_else (some a) b = some a

abbrev pub push_some {ℓ} : {A : Type ℓ} → List A → Option A → List A
push_some xs none = xs
push_some xs (some x) = xs ++ (x ∷ [])

-- `get`, `none` out of range
abbrev pub get {ℓ} : {A : Type ℓ} → List A → ℕ → Option A
get [] i = none
get (x ∷ xs) zero = some x
get (x ∷ xs) (suc i) = get xs i

module _ ⦃k : Stack⦄ where
  -- `find` for an interface of a name
  abbrev pub find_name : String → List k.Iface → Option k.Iface
  find_name n [] = none
  find_name n (x ∷ xs) = let rest = find_name n xs in if str_eq (k.name x) n then some x else rest

  -- `loopback_iface`, whose index panics on an empty vector, and `virtio_iface`
  abbrev pub loopback_iface : List k.Iface → Option k.Iface
  loopback_iface ifaces = get ifaces 0

  abbrev pub virtio_iface : List k.Iface → Option k.Iface
  virtio_iface ifaces = get ifaces 1

  -- `r8169_iface`, `e1000_iface` and `e1000e_iface`
  abbrev pub r8169_iface : List k.Iface → Option k.Iface
  r8169_iface ifaces = find_name r8169_iface_name ifaces

  abbrev pub e1000_iface : List k.Iface → Option k.Iface
  e1000_iface ifaces = find_name e1000_iface_name ifaces

  abbrev pub e1000e_iface : List k.Iface → Option k.Iface
  e1000e_iface ifaces = find_name e1000e_iface_name ifaces

  -- `eth_iface`
  unfoldable pub eth_iface : List k.Iface → Option k.Iface
  eth_iface ifaces =
      or_else (or_else (or_else (virtio_iface ifaces) (r8169_iface ifaces)) (e1000_iface ifaces))
        (e1000e_iface ifaces)

  -- `new_loopback`
  abbrev pub new_loopback : k.Iface
  new_loopback =
      k.ip_iface (record { address = loopback_address; prefix_len = 8 })
        (some (record { address = 1; prefix_len = 128 })) "lo"
        (up ∷ loopback ∷ running ∷ lower_up ∷ [])

  -- The interface of a device; `?` returns where there is none.
  abbrev pub ether_of : k.World → String → Option k.NetDevice → Option k.Iface
  ether_of w iface_name none = none
  ether_of w iface_name (some net) = some (
      k.ether_iface net (k.mac_addr w net) (record { address = ether_address; prefix_len = 24 })
        ether_gateway iface_name (up ∷ broadcast ∷ running ∷ multicast ∷ lower_up ∷ []))

  -- `new_virtio`, `new_r8169`, `new_e1000` and `new_e1000e`
  unfoldable pub new_virtio : k.World → Option k.Iface
  new_virtio w = ether_of w "eth0" (k.get_device w k.virtio_device_name)

  unfoldable pub new_r8169 : k.World → Option k.Iface
  new_r8169 w = ether_of w r8169_iface_name (k.get_device w r8169_device_name)

  unfoldable pub new_e1000 : k.World → Option k.Iface
  new_e1000 w = ether_of w e1000_iface_name (k.get_device w e1000_device_name)

  unfoldable pub new_e1000e : k.World → Option k.Iface
  new_e1000e w = ether_of w e1000e_iface_name (k.get_device w e1000e_device_name)

  -- The vector that `init` makes.
  unfoldable pub new_ifaces : k.World → List k.Iface
  new_ifaces w =
      let lo = new_loopback ∷ [] in
      let ifaces1 = push_some lo (new_virtio w) in
      let ifaces2 = push_some ifaces1 (new_r8169 w) in
      let ifaces3 = push_some ifaces2 (new_e1000 w) in push_some ifaces3 (new_e1000e w)

  -- The two callbacks of a device poll an interface.
  abbrev pub register : String → Option k.Iface → k.World → k.World
  register device_name none w = w
  register device_name (some iface) w =
      k.register_send_callback (k.register_recv_callback w device_name iface) device_name iface

  unfoldable pub register_all : List k.Iface → k.World → k.World
  register_all ifaces w =
      let w1 = register k.virtio_device_name (virtio_iface ifaces) w in
      let w2 = register r8169_device_name (r8169_iface ifaces) w1 in
      let w3 = register e1000_device_name (e1000_iface ifaces) w2 in
      register e1000e_device_name (e1000e_iface ifaces) w3

  -- `IFACES` and the world; `call_once` makes the vector the first time alone.
  pub record Kernel : Type 0 where
    pub ifaces : Option (List k.Iface)
    pub world : k.World

  abbrev pub call_once : Option (List k.Iface) → List k.Iface → List k.Iface
  call_once none made = made
  call_once (some old) made = old

  -- `init`
  unfoldable pub init : Kernel → Kernel
  init s =
      let ifaces = call_once s.ifaces (new_ifaces s.world) in
      record {
        ifaces = some ifaces;
        world = k.poll_ifaces (k.broadcast_init (register_all ifaces s.world));
      }
