-- ===== src/Net/Iface/Order.antt =====
-- The interfaces after `init`: which one is taken for a device, and who polls it.
use Prim.Native.String.{String}
use text.Mathlib.Text.{◌==◌ as str_eq}
use driver_workflow.Prelude.{◌≡◌, refl, ◌∙◌, true, false, Option, none, some, List, [], ◌∷◌, arith}
use driver_workflow.Net.Stack.{Stack}
use driver_workflow.Net.Iface.{
  r8169_device_name, r8169_iface_name, e1000_device_name, e1000_iface_name, e1000e_device_name,
  e1000e_iface_name, or_else, push_some, get, find_name, virtio_iface, r8169_iface, e1000_iface,
  e1000e_iface, eth_iface, new_loopback, ether_of, new_virtio, new_r8169, new_e1000, new_e1000e,
  new_ifaces, register, register_all, init,
}

module _ {ℓ} {A : Type ℓ} where
  -- The values that are there, in order.
  abbrev pub compact : List (Option A) → List A
  compact [] = []
  compact (none ∷ os) = compact os
  compact (some a ∷ os) = a ∷ compact os

  abbrev pub first_some : List (Option A) → Option A
  first_some [] = none
  first_some (none ∷ os) = first_some os
  first_some (some a ∷ os) = some a

  get-compact : (os : List (Option A)) → get (compact os) 0 ≡ first_some os
  get-compact [] = refl
  get-compact (none ∷ os) = get-compact os
  get-compact (some a ∷ os) = refl

  push_some-compact :
      (a : A) (v r e f : Option A)
      → push_some (push_some (push_some (push_some (a ∷ []) v) r) e) f
        ≡ a ∷ compact (v ∷ r ∷ e ∷ f ∷ [])
  push_some-compact a v r e f = ground arith

module _ ⦃k : Stack⦄ where
  -- What a kernel has for its four kinds of Ethernet device, in the order of `init`.
  abbrev pub ethers : k.World → List (Option k.Iface)
  ethers w = new_virtio w ∷ new_r8169 w ∷ new_e1000 w ∷ new_e1000e w ∷ []

  pub new_ifaces-eq : (w : k.World) → new_ifaces w ≡ new_loopback ∷ compact (ethers w)
  unfolding new_ifaces
  new_ifaces-eq w =
      push_some-compact new_loopback (new_virtio w) (new_r8169 w) (new_e1000 w) (new_e1000e w)

  -- An interface that is there has the name.
  abbrev Named : String → Option k.Iface → Type 0
  Named m none = Unit
  Named m (some x) = k.name x ≡ m

  ether_of-Named : (w : k.World) (m : String) (o : Option k.NetDevice) → Named m (ether_of w m o)
  ether_of-Named w m none = tt
  ether_of-Named w m (some v) = k.name-ether_iface v _ _ _ _ _

  -- A search passes over an interface of another name, and ends at one of its own.
  find_name_skip :
      (n m : String) (o : Option k.Iface) (os : List (Option k.Iface))
      → Named m o
      → str_eq m n ≡ false
      → find_name n (compact (o ∷ os)) ≡ find_name n (compact os)
  find_name_skip n m none os named ne = refl
  find_name_skip n m (some x) os named ne = rw (named, ne) refl

  find_name_take :
      (n : String) (o : Option k.Iface) (os : List (Option k.Iface))
      → Named n o
      → str_eq n n ≡ true
      → find_name n (compact os) ≡ none
      → find_name n (compact (o ∷ os)) ≡ o
  find_name_take n none os named is rest = rest
  find_name_take n (some x) os named is rest = rw (named, is) refl

  new_virtio-Named : (w : k.World) → Named "eth0" (new_virtio w)
  unfolding new_virtio
  new_virtio-Named w = ether_of-Named w "eth0" (k.get_device w k.virtio_device_name)

  new_r8169-Named : (w : k.World) → Named r8169_iface_name (new_r8169 w)
  unfolding new_r8169
  new_r8169-Named w = ether_of-Named w r8169_iface_name (k.get_device w r8169_device_name)

  new_e1000-Named : (w : k.World) → Named e1000_iface_name (new_e1000 w)
  unfolding new_e1000
  new_e1000-Named w = ether_of-Named w e1000_iface_name (k.get_device w e1000_device_name)

  new_e1000e-Named : (w : k.World) → Named e1000e_iface_name (new_e1000e w)
  unfolding new_e1000e
  new_e1000e-Named w = ether_of-Named w e1000e_iface_name (k.get_device w e1000e_device_name)

  name-loopback : k.name new_loopback ≡ "lo"
  name-loopback = k.name-ip_iface _ _ _ _

  -- Past the loopback interface and virtio's.
  find_name_later :
      (w : k.World) (n : String)
      → str_eq "lo" n ≡ false
      → str_eq "eth0" n ≡ false
      → find_name n (new_ifaces w)
        ≡ find_name n (compact (new_r8169 w ∷ new_e1000 w ∷ new_e1000e w ∷ []))
  find_name_later w n lo eth0 =
      rw (new_ifaces-eq w, name-loopback, lo)
        (find_name_skip n "eth0" (new_virtio w) (new_r8169 w ∷ new_e1000 w ∷ new_e1000e w ∷ [])
          (new_virtio-Named w) eth0)

  r8169_iface-eq : (w : k.World) → r8169_iface (new_ifaces w) ≡ new_r8169 w
  r8169_iface-eq w =
      find_name_later w r8169_iface_name refl refl
      ∙ find_name_take r8169_iface_name (new_r8169 w) (new_e1000 w ∷ new_e1000e w ∷ [])
          (new_r8169-Named w) refl
          (find_name_skip r8169_iface_name e1000_iface_name (new_e1000 w) (new_e1000e w ∷ [])
              (new_e1000-Named w) refl
            ∙ find_name_skip r8169_iface_name e1000e_iface_name (new_e1000e w) []
                (new_e1000e-Named w) refl)

  e1000_iface-eq : (w : k.World) → e1000_iface (new_ifaces w) ≡ new_e1000 w
  e1000_iface-eq w =
      find_name_later w e1000_iface_name refl refl
      ∙ find_name_skip e1000_iface_name r8169_iface_name (new_r8169 w)
          (new_e1000 w ∷ new_e1000e w ∷ []) (new_r8169-Named w) refl
      ∙ find_name_take e1000_iface_name (new_e1000 w) (new_e1000e w ∷ []) (new_e1000-Named w) refl (
          find_name_skip e1000_iface_name e1000e_iface_name (new_e1000e w) [] (new_e1000e-Named w)
            refl)

  e1000e_iface-eq : (w : k.World) → e1000e_iface (new_ifaces w) ≡ new_e1000e w
  e1000e_iface-eq w =
      find_name_later w e1000e_iface_name refl refl
      ∙ find_name_skip e1000e_iface_name r8169_iface_name (new_r8169 w)
          (new_e1000 w ∷ new_e1000e w ∷ []) (new_r8169-Named w) refl
      ∙ find_name_skip e1000e_iface_name e1000_iface_name (new_e1000 w) (new_e1000e w ∷ [])
          (new_e1000-Named w) refl
      ∙ find_name_take e1000e_iface_name (new_e1000e w) [] (new_e1000e-Named w) refl refl

  virtio_iface-eq : (w : k.World) → virtio_iface (new_ifaces w) ≡ first_some (ethers w)
  virtio_iface-eq w = rw (new_ifaces-eq w) (get-compact (ethers w))

  first_or_else :
      (v r e f : Option k.Iface)
      → or_else (or_else (or_else (first_some (v ∷ r ∷ e ∷ f ∷ [])) r) e) f
        ≡ first_some (v ∷ r ∷ e ∷ f ∷ [])
  first_or_else v r e f = ground arith

  -- `eth_iface` gives the interface of the first Ethernet device that the kernel has, in the order
  -- virtio, r8169, e1000 and e1000e, and none if it has none of them.
  pub eth_iface-first : (w : k.World) → eth_iface (new_ifaces w) ≡ first_some (ethers w)
  unfolding eth_iface
  eth_iface-first w =
      rw (virtio_iface-eq w, r8169_iface-eq w, e1000_iface-eq w, e1000e_iface-eq w)
        (first_or_else (new_virtio w) (new_r8169 w) (new_e1000 w) (new_e1000e w))

  -- The first `init` of a kernel makes the loopback interface and then one for each device that it
  -- has, in the order virtio, r8169, e1000 and e1000e. It registers polling of its own interface for
  -- each of the last three that it has, and first, for virtio's name, polling of the first Ethernet
  -- interface, whether that is virtio's or not.
  pub init-registers :
      (w : k.World)
      → init (record { ifaces = none; world = w }) ≡ record {
        ifaces = some (new_loopback ∷ compact (ethers w));
        world = k.poll_ifaces (
            k.broadcast_init (
              register e1000e_device_name (new_e1000e w) (
                register e1000_device_name (new_e1000 w) (
                  register r8169_device_name
                    (new_r8169 w)
                    (register k.virtio_device_name (first_some (ethers w)) w)))));
      }
  unfolding init register_all
  init-registers w =
      rw (virtio_iface-eq w, r8169_iface-eq w, e1000_iface-eq w, e1000e_iface-eq w, new_ifaces-eq w)
        refl
