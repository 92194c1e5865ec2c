-- ===== src/Net/Socket/Bind.antt =====
-- The addresses that the sockets of a kernel get, once `init` has run.
use Prim.Native.String.{String}
use driver_workflow.Prelude.{
  ℕ, ◌≡◌, ◌⊎◌, inl, inr, refl, ◌∙◌, Bool, Option, none, some, List, [], ◌∷◌, arith, ◌==◌,
  if◌then◌else◌, Bool-cases,
}
use driver_workflow.Net.Stack.{Stack, ipv4, IpEndpoint}
use driver_workflow.Net.Iface.{
  r8169_device_name, r8169_iface_name, e1000_device_name, e1000_iface_name, e1000e_device_name,
  e1000e_iface_name, loopback_address, ether_address, new_loopback, ether_of, new_virtio, new_r8169,
  new_e1000, new_e1000e, new_ifaces,
}
use driver_workflow.Net.Iface.Order.{compact, first_some, ethers, new_ifaces-eq, eth_iface-first}
use driver_workflow.Net.Socket.{
  Errno, eaddrnotavail, find_addr, get_iface_to_bind, default_ipv4, found_or, get_ephemeral_iface,
  endpoint_on, get_ephemeral_endpoint, bind_result, resolve_bind_iface_and_config,
}

module _ ⦃k : Stack⦄ where
  -- An interface that is there has the address of the Ethernet devices.
  abbrev AtEther : Option k.Iface → Type 0
  AtEther none = Unit
  AtEther (some x) = k.ipv4_addr x ≡ some ether_address

  abbrev AllEther : List (Option k.Iface) → Type 0
  AllEther [] = Unit
  AllEther (o ∷ os) = AtEther o × AllEther os

  ether_of-AtEther : (w : k.World) (n : String) (o : Option k.NetDevice) → AtEther (ether_of w n o)
  ether_of-AtEther w n none = tt
  ether_of-AtEther w n (some v) = k.ipv4_addr-ether_iface v _ _ _ _ _

  ethers-AllEther : (w : k.World) → AllEther (ethers w)
  unfolding new_virtio new_r8169 new_e1000 new_e1000e
  ethers-AllEther w = (
    ether_of-AtEther w "eth0" (k.get_device w k.virtio_device_name),
    (
      ether_of-AtEther w r8169_iface_name (k.get_device w r8169_device_name),
      (
        ether_of-AtEther w e1000_iface_name (k.get_device w e1000_device_name),
        (ether_of-AtEther w e1000e_iface_name (k.get_device w e1000e_device_name), tt),
      ),
    ),
  )

  find_addr-AllEther :
      (a : ℕ) (os : List (Option k.Iface))
      → AllEther os
      → find_addr k.ipv4_addr a (compact os) ≡ (if ether_address == a then first_some os else none)
  find_addr-AllEther a [] h = ground arith
  find_addr-AllEther a (none ∷ os) (e, h) = find_addr-AllEther a os h
  find_addr-AllEther a (some x ∷ os) (e, h) = elim (Bool-cases (ether_address == a)) [
    | inl is ↦ rw (e, is) refl
    | inr ne ↦ rw (e, ne) (find_addr-AllEther a os h ∙ rw ne refl)
  ]

  -- The interface for an address: the loopback interface for its own, the first Ethernet interface
  -- for theirs.
  abbrev pub holder : k.World → ℕ → Option k.Iface
  holder w a =
      if loopback_address == a
      then some new_loopback
      else if ether_address == a
      then first_some (ethers w)
      else none

  find_addr-holder : (w : k.World) (a : ℕ) → find_addr k.ipv4_addr a (new_ifaces w) ≡ holder w a
  find_addr-holder w a =
      rw
        (
          new_ifaces-eq w,
          k.ipv4_addr-ip_iface _ _ _ _,
          find_addr-AllEther a (ethers w) (ethers-AllEther w),
        )
        refl

  first_some-AtEther : (os : List (Option k.Iface)) → AllEther os → AtEther (first_some os)
  first_some-AtEther [] h = tt
  first_some-AtEther (none ∷ os) (e, h) = first_some-AtEther os h
  first_some-AtEther (some x ∷ os) (e, h) = e

  -- The address that a socket is given for a remote address, with the first Ethernet interface.
  abbrev pub local_address : Option k.Iface → ℕ → ℕ
  local_address none a = loopback_address
  local_address (some iface) a = if loopback_address == a then loopback_address else ether_address

  endpoint_chosen :
      (o : Option k.Iface) (rest : List k.Iface) (a : ℕ)
      → AtEther o
      → endpoint_on (ipv4 a) (
          found_or
            (if loopback_address == a
              then some new_loopback
              else if ether_address == a
              then o
              else none)
            (default_ipv4 (new_loopback ∷ rest) o))
        ≡ some (some (record { addr = ipv4 (local_address o a); port = 0 }))
  endpoint_chosen none rest a at = elim (Bool-cases (loopback_address == a)) [
    | inl lo ↦ rw (lo, k.ipv4_addr-ip_iface _ _ _ _) refl
    | inr ne ↦ elim (Bool-cases (ether_address == a)) [
      | inl is ↦ rw (ne, is, k.ipv4_addr-ip_iface _ _ _ _) refl
      | inr other ↦ rw (ne, other, k.ipv4_addr-ip_iface _ _ _ _) refl
    ]
  ]
  endpoint_chosen (some x) rest a at = elim (Bool-cases (loopback_address == a)) [
    | inl lo ↦ rw (lo, k.ipv4_addr-ip_iface _ _ _ _) refl
    | inr ne ↦ elim (Bool-cases (ether_address == a)) [
      | inl is ↦ rw (ne, is, at) refl
      | inr other ↦ rw (ne, other, at) refl
    ]
  ]

  -- Once `init` has run, `get_ephemeral_endpoint` for an IPv4 address gives port 0 on the address of
  -- the loopback interface for that address itself and while there is no Ethernet device, and on that
  -- of the Ethernet devices for every other.
  pub get_ephemeral_endpoint_ipv4 :
      (w : k.World) (a port : ℕ)
      → get_ephemeral_endpoint (new_ifaces w) (record { addr = ipv4 a; port = port })
        ≡ some (some (record { addr = ipv4 (local_address (first_some (ethers w)) a); port = 0 }))
  unfolding get_ephemeral_endpoint get_ephemeral_iface
  get_ephemeral_endpoint_ipv4 w a port =
      rw (find_addr-holder w a, eth_iface-first w, new_ifaces-eq w)
        (endpoint_chosen (first_some (ethers w)) (compact (ethers w)) a
          (first_some-AtEther (ethers w) (ethers-AllEther w)))

  -- What `resolve_bind_iface_and_config` gives for a port's check and the holder of an address.
  pub data Resolved {E : Type 0} (no_address : E) (config : k.BindPortConfig)
      : Option E → Option k.Iface → E ⊎ (k.Iface × k.BindPortConfig) → Type 0 where
    refused : (e : E) (o : Option k.Iface) → Resolved no_address config (some e) o (inl e)
    unavailable : Resolved no_address config none none (inl no_address)
    resolved : (x : k.Iface) → Resolved no_address config none (some x) (inr (x, config))

  bind_result-Resolved :
      {E : Type 0} (check : ℕ → Option E) (message : Errno → E) (endpoint : IpEndpoint)
      (reuse : Bool) (c : Option E) (o : Option k.Iface)
      → Resolved
          (message eaddrnotavail)
          (k.bind_port_config endpoint reuse)
          c
          o
          (bind_result check message endpoint reuse c o)
  bind_result-Resolved check message endpoint reuse (some e) o = refused e o
  bind_result-Resolved check message endpoint reuse none none = unavailable
  bind_result-Resolved check message endpoint reuse none (some x) = resolved x

  -- Once `init` has run, binding to an IPv4 address fails with the error of the port's check, if it
  -- has one, and else with EADDRNOTAVAIL, unless the address is that of the loopback interface or,
  -- while there is an Ethernet device, theirs; it then gives the loopback interface or the first
  -- Ethernet interface.
  pub resolve_bind_ipv4 :
      {E : Type 0} (check : ℕ → Option E) (message : Errno → E) (w : k.World) (a port : ℕ)
      (reuse : Bool)
      → Resolved
          (message eaddrnotavail)
          (k.bind_port_config (record { addr = ipv4 a; port = port }) reuse)
          (check port)
          (holder w a)
          (resolve_bind_iface_and_config check message
            (new_ifaces w)
            (record { addr = ipv4 a; port = port })
            reuse)
  unfolding resolve_bind_iface_and_config get_iface_to_bind
  resolve_bind_ipv4 check message w a port reuse = rw (find_addr-holder w a) (
      bind_result-Resolved check message (record { addr = ipv4 a; port = port }) reuse (check port)
        (holder w a))
