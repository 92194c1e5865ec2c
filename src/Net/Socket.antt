-- ===== src/Net/Socket.antt =====
-- kernel/src/net/socket/ip/common.rs: the interface and the address for a socket, on the vector of
-- interfaces. `none` is a panic of `loopback_iface` where the result is an interface or, once more
-- wrapped, an endpoint.
pub mod Bind
mod Tests
use driver_workflow.Prelude.{
  ℕ, Bool, true, false, ◌&&◌, Option, none, some, List, [], ◌∷◌, ◌==◌, if◌then◌else◌, ◌⊎◌, inl, inr,
}
use driver_workflow.Net.Stack.{Stack, IpAddress, ipv4, ipv6, IpEndpoint}
use driver_workflow.Net.Iface.{eth_iface, loopback_iface}

-- `Errno`, the codes that are used, and `BindError` of aster_bigtcp
pub data Errno : Type 0 where
  eaddrnotavail : Errno
  eagain : Errno
  eaddrinuse : Errno

pub data BindError : Type 0 where
  exhausted : BindError
  in_use : BindError

-- `From<BindError> for Error`
abbrev pub errno_of : BindError → Errno
errno_of exhausted = eagain
errno_of in_use = eaddrinuse

-- `is_some_and(|addr| addr == a)`, and `is_some`
abbrev pub is_addr : Option ℕ → ℕ → Bool
is_addr none a = false
is_addr (some b) a = b == a

abbrev pub is_some : Option ℕ → Bool
is_some none = false
is_some (some b) = true

module _ ⦃k : Stack⦄ where
  -- `find` on `ipv4_addr` and on `ipv6_addr`
  abbrev pub find_addr : (k.Iface → Option ℕ) → ℕ → List k.Iface → Option k.Iface
  find_addr addr_of a [] = none
  find_addr addr_of a (x ∷ xs) =
      let rest = find_addr addr_of a xs in if is_addr (addr_of x) a then some x else rest

  -- `get_iface_to_bind`
  unfoldable pub get_iface_to_bind : List k.Iface → IpAddress → Option k.Iface
  get_iface_to_bind ifaces (ipv4 a) = find_addr k.ipv4_addr a ifaces
  get_iface_to_bind ifaces (ipv6 a) = find_addr k.ipv6_addr a ifaces

  -- The default interfaces of `get_ephemeral_iface`.
  abbrev pub default_ipv4 : List k.Iface → Option k.Iface → Option k.Iface
  default_ipv4 ifaces none = loopback_iface ifaces
  default_ipv4 ifaces (some iface) = some iface

  abbrev pub default_ipv6 : List k.Iface → Option k.Iface → Option k.Iface
  default_ipv6 ifaces none = loopback_iface ifaces
  default_ipv6 ifaces (some iface) =
      if is_some (k.ipv6_addr iface) then some iface else loopback_iface ifaces

  abbrev pub found_or : Option k.Iface → Option k.Iface → Option k.Iface
  found_or none other = other
  found_or (some iface) other = some iface

  -- `get_ephemeral_iface`
  unfoldable pub get_ephemeral_iface : List k.Iface → IpAddress → Option k.Iface
  get_ephemeral_iface ifaces (ipv4 a) =
      found_or (find_addr k.ipv4_addr a ifaces) (default_ipv4 ifaces (eth_iface ifaces))
  get_ephemeral_iface ifaces (ipv6 a) =
      found_or (find_addr k.ipv6_addr a ifaces) (default_ipv6 ifaces (eth_iface ifaces))

  -- The end of `get_ephemeral_endpoint`, `?` included.
  abbrev pub endpoint_at : (ℕ → IpAddress) → Option ℕ → Option IpEndpoint
  endpoint_at version none = none
  endpoint_at version (some a) = some (record { addr = version a; port = 0 })

  abbrev pub endpoint_of : IpAddress → k.Iface → Option IpEndpoint
  endpoint_of (ipv4 a) iface = endpoint_at ipv4 (k.ipv4_addr iface)
  endpoint_of (ipv6 a) iface = endpoint_at ipv6 (k.ipv6_addr iface)

  abbrev pub endpoint_on : IpAddress → Option k.Iface → Option (Option IpEndpoint)
  endpoint_on remote none = none
  endpoint_on remote (some iface) = some (endpoint_of remote iface)

  -- `get_ephemeral_endpoint`
  unfoldable pub get_ephemeral_endpoint : List k.Iface → IpEndpoint → Option (Option IpEndpoint)
  get_ephemeral_endpoint ifaces remote =
      endpoint_on remote.addr (get_ephemeral_iface ifaces remote.addr)

  -- `check_port_privilege` of kernel/src/net/socket/util and `Error::with_message` are parameters.
  module _ {E : Type 0} (check_port_privilege : ℕ → Option E) (with_message : Errno → E) where
    abbrev pub bind_result :
        IpEndpoint → Bool → Option E → Option k.Iface → E ⊎ (k.Iface × k.BindPortConfig)
    bind_result endpoint can_reuse (some e) o = inl e
    bind_result endpoint can_reuse none none = inl (with_message eaddrnotavail)
    bind_result endpoint can_reuse none (some iface) =
        inr (iface, k.bind_port_config endpoint can_reuse)

    -- `resolve_bind_iface_and_config`
    unfoldable pub resolve_bind_iface_and_config :
        List k.Iface → IpEndpoint → Bool → E ⊎ (k.Iface × k.BindPortConfig)
    resolve_bind_iface_and_config ifaces endpoint can_reuse =
        bind_result endpoint can_reuse (check_port_privilege endpoint.port)
          (get_iface_to_bind ifaces endpoint.addr)
