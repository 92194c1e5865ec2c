-- ===== src/Net/Socket/Tests.antt =====
-- Sockets on a kernel with an r8169 and an e1000e device, and the theorems about them.
use driver_workflow.Prelude.{ℕ, ◌≡◌, true, Option, none, some, if◌then◌else◌, ltb}
use driver_workflow.Net.Stack.{IpEndpoint, ipv4, ipv4_new}
use driver_workflow.Net.Sample.{table_stack, two_devices}
use driver_workflow.Net.Iface.{new_ifaces}
use driver_workflow.Net.Iface.Order.{first_some, ethers}
use driver_workflow.Net.Socket.{
  Errno, eaddrnotavail, eaddrinuse, get_ephemeral_endpoint, resolve_bind_iface_and_config,
}
use driver_workflow.Net.Socket.Bind.{
  local_address, holder, get_ephemeral_endpoint_ipv4, Resolved, resolve_bind_ipv4,
}

abbrev remote : IpEndpoint
remote = record { addr = ipv4 (ipv4_new 8 8 8 8); port = 53 }

get_ephemeral_endpoint_ipv4_example :
    get_ephemeral_endpoint (new_ifaces two_devices) remote
    ≡ some (
        some (record {
          addr = ipv4 (local_address (first_some (ethers two_devices)) (ipv4_new 8 8 8 8));
          port = 0;
        }))
get_ephemeral_endpoint_ipv4_example = get_ephemeral_endpoint_ipv4 two_devices (ipv4_new 8 8 8 8) 53

-- Ports below 1024 are refused.
abbrev low_ports : ℕ → Option Errno
low_ports port = if ltb port 1024 then some eaddrinuse else none

resolve_bind_ipv4_example :
    Resolved eaddrnotavail
      (table_stack.bind_port_config remote true)
      (low_ports 53)
      (holder two_devices (ipv4_new 8 8 8 8))
      (resolve_bind_iface_and_config low_ports (λ e. e) (new_ifaces two_devices) remote true)
resolve_bind_ipv4_example =
    resolve_bind_ipv4 low_ports (λ e. e) two_devices (ipv4_new 8 8 8 8) 53 true
