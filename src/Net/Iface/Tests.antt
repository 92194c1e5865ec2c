-- ===== src/Net/Iface/Tests.antt =====
-- The interfaces on a kernel with an r8169 and an e1000e device, and the theorems about it.
use driver_workflow.Prelude.{◌≡◌, refl, none, some, [], ◌∷◌}
use driver_workflow.Net.Sample.{table_stack, two_devices}
use driver_workflow.Net.Iface.{
  new_loopback, new_virtio, new_r8169, new_e1000, new_e1000e, new_ifaces, register_all, register,
  r8169_device_name, e1000_device_name, e1000e_device_name, eth_iface, init,
}
use driver_workflow.Net.Iface.Order.{compact, first_some, ethers, eth_iface-first, init-registers}

eth_iface-first_example : eth_iface (new_ifaces two_devices) ≡ first_some (ethers two_devices)
eth_iface-first_example = eth_iface-first two_devices

init-registers_example : init (record { ifaces = none; world = two_devices }) ≡ record {
  ifaces = some (new_loopback ∷ compact (ethers two_devices));
  world = register e1000e_device_name (new_e1000e two_devices) (
      register e1000_device_name (new_e1000 two_devices) (
        register r8169_device_name
          (new_r8169 two_devices)
          (register table_stack.virtio_device_name (first_some (ethers two_devices)) two_devices)));
}
init-registers_example = init-registers two_devices

-- Without a virtio device its name goes with the r8169 interface.
registered :
    (init (record { ifaces = none; world = two_devices })).world.log
    ≡ ("virtio-net", "r8169") ∷ ("r8169-net", "r8169") ∷ ("e1000e-net", "e1000e") ∷ []
unfolding init register_all new_ifaces new_virtio new_r8169 new_e1000 new_e1000e
registered = refl
