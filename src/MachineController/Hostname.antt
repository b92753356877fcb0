-- ===== src/MachineController/Hostname.antt =====
-- The hostname of a server, and the name of its node, which are made of the machine's name.
use cluster_api_provider_bmc.Base.{◌≡◌}
use cluster_api_provider_bmc.Go.Hostname.{
  IsLabel, replace_separators-IsLabel, replace_separators-eq_of_IsLabel,
}
use cluster_api_provider_bmc.Outside.{Machine}
use cluster_api_provider_bmc.MachineController.State.{get_hostname}

-- The hostname holds no dot and no slash.
pub get_hostname-IsLabel : (machine : Machine) → IsLabel (get_hostname machine)
unfolding get_hostname
get_hostname-IsLabel machine = replace_separators-IsLabel machine.meta.name

-- A machine's name that is a label already is its hostname.
pub get_hostname-eq_of_IsLabel :
    (machine : Machine) → IsLabel machine.meta.name → get_hostname machine ≡ machine.meta.name
unfolding get_hostname
get_hostname-eq_of_IsLabel machine clean = replace_separators-eq_of_IsLabel machine.meta.name clean
