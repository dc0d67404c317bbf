-- ===== src/Fvm/Tests.antt =====
-- The network on a path.
use fractalide.Prelude.{◌≡◌, String, Bool, if◌then◌else◌}
use fractalide.Result.{ok}
use fractalide.Scheduler.Exterior.Known
use fractalide.Scheduler.Exterior.Known.{Scheduler}
use fractalide.Agent.{this_agent}
use fractalide.Fvm.{boot}
use fractalide.Fvm.Boots.{Box, load, world, IsBooted, network_boots}

abbrev from_path : String → String
from_path path = path

abbrev from_bool : Bool → String
from_bool b = if b then "true" else "false"

network_boots_example :
    (s : Scheduler String (Box String)) × (boot
        (load String)
        from_path
        from_bool
        "/main"
        (Known.new 0 (world String))
      ≡ ok s)
    × IsBooted s "/main" "true"
network_boots_example = network_boots from_path from_bool 0 "/main"
