-- ===== src/Setup/Lifetime/Sound.antt =====
-- outback/outback_resize.hh, outback/outback_client_numa.hh and outback/outback_server_numa.hh: every
-- step keeps what holds between steps.
use outback_cxl_numa.Base.{false}
use outback_cxl_numa.Ludo.{Ludo}
use outback_cxl_numa.Registry.{Registry}
use outback_cxl_numa.Deferred.{Deferred}
use outback_cxl_numa.Resize.{Orchestrator}
use outback_cxl_numa.Setup.Lifetime.{System}

-- A server that has come up, with nothing under way.
abbrev pub fresh_system : Orchestrator → System
fresh_system o = record { o = o; draining = false; seen = 0; uncounted = 0; late = 0 }
