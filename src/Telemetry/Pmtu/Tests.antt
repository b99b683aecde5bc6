-- ===== src/Telemetry/Pmtu/Tests.antt =====
-- The discovery over a path that carries 1400 bytes.
use fecalia.Base.{ℕ, ◌+◌, ◌≡◌, refl, some, min, leb, if◌then◌else◌, arith}
use fecalia.Telemetry.Liveness.{up}
use fecalia.Telemetry.Pmtu.{
  Answer, echoed, silent, PmtuConfig, Discovery, new_discovery, search, search_loop,
  confirm_candidate, confirm_loop, tick_discovery,
}
use fecalia.Telemetry.Pmtu.Search.{search-reliable}
use fecalia.Telemetry.Pmtu.Machine.{IsValid, Ticked, new_discovery-IsValid, tick_discovery-IsValid}

-- The world counts the probes.
abbrev path : ℕ → ℕ → ℕ × Answer
path w n = (w + 1, if leb n 1400 then echoed else silent)

abbrev pmtu_config : PmtuConfig
pmtu_config = record {
  configured_mtu = 0;
  default_mtu = 1500;
  refresh_interval = 0;
  junk_headroom = 0;
  confirmations = 0;
  safety_margin = 10;
}

abbrev machine : Discovery
machine = new_discovery pmtu_config

search_returns : search path 3 1500 0 ≡ (36, some 1400)
unfolding search search_loop confirm_candidate confirm_loop
search_returns = refl

search-reliable_example : (search path 3 1500 0).1 ≡ some (min 1400 1500)
search-reliable_example =
    search-reliable path 1400 (λ w n. refl) 3 1500 0 (omega arith) (omega arith) (omega arith)

tick_discovery-IsValid_example :
    IsValid (tick_discovery path machine up 10 20 0).0
    × Ticked path machine up 20 0 (tick_discovery path machine up 10 20 0)
tick_discovery-IsValid_example =
    tick_discovery-IsValid path machine up 10 20 0 (new_discovery-IsValid pmtu_config)
