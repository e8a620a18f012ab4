-- ===== src/Tests/Resizes.antt =====
-- The resize, one handler after the other, on a small orchestrator.
use outback_cxl_numa.Base.{ℕ, List, ◌↔◌, ◌≡◌, refl, ap, arith, true, false, some, [], ◌∷◌}
use outback_cxl_numa.Registry.{
  normal, pre_resize, copying, ready_to_switch, drain_old, gc_pending, create_shared_numa_region,
}
use outback_cxl_numa.Resize.{Orchestrator, set_state, fill, max_index, effective_lanes}
use outback_cxl_numa.Resize.Copy.{do_copy}
use outback_cxl_numa.Resize.Monitor.{
  check_state, check_case, maybe_trigger_pre_resize, wait_for_acks_or_timeout, writers_remain,
  maybe_gc, gc_elapsed, gc_start, gc_waiting,
}
use outback_cxl_numa.Resize.Machine.{Settled, check_state_legal}
use outback_cxl_numa.Resize.Switch.{IsSwitched, do_copy_switches, do_copy_overwrites}
use outback_cxl_numa.Resize.Acks.Ends.{IsObserved, IsOver, wait_ends_iff}
use outback_cxl_numa.Resize.Clients.{
  IsCensus, count_active, register, deregister, calls, calls-IsCensus,
}
use outback_cxl_numa.Resize.Signal.{Unchanged, check_state_signals}
use outback_cxl_numa.Setup.Lifetime.{System, Reached}
use outback_cxl_numa.Setup.Lifetime.Stranded.{IsStranded, late_insert_strands}
use outback_cxl_numa.Tests.{
  test_ludo, test_registry, test_env, all_calls, test_orchestrator, no_deferred,
}

normal-Settled : Settled (test_orchestrator normal)
normal-Settled = (record { path = tt; here = refl; flag = refl }, λ h. cc h)

check_state_legal_example : Settled (set_state pre_resize (test_orchestrator normal))
unfolding check_state check_case maybe_trigger_pre_resize fill max_index effective_lanes
check_state_legal_example =
    check_state_legal test_ludo (test_env all_calls) (test_orchestrator normal) normal-Settled refl

abbrev collecting : Orchestrator
collecting = record (test_orchestrator gc_pending) {
  trace = gc_pending ∷ drain_old ∷ ready_to_switch ∷ copying ∷ pre_resize ∷ [];
  gc_start_time = 60_500;
}

collecting-Settled : Settled collecting
collecting-Settled = (
  record { path = (refl, (refl, (refl, (refl, (refl, tt))))); here = refl; flag = refl },
  λ h. cc h,
)

abbrev draining : Orchestrator
draining = record (test_orchestrator drain_old) {
  blocked = true;
  deferred = record no_deferred {
    inserts = record { key = 5; value = 50; enqueue_ts_ns = 1 } ∷ [];
    insert_count = 1;
  };
}

abbrev full_orchestrator : Orchestrator
full_orchestrator = test_orchestrator pre_resize

do_copy_switches_example :
    IsSwitched
      (test_env all_calls)
      1
      full_orchestrator
      (do_copy (test_env all_calls) 1 full_orchestrator)
unfolding create_shared_numa_region
do_copy_switches_example =
    do_copy_switches (test_env all_calls) 1 full_orchestrator (omega arith) refl

do_copy_overwrites_example :
    ((do_copy (test_env all_calls) 1 full_orchestrator).region.packed.raw_array 3).key ≡ 77
unfolding create_shared_numa_region
do_copy_overwrites_example =
    ap (λ e. e.key)
      (do_copy_overwrites (test_env all_calls) 1 full_orchestrator refl 3 (omega arith)).0

wait_ends_iff_example :
    (zs : List ℕ) × (start : ℕ) × IsObserved
      (test_env all_calls)
      (test_orchestrator ready_to_switch)
      zs
      start
    × (((wait_for_acks_or_timeout
            (test_env all_calls)
            (test_orchestrator ready_to_switch)).reg.resize_state
          ≡ drain_old)
        ↔ IsOver (test_env all_calls) (test_orchestrator ready_to_switch) zs start)
    × (¬ IsOver (test_env all_calls) (test_orchestrator ready_to_switch) zs start
        → ((wait_for_acks_or_timeout
              (test_env all_calls)
              (test_orchestrator ready_to_switch)).reg.resize_state
            ≡ ready_to_switch)
          × ((wait_for_acks_or_timeout
                (test_env all_calls)
                (test_orchestrator ready_to_switch)).ack_wait_start
              ≡ start))
wait_ends_iff_example = wait_ends_iff (test_env all_calls) (test_orchestrator ready_to_switch) refl

no_clients-IsCensus : IsCensus (test_registry normal)
unfolding count_active
no_clients-IsCensus = record { flags = λ i. omega arith; counted = refl }

calls-IsCensus_example :
    IsCensus (calls (test_registry normal) (register 1 ∷ register 2 ∷ deregister (some 0) ∷ []))
calls-IsCensus_example =
    calls-IsCensus (register 1 ∷ register 2 ∷ deregister (some 0) ∷ []) (test_registry normal)
      no_clients-IsCensus

abbrev collectable : Orchestrator
collectable = record collecting {
  gc_start_time = 10;
  pending_old_ver = 1;
  pending_old_size = 8192;
  pending_old_fd = some 3;
}

check_state_signals_example : Unchanged collecting (gc_waiting (test_env all_calls) collecting)
unfolding check_state check_case maybe_gc gc_elapsed gc_start gc_waiting
check_state_signals_example =
    check_state_signals test_ludo (test_env all_calls) collecting refl refl

abbrev draining_system : System
draining_system = record { o = draining; draining = false; seen = 0; uncounted = 0; late = 0 }

late_insert_strands_example :
    (s' : System) × Reached test_ludo draining_system s' × IsStranded 2 7 70 s'
unfolding writers_remain
late_insert_strands_example =
    late_insert_strands test_ludo (test_env all_calls) draining_system 2 7 70 refl refl refl refl
      (omega arith, omega arith)
