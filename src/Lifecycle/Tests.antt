-- ===== src/Lifecycle/Tests.antt =====
-- Runs of the wait loops.
use ai_hyperscaler_on_workst.Common.{◌≡◌, codes, arith, true}
use ai_hyperscaler_on_workst.Libvirt.Toy.{toy, toy-Forward, client_at}
use ai_hyperscaler_on_workst.Lifecycle.{wait_for_vm_boot, wait_for_vm_shutdown}
use ai_hyperscaler_on_workst.Lifecycle.Wait.{boot_with_rounds, shutdown_with_rounds, wait_loops_end}

wait_loops_end_example :
    (wait_for_vm_boot toy (codes "a") 4 (client_at 5 true)
      ≡ boot_with_rounds toy 100 (codes "a") 4 (client_at 5 true))
    × (wait_for_vm_shutdown toy (codes "a") 4 (client_at 5 true)
        ≡ shutdown_with_rounds toy 100 (codes "a") 4 (client_at 5 true))
wait_loops_end_example =
    wait_loops_end toy toy-Forward (codes "a") 4 100 (client_at 5 true) (omega arith)
