-- ===== src/Volume/Tests.antt =====
-- Runs of the volume manager.
use ai_hyperscaler_on_workst.Common.{◌≡◌, refl, true, false, codes, is_some}
use ai_hyperscaler_on_workst.Common.Ensures.{Ensures}
use ai_hyperscaler_on_workst.Problem.{volume_error}
use ai_hyperscaler_on_workst.Volume.{pool_name, base_volume_name, volume_name}
use ai_hyperscaler_on_workst.Volume.View.{has_volume, put_volume}
use ai_hyperscaler_on_workst.Volume.Pools.{create_cluster_pool, destroy_cluster_pool}
use ai_hyperscaler_on_workst.Volume.Pools.Create.{PoolCreated, PoolLeft}
use ai_hyperscaler_on_workst.Volume.Pools.Laws.{Destroyed, HalfDestroyed, cluster_pool-lem}
use ai_hyperscaler_on_workst.Volume.Vms.{create_vm_volume, destroy_vm_volume}
use ai_hyperscaler_on_workst.Volume.Vms.Create.{VolumeLeft}
use ai_hyperscaler_on_workst.Volume.Vms.Laws.{Deleted, vm_volume-lem}
use ai_hyperscaler_on_workst.Volume.Toy.{toy, toy_pools, toy_codes, bare, with_pool}

cluster_pool-lem_example :
    Ensures
      (PoolCreated toy_pools (pool_name (codes "c")) (base_volume_name (codes "c")) bare)
      (λ e h'. (e ≡ volume_error) × PoolLeft toy_pools (pool_name (codes "c")) bare h')
      (create_cluster_pool toy (codes "c") (codes "/p") (codes "/i"))
      bare
    × Ensures
        (Destroyed toy_pools (pool_name (codes "c")) bare)
        (λ e h'. (e ≡ volume_error) × HalfDestroyed toy_pools (pool_name (codes "c")) bare h')
        (destroy_cluster_pool toy (codes "c") true)
        bare
cluster_pool-lem_example =
    cluster_pool-lem toy_pools (codes "c") (codes "/p") (codes "/i") true bare

vm_volume-lem_example :
    Ensures
      (λ path h'.
        (is_some (with_pool (pool_name (codes "c"))) ≡ true)
        × (h' ≡ put_volume (pool_name (codes "c")) (volume_name (codes "v")) true with_pool))
      (λ e h'.
        (e ≡ volume_error)
        × VolumeLeft toy_pools (pool_name (codes "c")) (volume_name (codes "v")) with_pool h')
      (create_vm_volume toy (codes "c") (codes "v") 10)
      with_pool
    × Ensures
        (Deleted toy_codes (pool_name (codes "c")) (volume_name (codes "v")) with_pool)
        (λ e h'. (e ≡ volume_error) × (h' ≡ with_pool))
        (destroy_vm_volume toy (codes "c") (codes "v"))
        with_pool
vm_volume-lem_example = vm_volume-lem toy_pools toy_codes (codes "c") (codes "v") 10 with_pool

-- A pool that is there is taken as it is, without its base volume.
skips_base :
    (let h = (create_cluster_pool toy (codes "c") (codes "/p") (codes "/i") with_pool).1 in
      has_volume h (pool_name (codes "c")) (base_volume_name (codes "c")))
    ≡ false
unfolding create_cluster_pool
skips_base = refl
