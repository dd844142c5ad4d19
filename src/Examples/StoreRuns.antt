-- ===== src/Examples/StoreRuns.antt =====
-- Runs of the store: internal/storage/memory.go.
use k8s_lite.Prelude.{refl, false, [], ◌∷◌, ret, ◌≡◌, lookup}
use k8s_lite.Api.Objects.{pods}
use k8s_lite.Storage.Watchers.{notify_watchers}
use k8s_lite.Storage.Memory.{create, sync, notify_and_sync, err, conflict, Store, new_memory_store}
use k8s_lite.Storage.Spec.{view, spec, run, Op, creates}
use k8s_lite.Storage.Refinement.{run-refines-spec}
use k8s_lite.Storage.Recovery.{view-new_memory_store-run, create_failed_write}
use k8s_lite.Examples.World.{encoded, pod, plain_json, plain_env, store_of, no_file}

abbrev one_pod : Store
one_pod = store_of "" (("/registry/pods/a", encoded pods (pod "a")) ∷ [])

abbrev add_b : Op
add_b = creates "/registry/pods/b" pods (pod "b")

run-refines-spec_example : view (run add_b one_pod).1 ≡ (spec add_b (view one_pod)).1
run-refines-spec_example = run-refines-spec add_b one_pod

view-new_memory_store-run_example :
    view (new_memory_store "data.json" (run add_b (store_of "data.json" [])).1.file)
    ≡ (spec add_b (view (store_of "data.json" []))).1
unfolding run create notify_and_sync notify_watchers sync lookup
view-new_memory_store-run_example =
    view-new_memory_store-run add_b (store_of "data.json" []) refl refl refl

-- Its file cannot be written.
abbrev stuck : Store
stuck = record (store_of "data.json" []) { file = record no_file { writable = false } }

create_failed_write_example :
    create "/registry/pods/b" pods (pod "b") (create "/registry/pods/b" pods (pod "b") stuck).1
    ≡ (ret (err conflict), (create "/registry/pods/b" pods (pod "b") stuck).1)
unfolding create notify_and_sync notify_watchers sync lookup
create_failed_write_example = create_failed_write "/registry/pods/b" pods (pod "b") stuck refl
