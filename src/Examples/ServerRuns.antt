-- ===== src/Examples/ServerRuns.antt =====
-- Runs of the server: internal/apiserver/server.go.
use mathlib.Core.List.Perm
use mathlib.Core.List.{Perm, filter_map}
use k8s_lite.Prelude.{refl, List, [], ◌∷◌, ret, ◌≡◌, lookup, Map}
use k8s_lite.Api.Pods.{Pod}
use k8s_lite.Api.Objects.{pods, nodes, get_object_meta}
use k8s_lite.Api.Stored.{stored}
use k8s_lite.Registry.{key, key_prefix}
use k8s_lite.Storage.Watchers.{notify_watchers}
use k8s_lite.Storage.Memory.{create, update, sync, notify_and_sync, Store}
use k8s_lite.Storage.Listing.{entry_object}
use k8s_lite.ApiServer.{
  Request, get_list, post, get, put, serve, handle_create, handle_update, render_json, object,
  objects,
}
use k8s_lite.ApiServer.Replies.{get-put}
use k8s_lite.ApiServer.WellFormed.{IsRegistry, serve-IsRegistry, serve_all, serve_all-get_list}
use k8s_lite.Examples.World.{Text, encoded, pod, node, plain_json, plain_env, store_of}

abbrev one_pod : Store
one_pod = store_of "" (("/registry/pods/a", encoded pods (pod "a")) ∷ [])

get-put_example :
    let s : Store = (serve (λ m. m) (put pods "a" (encoded pods (pod "a"))) one_pod).1 in
    serve (λ m. m) (get pods "a") s
    ≡ (ret (render_json 200 (object pods (stored pods (stored pods (pod "a"))))), s)
unfolding serve handle_update update notify_and_sync notify_watchers sync lookup key get_object_meta
    stored
get-put_example =
    get-put (λ m. m) pods "a" (encoded pods (pod "a")) (stored pods (pod "a")) one_pod
      (render_json 200 (object pods (stored pods (pod "a")))) refl refl refl

one_pod-IsRegistry : IsRegistry one_pod.table
unfolding key lookup
one_pod-IsRegistry = record { typed = ((pods, "a", refl, λ e. cc), tt); unique = (refl, tt) }

serve-IsRegistry_example :
    IsRegistry (serve (λ m. m) (post pods (encoded pods (pod "b"))) one_pod).1.table
serve-IsRegistry_example =
    serve-IsRegistry (λ m. m) (post pods (encoded pods (pod "b"))) one_pod one_pod-IsRegistry

-- Two requests to a server that has just started.
abbrev two_requests : List ((Map Text → Map Text) × Request Text)
two_requests =
    ((λ m. m), post pods (encoded pods (pod "b")))
    ∷ ((λ m. m), post nodes (encoded nodes node))
    ∷ []

serve_all-get_list_example :
    let s : Store = (serve_all two_requests (store_of "" [])).1 in
    (os : List Pod) × ((serve (λ m. m) (get_list pods) s).0
      ≡ ret (render_json 200 (objects pods os)))
    × Perm os (filter_map (entry_object (key_prefix pods) pods) s.table)
unfolding serve_all serve handle_create create notify_and_sync notify_watchers sync lookup key
    get_object_meta stored k8s_lite.Prelude.insert
serve_all-get_list_example =
    serve_all-get_list two_requests (λ m. m) pods (store_of "" [])
      (serve_all two_requests (store_of "" [])).1 refl refl (Perm.refl _)
