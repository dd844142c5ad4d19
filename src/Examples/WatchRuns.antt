-- ===== src/Examples/WatchRuns.antt =====
-- A run of handleWatch: internal/apiserver/server.go.
use k8s_lite.Prelude.{◌≡◌, refl, true, List, [], ◌∷◌, some}
use k8s_lite.Api.Objects.{pods, nodes}
use k8s_lite.Registry.{key_prefix}
use k8s_lite.Storage.Watchers.{Event, added, object}
use k8s_lite.Storage.Memory.{Store, contains}
use k8s_lite.ApiServer.Watching.{
  Turn, publish, receive, gone, WatchStream, watcher_of, turns, handle_watch,
}
use k8s_lite.ApiServer.Streams.{InOrder, handle_watch-InOrder}
use k8s_lite.Examples.World.{Text, pod, node, plain_json, store_of}

abbrev pod_added : Event Text
pod_added = record { type = added; object = object pods (pod "b") }

abbrev node_added : Event Text
node_added = record { type = added; object = object nodes node }

abbrev some_turns : List Turn
some_turns =
    publish "/registry/pods/b" pod_added
    ∷ publish "/registry/nodes/node-1" node_added
    ∷ receive true
    ∷ publish "/registry/pods/c" pod_added
    ∷ gone
    ∷ []

abbrev empty_store : Store
empty_store = store_of "" []

handle_watch-InOrder_example :
    (st : WatchStream) × (handle_watch pods true empty_store ≡ some st)
    × InOrder (key_prefix pods) (turns some_turns st)
unfolding watcher_of contains
handle_watch-InOrder_example = handle_watch-InOrder pods true empty_store some_turns refl refl
