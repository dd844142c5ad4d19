-- ===== src/Client/Applying.antt =====
-- What the creates and deletes of internal/client/client.go do on a healthy cluster.
use k8s_lite.Prelude.{
  suc, String, ◌≡◌, ◌≢◌, refl, ap, sym, Map, ◌∙◌, none, some, [], arith, ret, true, false, str_eq,
  false_of_not, eq_iff, lookup, insert, remove, map,
}
use k8s_lite.Api.Objects.{Kind, Obj, get_object_meta, pods}
use k8s_lite.Api.Stored.{Json, stored}
use k8s_lite.Registry.{key}
use k8s_lite.Storage.Memory
use k8s_lite.Storage.Watchers.{Event, added, deleted, object, generic, all_have_room, informed}
use k8s_lite.Storage.Refinement.{notify_and_sync_room}
use k8s_lite.ApiServer
use k8s_lite.ApiServer.{serve, post}
use k8s_lite.Cluster.{Env, Cluster, send}
use k8s_lite.Client.Methods.{success, create, create_reply, delete, delete_reply}
use k8s_lite.Client.Effects.{meta-stored}
use k8s_lite.Client.Progress.{IsHealthy, encoded}

module _ ⦃json : Json⦄ where
  -- A store with no file and no watcher, and another map.
  notify_and_sync_quiet :
      (i : String) (e : Event json.Bytes) (s : Memory.Store)
      → s.file_path ≡ ""
      → s.watchers ≡ []
      → Memory.notify_and_sync i e s ≡ (ret (Memory.ok tt), s)
  notify_and_sync_quiet i e s f v =
      let room : all_have_room i s.watchers ≡ true = rw v refl in
      let same : map (informed e i) s.watchers ≡ s.watchers = ap (map (informed e i)) v ∙ sym v in
      notify_and_sync_room i e s f room
      ∙ ap (λ ws. (ret (Memory.ok tt), record s { watchers = ws })) same

  store_creates :
      (i : String) (k : Kind) (obj : Obj k) (b : json.Bytes) (s : Memory.Store)
      → s.file_path ≡ ""
      → s.watchers ≡ []
      → json.marshal k obj ≡ some b
      → lookup i s.table ≡ none
      → Memory.create i k obj s ≡ (ret (Memory.ok tt), record s { table = insert i b s.table })
  unfolding Memory.create
  store_creates i k obj b s f v m n = ground (
    arith,
    notify_and_sync_quiet i (record { type = added; object = object k obj })
        (record s { table = insert i b s.table }) f v,
  )

  store_deletes :
      (i : String) (b : json.Bytes) (s : Memory.Store)
      → s.file_path ≡ ""
      → s.watchers ≡ []
      → lookup i s.table ≡ some b
      → Memory.delete i s ≡ (ret (Memory.ok tt), record s { table = remove i s.table })
  unfolding Memory.delete
  store_deletes i b s f v n = ground (
    arith,
    notify_and_sync_quiet i (record { type = deleted; object = generic b })
        (record s { table = remove i s.table }) f v,
  )

module _ ⦃json : Json⦄ ⦃env : Env json.Bytes⦄ where
  abbrev pub with_table : Map json.Bytes → Cluster → Cluster
  with_table m w = record w { store = record w.store { table = m }; clock = suc w.clock }

  -- A create of a name that is not taken succeeds, and the object is stored as JSON keeps it.
  pub create_applies :
      (k : Kind) (obj : Obj k) (w : Cluster)
      → IsHealthy w
      → (get_object_meta k obj).name ≢ ""
      → lookup (key k (get_object_meta k obj).name) w.store.table ≡ none
      → (b : json.Bytes) × (json.marshal k (stored k obj) ≡ some b)
        × (create k obj w ≡ (
          ret (success tt),
          with_table (insert (key k (get_object_meta k obj).name) b w.store.table) w,
        ))
  unfolding create create_reply send serve ApiServer.handle_create
  create_applies k obj w h q n =
      let (body, e) = encoded w h k obj in
      let (b, m) = encoded w h k (stored k obj) in
      let i = key k (get_object_meta k obj).name in
      let d : json.unmarshal k body ≡ some (stored k obj) = json.round_trip k obj body e in
      let t : str_eq (get_object_meta k obj).name "" ≡ false =
        false_of_not _ (λ x. q ((eq_iff _ _).0 x)) in
      let c = store_creates i k (stored k obj) b w.store h.no_file h.no_watcher m n in
      (b, m, ground (arith, e, h.reliable w.clock, d, meta-stored k obj, t, c))

  pub delete_applies :
      (name : String) (b : json.Bytes) (w : Cluster)
      → IsHealthy w
      → lookup (key pods name) w.store.table ≡ some b
      → delete pods name w ≡ (ret (success tt), with_table (remove (key pods name) w.store.table) w)
  unfolding delete delete_reply send serve ApiServer.handle_delete
  delete_applies name b w h n =
      let d = store_deletes (key pods name) b w.store h.no_file h.no_watcher n in
      ground (arith, h.reliable w.clock, d)

  pub with_table-IsHealthy :
      (m : Map json.Bytes) (w : Cluster) → IsHealthy w → IsHealthy (with_table m w)
  with_table-IsHealthy m w h = record {
    reliable = h.reliable;
    encodes = h.encodes;
    no_file = h.no_file;
    no_watcher = h.no_watcher;
  }
