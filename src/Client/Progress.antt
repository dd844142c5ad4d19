-- ===== src/Client/Progress.antt =====
-- Calls of internal/client/client.go that succeed: the network loses nothing, the store writes no
-- file and has no watcher, and every object can be encoded.
use k8s_lite.Prelude.{
  ℕ, String, ◌≡◌, ◌≢◌, refl, none, some, [], arith, ret, true, Option-cases, inl, inr, lookup, map,
}
use k8s_lite.Api.Objects.{Kind, Obj, get_object_meta}
use k8s_lite.Api.Stored.{Json, stored}
use k8s_lite.Registry.{key}
use k8s_lite.Storage.Memory
use k8s_lite.Storage.Watchers.{all_have_room}
use k8s_lite.Storage.Refinement.{notify_and_sync_room}
use k8s_lite.ApiServer
use k8s_lite.ApiServer.{Request, Response, serve, post, put}
use k8s_lite.Cluster.{Env, Cluster, send, fine}
use k8s_lite.Client.Methods.{success, wire, get, update, update_reply, get_reply}
use k8s_lite.Client.Effects.{Holds, store-get, store-update}

module _ ⦃json : Json⦄ ⦃env : Env json.Bytes⦄ where
  pub record IsHealthy (w : Cluster) : Type 0 where
    pub reliable : (n : ℕ) → env.fault n ≡ fine
    pub encodes : (k : Kind) (o : Obj k) → json.marshal k o ≢ none
    pub no_file : w.store.file_path ≡ ""
    pub no_watcher : w.store.watchers ≡ []

  pub encoded :
      (w : Cluster)
      → IsHealthy w
      → (k : Kind) (o : Obj k) → (b : json.Bytes) × (json.marshal k o ≡ some b)
  encoded w h k o = elim (Option-cases (json.marshal k o)) [
    | inl e ↦ absurd (h.encodes k o e)
    | inr r ↦ r
  ]

  pub update_writes :
      (i : String) (k : Kind) (obj : Obj k) (s : Memory.Store) (old b : json.Bytes)
      → s.file_path ≡ ""
      → s.watchers ≡ []
      → lookup i s.table ≡ some old
      → json.marshal k obj ≡ some b
      → (Memory.update i k obj s).0 ≡ ret (Memory.ok tt)
  unfolding Memory.update
  update_writes i k obj s old b f v l m =
      let room : all_have_room i s.watchers ≡ true = rw v refl in
      grind (arith, notify_and_sync_room)

  pub update_missing :
      (i : String) (k : Kind) (obj : Obj k) (s : Memory.Store)
      → lookup i s.table ≡ none
      → (Memory.update i k obj s).0 ≡ ret (Memory.err Memory.not_found)
  unfolding Memory.update
  update_missing i k obj s n = ground (arith, n)

  -- An update of a name that exists succeeds.
  pub update_succeeds :
      (k : Kind) (obj old : Obj k) (w : Cluster)
      → IsHealthy w
      → Holds k (get_object_meta k obj).name old w
      → (update k obj w).0 ≡ ret (success tt)
  unfolding update update_reply send serve ApiServer.handle_update
  update_succeeds k obj old w h o =
      let (body, e) = encoded w h k obj in
      let (b, m) = encoded w h k (stored k obj) in
      let d : json.unmarshal k body ≡ some (stored k obj) = json.round_trip k obj body e in
      let u : (Memory.update (key k (get_object_meta k obj).name) k (stored k obj) w.store).0
          ≡ ret (Memory.ok tt) =
        update_writes _ k (stored k obj) w.store o.bytes b h.no_file h.no_watcher o.there m in
      ground (arith, h.reliable w.clock, e, d, u)

  -- A GET of a name that exists gives its object.
  pub get_succeeds :
      (k : Kind) (name : String) (o : Obj k) (w : Cluster)
      → IsHealthy w
      → Holds k name o w
      → (get k name w).0 ≡ ret (success (some (stored k o)))
  unfolding get get_reply wire send serve ApiServer.handle_get Memory.get
  get_succeeds k name o w h g =
      let (b, m) = encoded w h k o in
      ground (arith, h.reliable w.clock, g.there, g.decodes, m, json.round_trip k o b m)

  pub get-IsHealthy :
      (k : Kind) (name : String) (w : Cluster) → IsHealthy w → IsHealthy (get k name w).1
  get-IsHealthy k name w h = record {
    reliable = h.reliable;
    encodes = h.encodes;
    no_file = rw (store-get k name w) h.no_file;
    no_watcher = rw (store-get k name w) h.no_watcher;
  }

  update_quiet :
      (i : String) (k : Kind) (obj : Obj k) (s : Memory.Store)
      → s.file_path ≡ ""
      → s.watchers ≡ []
      → ((Memory.update i k obj s).1.file_path ≡ "") × ((Memory.update i k obj s).1.watchers ≡ [])
  unfolding Memory.update
  update_quiet i k obj s f v =
      let room : all_have_room i s.watchers ≡ true = rw v refl in
      grind (arith, notify_and_sync_room, map)

  pub handle_update_quiet :
      (k : Kind) (name : String) (body : json.Bytes) (s : Memory.Store)
      → s.file_path ≡ ""
      → s.watchers ≡ []
      → ((ApiServer.handle_update k name body s).1.file_path ≡ "")
        × ((ApiServer.handle_update k name body s).1.watchers ≡ [])
  unfolding ApiServer.handle_update
  handle_update_quiet k name body s f v = grind (arith, update_quiet)

  quiet :
      (k : Kind) (obj : Obj k) (w : Cluster)
      → IsHealthy w
      → ((update k obj w).1.store.file_path ≡ "") × ((update k obj w).1.store.watchers ≡ [])
  unfolding serve
  quiet k obj w h = elim (store-update k obj w) [
    | inl e ↦ rw e (h.no_file, h.no_watcher)
    | inr (body, m, e) ↦
        rw e
          (handle_update_quiet k (get_object_meta k obj).name body w.store h.no_file h.no_watcher)
  ]

  pub update-IsHealthy :
      (k : Kind) (obj : Obj k) (w : Cluster) → IsHealthy w → IsHealthy (update k obj w).1
  update-IsHealthy k obj w h = record {
    reliable = h.reliable;
    encodes = h.encodes;
    no_file = (quiet k obj w h).0;
    no_watcher = (quiet k obj w h).1;
  }
