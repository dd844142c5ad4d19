-- ===== src/Storage/Recovery.antt =====
-- What the file of internal/storage/memory.go promises: `sync` at the end of a call, `load` at the
-- start of a process.
use mathlib.Core.Path.{fun_ext}
use k8s_lite.Prelude.{
  String, ◌≡◌, refl, ◌∙◌, some, true, false, ret, arith, str_eq, lookup-insert, eq_refl,
}
use k8s_lite.Api.Objects.{Kind, Obj}
use k8s_lite.Api.Stored.{Json}
use k8s_lite.Storage.Watchers.{Event, notify_watchers}
use k8s_lite.Storage.Memory.{
  Store, ok, err, conflict, write_failed, create, update, delete, notify_and_sync, sync, load,
  new_memory_store,
}
use k8s_lite.Storage.Spec.{view, Op, creates, updates, deletes, spec, run}
use k8s_lite.Storage.Refinement.{run-refines-spec, table-notify_and_sync}

module _ ⦃json : Json⦄ where
  -- The file holds the map of the store.
  pub record IsSaved (s : Store) : Type 0 where
    pub text : json.Blob
    pub written : s.file.content ≡ some text
    pub encoded : json.marshal_map s.table ≡ some text
    pub readable : s.file.readable ≡ true

  sync_ok :
      (s : Store)
      → str_eq s.file_path "" ≡ false
      → (sync s).0 ≡ ok tt
      → (t : json.Blob) × (json.marshal_map s.table ≡ some t)
        × ((sync s).1 ≡ record s { file = record s.file { content = some t } })
  unfolding sync
  sync_ok s f h = ground arith

  sync-IsSaved :
      (s : Store)
      → str_eq s.file_path "" ≡ false
      → s.file.readable ≡ true
      → (sync s).0 ≡ ok tt
      → IsSaved (sync s).1
  sync-IsSaved s f r h =
      let (t, m, e) = sync_ok s f h in
      rw e (record { text = t; written = refl; encoded = m; readable = r })

  notify_and_sync_ok :
      (key : String) (e : Event json.Bytes) (s : Store)
      → (notify_and_sync key e s).0 ≡ ret (ok tt)
      → let s' : Store = record s { watchers = (notify_watchers e key s.watchers).1 } in
        ((sync s').0 ≡ ok tt) × ((notify_and_sync key e s).1 ≡ (sync s').1)
  unfolding notify_and_sync
  notify_and_sync_ok key e s h = ground arith

  notify_and_sync-IsSaved :
      (key : String) (e : Event json.Bytes) (s : Store)
      → str_eq s.file_path "" ≡ false
      → s.file.readable ≡ true
      → (notify_and_sync key e s).0 ≡ ret (ok tt)
      → IsSaved (notify_and_sync key e s).1
  notify_and_sync-IsSaved key e s f r h =
      let (o, q) = notify_and_sync_ok key e s h in rw q (sync-IsSaved _ f r o)

  run-IsSaved :
      (op : Op) (s : Store)
      → str_eq s.file_path "" ≡ false
      → s.file.readable ≡ true
      → (run op s).0 ≡ ret (ok tt)
      → IsSaved (run op s).1
  unfolding run create update delete
  run-IsSaved (creates key k obj) s f r h = grind (arith, notify_and_sync-IsSaved)
  run-IsSaved (updates key k obj) s f r h = grind (arith, notify_and_sync-IsSaved)
  run-IsSaved (deletes key) s f r h = grind (arith, notify_and_sync-IsSaved)

  load-IsSaved :
      (path : String) (s : Store)
      → str_eq path "" ≡ false
      → IsSaved s
      → view (new_memory_store path s.file) ≡ view s
  unfolding new_memory_store load
  load-IsSaved path s f v =
      let (m, e) = json.map_readable s.table v.text v.encoded in
      fun_ext λ j.
        ground (arith, v.written, v.readable, e, json.map_round_trip s.table m v.text j v.encoded e)

  -- After a call on a store with a readable file that returned no error, a new process that opens
  -- the file sees, at every key, what the contract says that the store holds after the call.
  pub view-new_memory_store-run :
      (op : Op) (s : Store)
      → str_eq s.file_path "" ≡ false
      → s.file.readable ≡ true
      → (run op s).0 ≡ ret (ok tt)
      → view (new_memory_store s.file_path (run op s).1.file) ≡ (spec op (view s)).1
  view-new_memory_store-run op s f r h =
      load-IsSaved s.file_path (run op s).1 f (run-IsSaved op s f r h) ∙ run-refines-spec op s

  -- A Create whose file could not be written has made the object all the same: it returns an error,
  -- and the same call again is a conflict that changes nothing.
  pub create_failed_write :
      (key : String) (k : Kind) (obj : Obj k) (s : Store)
      → (create key k obj s).0 ≡ ret (err write_failed)
      → create key k obj (create key k obj s).1 ≡ (ret (err conflict), (create key k obj s).1)
  unfolding create
  create_failed_write key k obj s h = grind (arith, table-notify_and_sync, lookup-insert, eq_refl)
