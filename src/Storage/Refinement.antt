-- ===== src/Storage/Refinement.antt =====
-- internal/storage/memory.go against the contract of internal/storage/interface.go.
use mathlib.Core.Path.{fun_ext}
use k8s_lite.Prelude.{
  String, ◌≡◌, ◌≢◌, refl, ap, ◌∙◌, List, [], ◌∷◌, true, ret, arith, lookup-insert, lookup-remove,
  eq_iff, map,
}
use k8s_lite.Api.Stored.{Json}
use k8s_lite.Storage.Watchers.{Event, all_have_room, informed, notify_watchers_room}
use k8s_lite.Storage.Memory.{
  Store, ok, err, StoreError, conflict, not_found, create, update, delete, notify_and_sync, sync,
}
use k8s_lite.Storage.Spec.{view, Op, creates, updates, deletes, spec, run, spec_all, run_all}

module _ ⦃json : Json⦄ where
  -- Sending events and writing the file leave the map alone.
  pub table-notify_and_sync :
      (key : String) (e : Event json.Bytes) (s : Store)
      → (notify_and_sync key e s).1.table ≡ s.table
  unfolding notify_and_sync
  table-notify_and_sync key e s = ground arith

  -- The errors of the contract are not those of the file.
  pub notify_and_sync_error :
      (key : String) (e : Event json.Bytes) (s : Store)
      → ((notify_and_sync key e s).0 ≢ ret (err conflict))
        × ((notify_and_sync key e s).0 ≢ ret (err not_found))
  unfolding notify_and_sync sync
  notify_and_sync_error key e s = ground arith

  -- With no file and with room at every watcher of the key, all that changes is what they hold.
  pub notify_and_sync_room :
      (key : String) (e : Event json.Bytes) (s : Store)
      → s.file_path ≡ ""
      → all_have_room key s.watchers ≡ true
      → notify_and_sync key e s
        ≡ (ret (ok tt), record s { watchers = map (informed e key) s.watchers })
  unfolding notify_and_sync sync
  notify_and_sync_room key e s f h =
      ground (arith, notify_watchers_room e key s.watchers, eq_iff s.file_path "")

  -- Whatever the file and the watchers do, a call changes the map as the contract says, and one
  -- that the contract refuses changes it not at all.
  pub run-refines-spec : (op : Op) (s : Store) → view (run op s).1 ≡ (spec op (view s)).1
  unfolding run spec create update delete
  run-refines-spec (creates key k obj) s =
      fun_ext λ j. grind (arith, table-notify_and_sync, lookup-insert)
  run-refines-spec (updates key k obj) s =
      fun_ext λ j. grind (arith, table-notify_and_sync, lookup-insert)
  run-refines-spec (deletes key) s =
      fun_ext λ j. grind (arith, table-notify_and_sync, lookup-remove)

  -- Any calls one after another change the map as the contract says, whatever the file and the
  -- watchers do. (A call that waits for a watcher has changed the map by then.)
  pub run_all-refines-spec_all :
      (ops : List Op) (s : Store) → view (run_all ops s) ≡ spec_all ops (view s)
  unfolding run_all spec_all
  run_all-refines-spec_all [] s = refl
  run_all-refines-spec_all (op ∷ ops) s =
      run_all-refines-spec_all ops (run op s).1 ∙ ap (spec_all ops) (run-refines-spec op s)

  -- A call that the contract refuses returns its error, and changes no part of the store: no
  -- watcher hears of it and the file is not written.
  pub run_refused :
      (op : Op) (s : Store) (e : StoreError)
      → (spec op (view s)).0 ≡ err e
      → run op s ≡ (ret (err e), s)
  unfolding run spec create update delete
  run_refused (creates key k obj) s e h = ground arith
  run_refused (updates key k obj) s e h = ground arith
  run_refused (deletes key) s e h = ground arith

  abbrev pub key_of : Op → String
  key_of (creates key k obj) = key
  key_of (updates key k obj) = key
  key_of (deletes key) = key

  -- For a store with no file, a call for which all watchers of the key have room returns what the
  -- contract returns.
  pub run_reply :
      (op : Op) (s : Store)
      → s.file_path ≡ ""
      → all_have_room (key_of op) s.watchers ≡ true
      → (run op s).0 ≡ ret (spec op (view s)).0
  unfolding run spec create update delete
  run_reply (creates key k obj) s f h = grind (arith, notify_and_sync_room)
  run_reply (updates key k obj) s f h = grind (arith, notify_and_sync_room)
  run_reply (deletes key) s f h = grind (arith, notify_and_sync_room)
