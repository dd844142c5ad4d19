-- ===== src/Storage/Memory.antt =====
-- internal/storage/memory.go: MemoryStore. JSON is a parameter, the file is what the store last
-- wrote, and the order in which `range` walks the map is an argument of `list`.
use k8s_lite.Prelude.{
  ℕ, suc, String, Bool, true, false, Option, none, some, List, [], ◌∷◌, ◌++◌, Map, lookup, insert,
  remove, if◌then◌else◌, str_eq, starts_with, ◌==◌, Flow, ret, blocked, panicked, Exec,
}
use k8s_lite.Api.Objects.{Kind, Obj}
use k8s_lite.Api.Stored.{Json}
use k8s_lite.Storage.Watchers.{
  EventType, added, modified, deleted, object, generic, Event, MemoryWatcher, notify_watchers,
}

-- ErrNotFound, ErrConflict, and the errors of encoding/json and of os.
pub data StoreError : Type 0 where
  not_found conflict marshal_failed unmarshal_failed read_failed write_failed : StoreError

-- A Go call that may return an error.
pub data Try {ℓ} (A : Type ℓ) : Type ℓ where
  ok : A → Try A
  err : StoreError → Try A

-- The file at `filePath`: `none` while there is none.
pub record File (Blob : Type 0) : Type 0 where
  pub content : Option Blob
  pub readable : Bool
  pub writable : Bool
  -- what a failed WriteFile leaves in the file
  pub torn : Option Blob

pub record MemoryStore (Bytes Blob : Type 0) : Type 0 where
  pub table : Map Bytes
  pub watchers : List (MemoryWatcher Bytes)
  pub file_path : String
  pub file : File Blob
  pub next_id : ℕ
  pub closed : List ℕ

module _ ⦃json : Json⦄ where
  abbrev pub Store : Type 0
  Store = MemoryStore json.Bytes json.Blob

  -- `json.Unmarshal(data, &s.data)`; after an error the map stays as it was.
  decode_table : Store → Option json.Blob → Try (Unit {0}) × Store
  decode_table s none = (ok tt, s)
  decode_table s (some text) = elim (json.unmarshal_map text) [
    | none ↦ (err unmarshal_failed, s)
    | some m ↦ (ok tt, record s { table = m })
  ]

  unfoldable pub load : Store → Try (Unit {0}) × Store
  unfolding decode_table
  load s = if s.file.readable then decode_table s s.file.content else (err read_failed, s)

  -- An error of `load` is only logged.
  unfoldable pub new_memory_store : String → File json.Blob → Store
  unfolding load
  new_memory_store file_path file =
      let store : Store = record {
        table = [];
        watchers = [];
        file_path = file_path;
        file = file;
        next_id = 0;
        closed = [];
      } in
      if str_eq file_path "" then store else (load store).1

  write_file : Store → Option json.Blob → Try (Unit {0}) × Store
  write_file s none = (err marshal_failed, s)
  write_file s (some text) =
      if s.file.writable
      then (ok tt, record s { file = record s.file { content = some text } })
      else (err write_failed, record s { file = record s.file { content = s.file.torn } })

  unfoldable pub sync : Store → Try (Unit {0}) × Store
  unfolding write_file
  sync s = if str_eq s.file_path "" then (ok tt, s) else write_file s (json.marshal_map s.table)

  finish : Flow (Unit {0}) → Store → Flow (Try (Unit {0})) × Store
  unfolding sync
  finish (ret _) s = (ret (sync s).0, (sync s).1)
  finish blocked s = (blocked, s)
  finish panicked s = (panicked, s)

  -- `s.notifyWatchers(…); return s.sync()`
  unfoldable pub notify_and_sync : String → Event json.Bytes → Exec Store (Try (Unit {0}))
  unfolding finish
  notify_and_sync key e s =
      let (r, ws) = notify_watchers e key s.watchers in finish r (record s { watchers = ws })

  -- Create and Update differ in the test on the key and in the event.
  write : (k : Kind) → EventType → String → Obj k → Option json.Bytes → Exec Store (Try (Unit {0}))
  write k type key obj none s = (ret (err marshal_failed), s)
  write k type key obj (some bytes) s =
      notify_and_sync key (record { type = type; object = object k obj })
        (record s { table = insert key bytes s.table })

  unfoldable pub create : String → (k : Kind) → Obj k → Exec Store (Try (Unit {0}))
  unfolding write
  create key k obj s = elim (lookup key s.table) [
    | some _ ↦ (ret (err conflict), s)
    | none ↦ write k added key obj (json.marshal k obj) s
  ]

  unfoldable pub update : String → (k : Kind) → Obj k → Exec Store (Try (Unit {0}))
  unfolding write
  update key k obj s = elim (lookup key s.table) [
    | none ↦ (ret (err not_found), s)
    | some _ ↦ write k modified key obj (json.marshal k obj) s
  ]

  unfoldable pub decode : (k : Kind) → Option json.Bytes → Try (Obj k)
  decode k none = err unmarshal_failed
  decode k (some bytes) = elim (json.unmarshal k bytes) [
    | none ↦ err unmarshal_failed
    | some o ↦ ok o
  ]

  unfoldable pub get : String → (k : Kind) → Store → Try (Obj k)
  unfolding decode
  get key k s = elim (lookup key s.table) [
    | none ↦ err not_found
    | some bytes ↦ decode k (some bytes)
  ]

  unfoldable pub delete : String → Exec Store (Try (Unit {0}))
  delete key s = elim (lookup key s.table) [
    | none ↦ (ret (err not_found), s)
    | some bytes ↦
        notify_and_sync key (record { type = deleted; object = generic bytes })
          (record s { table = remove key s.table })
  ]

  cons_ok : (k : Kind) → Obj k → Try (List (Obj k)) → Try (List (Obj k))
  cons_ok k o (ok os) = ok (o ∷ os)
  cons_ok k o (err e) = err e

  -- The loop of List over the entries that `range` yields; the first error ends it.
  unfoldable pub list_entries :
      String → (k : Kind) → List (String × json.Bytes) → Try (List (Obj k))
  unfolding cons_ok
  list_entries prefix k [] = ok []
  list_entries prefix k ((j, v) ∷ m) =
      let rest = list_entries prefix k m in
      if starts_with j prefix
      then elim (json.unmarshal k v) [ none ↦ err unmarshal_failed | some o ↦ cons_ok k o rest ]
      else rest

  -- `order` is the order in which this call's `range` walks the map.
  unfoldable pub list :
      (List (String × json.Bytes) → List (String × json.Bytes))
      → String
      → (k : Kind) → Store
      → Try (List (Obj k))
  unfolding list_entries
  list order prefix k s = list_entries prefix k (order s.table)

  -- The watcher's address is the result.
  unfoldable pub watch : String → Exec Store (Try ℕ)
  watch prefix s = (
    ret (ok s.next_id),
    record s {
      watchers =
          s.watchers ++ record { id = s.next_id; key_prefix = prefix; result_chan = [] } ∷ [];
      next_id = suc s.next_id;
    },
  )

  -- `append(watchers[:i], watchers[i+1:]...)` at the first watcher with that address
  unfoldable pub remove_watcher :
      ℕ → List (MemoryWatcher json.Bytes) → List (MemoryWatcher json.Bytes)
  remove_watcher i [] = []
  remove_watcher i (w ∷ ws) = if w.id == i then ws else w ∷ remove_watcher i ws

  unfoldable pub contains : ℕ → List ℕ → Bool
  contains i [] = false
  contains i (j ∷ js) = if j == i then true else contains i js

  -- Closing a channel again panics.
  unfoldable pub stop : ℕ → Exec Store (Unit {0})
  unfolding remove_watcher contains
  stop i s =
      let s' : Store = record s { watchers = remove_watcher i s.watchers } in
      if contains i s.closed then (panicked, s') else (ret tt, record s' { closed = i ∷ s.closed })
