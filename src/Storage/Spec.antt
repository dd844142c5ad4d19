-- ===== src/Storage/Spec.antt =====
-- The contract of internal/storage/interface.go: a store is a partial map from keys to bytes.
-- Create fails if the key exists, Update and Delete fail if it does not.
use k8s_lite.Prelude.{
  String, Option, none, some, if◌then◌else◌, str_eq, List, [], ◌∷◌, Exec, lookup,
}
use k8s_lite.Api.Objects.{Kind, Obj}
use k8s_lite.Api.Stored.{Json}
use k8s_lite.Storage.Memory.{
  Store, Try, ok, err, not_found, conflict, marshal_failed, create, update, delete,
}

module _ ⦃json : Json⦄ where
  abbrev pub View : Type 0
  View = String → Option json.Bytes

  abbrev pub view : Store → View
  view s key = lookup key s.table

  -- `m` with `key` given anew
  abbrev pub put : String → Option json.Bytes → View → View
  put key v m j = if str_eq key j then v else m j

  abbrev or_fail : Option json.Bytes → String → View → Try (Unit {0}) × View
  or_fail none key m = (err marshal_failed, m)
  or_fail (some bytes) key m = (ok tt, put key (some bytes) m)

  pub data Op : Type 0 where
    creates : String → (k : Kind) → Obj k → Op
    updates : String → (k : Kind) → Obj k → Op
    deletes : String → Op

  abbrev if_absent : Option json.Bytes → View → Try (Unit {0}) × View → Try (Unit {0}) × View
  if_absent none m r = r
  if_absent (some _) m r = (err conflict, m)

  abbrev if_present : Option json.Bytes → View → Try (Unit {0}) × View → Try (Unit {0}) × View
  if_present none m r = (err not_found, m)
  if_present (some _) m r = r

  unfoldable pub spec : Op → View → Try (Unit {0}) × View
  spec (creates key k obj) m = if_absent (m key) m (or_fail (json.marshal k obj) key m)
  spec (updates key k obj) m = if_present (m key) m (or_fail (json.marshal k obj) key m)
  spec (deletes key) m = if_present (m key) m (ok tt, put key none m)

  unfoldable pub run : Op → Exec Store (Try (Unit {0}))
  run (creates key k obj) = create key k obj
  run (updates key k obj) = update key k obj
  run (deletes key) = delete key

  unfoldable pub spec_all : List Op → View → View
  spec_all [] m = m
  spec_all (op ∷ ops) m = spec_all ops (spec op m).1

  -- Calls one after another. A call that fails leaves what it has written; one that waits for a
  -- watcher has written the map by then, and the next begins when the watcher has made room.
  unfoldable pub run_all : List Op → Store → Store
  run_all [] s = s
  run_all (op ∷ ops) s = run_all ops (run op s).1
