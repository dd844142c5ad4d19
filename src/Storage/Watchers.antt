-- ===== src/Storage/Watchers.antt =====
-- internal/storage/memory.go: memoryWatcher and notifyWatchers; internal/storage/interface.go: the
-- events and the errors. A channel is the list of what it holds, oldest first.
use mathlib.Core.List.{append-nil}
use k8s_lite.Prelude.{
  ℕ, String, ◌≡◌, Bool, true, false, List, [], ◌∷◌, ◌++◌, map, if◌then◌else◌, ltb, length,
  starts_with, Flow, ret, blocked, refl, arith, Bool-cases, inl, inr, ap, sym,
}
use k8s_lite.Api.Objects.{Kind, Obj}

pub data EventType : Type 0 where
  added modified deleted error : EventType

-- A deleted object is sent as the generic map that its bytes decode to, here the bytes themselves.
pub data EventObject (Bytes : Type 0) : Type 0 where
  object : (k : Kind) → Obj k → EventObject Bytes
  generic : Bytes → EventObject Bytes

pub record Event (Bytes : Type 0) : Type 0 where
  pub type : EventType
  pub object : EventObject Bytes

-- `make(chan Event, 10)`
abbrev pub capacity : ℕ
capacity = 10

-- `id` stands for the watcher's address.
pub record MemoryWatcher (Bytes : Type 0) : Type 0 where
  pub id : ℕ
  pub key_prefix : String
  pub result_chan : List (Event Bytes)

module _ {Bytes : Type 0} (e : Event Bytes) (key : String) where
  send : MemoryWatcher Bytes → MemoryWatcher Bytes
  send w = record w { result_chan = w.result_chan ++ e ∷ [] }

  push :
      MemoryWatcher Bytes
      → Flow (Unit {0}) × List (MemoryWatcher Bytes)
      → Flow (Unit {0}) × List (MemoryWatcher Bytes)
  push w (r, ws) = (r, w ∷ ws)

  -- The loop of `notifyWatchers`; a send on a full channel waits.
  unfoldable pub notify_watchers :
      List (MemoryWatcher Bytes) → Flow (Unit {0}) × List (MemoryWatcher Bytes)
  unfolding send push
  notify_watchers [] = (ret tt, [])
  notify_watchers (w ∷ ws) =
      let rest = notify_watchers ws in
      if starts_with key w.key_prefix
      then (if ltb (length w.result_chan) capacity then push (send w) rest else (blocked, w ∷ ws))
      else push w rest

  -- What a watcher has after a change of the key that reached everybody.
  pub informed : MemoryWatcher Bytes → MemoryWatcher Bytes
  unfolding send
  informed w = if starts_with key w.key_prefix then send w else w

module _ {Bytes : Type 0} (key : String) where
  abbrev pub has_room : MemoryWatcher Bytes → Bool
  has_room w = if starts_with key w.key_prefix then ltb (length w.result_chan) capacity else true

  abbrev pub all_have_room : List (MemoryWatcher Bytes) → Bool
  all_have_room [] = true
  all_have_room (w ∷ ws) = if has_room w then all_have_room ws else false

-- If every watcher of the key has room in its channel, each of them gets the event once, behind
-- what it had, the others get nothing, and the call returns.
pub notify_watchers_room :
    {Bytes : Type 0} (e : Event Bytes) (key : String) (ws : List (MemoryWatcher Bytes))
    → all_have_room key ws ≡ true
    → notify_watchers e key ws ≡ (ret tt, map (informed e key) ws)
unfolding notify_watchers informed
notify_watchers_room e key [] h = refl
notify_watchers_room e key (w ∷ ws) h = ground (arith, notify_watchers_room e key ws)

-- If some watcher of the key has no room in its channel, notifyWatchers waits in the send to one.
pub notify_watchers_full :
    {Bytes : Type 0} (e : Event Bytes) (key : String) (ws : List (MemoryWatcher Bytes))
    → all_have_room key ws ≡ false
    → (notify_watchers e key ws).0 ≡ blocked
unfolding notify_watchers
notify_watchers_full e key [] h = cc
notify_watchers_full e key (w ∷ ws) h = ground (arith, notify_watchers_full e key ws)

pub informed_lem :
    {Bytes : Type 0} (e : Event Bytes) (key : String) (w : MemoryWatcher Bytes)
    → informed e key w ≡ record w {
      result_chan = w.result_chan ++ (if starts_with key w.key_prefix then e ∷ [] else []);
    }
unfolding informed send
informed_lem e key w = elim (Bool-cases (starts_with key w.key_prefix)) [
  | inl h ↦ rw h refl
  | inr h ↦ rw h (ap (λ es. record w { result_chan = es }) (sym (append-nil w.result_chan)))
]
