-- ===== src/ApiServer/Watching.antt =====
-- internal/apiserver/server.go: handleWatch. Its select is a turn of one of three kinds: the store
-- notifies its watchers of a key, an event is received and encoded, or the client is gone. A
-- notification is one turn, taken once there is room in every channel.
use k8s_lite.Prelude.{
  ℕ, String, Bool, true, false, Option, none, some, List, [], ◌∷◌, ◌++◌, if◌then◌else◌, ◌==◌, Flow,
  ret, blocked, panicked,
}
use k8s_lite.Api.Objects.{Kind}
use k8s_lite.Api.Stored.{Json}
use k8s_lite.Registry.{key_prefix}
use k8s_lite.Storage.Watchers.{Event, MemoryWatcher, notify_watchers}
use k8s_lite.Storage.Memory.{Store, Try, ok, err, watch, stop}

-- The handler streams, or it has returned; then with the outcome of the deferred Stop.
pub data StreamStatus : Type 0 where
  streaming : StreamStatus
  ended : Flow (Unit {0}) → StreamStatus

module _ {Bytes : Type 0} where
  -- The watcher with an address.
  unfoldable pub watcher_of : ℕ → List (MemoryWatcher Bytes) → Option (MemoryWatcher Bytes)
  watcher_of i [] = none
  watcher_of i (w ∷ ws) = if w.id == i then some w else watcher_of i ws

  unfoldable pub set_channel :
      ℕ → List (Event Bytes) → List (MemoryWatcher Bytes) → List (MemoryWatcher Bytes)
  set_channel i es [] = []
  set_channel i es (w ∷ ws) =
      if w.id == i then record w { result_chan = es } ∷ ws else w ∷ set_channel i es ws

module _ ⦃json : Json⦄ where
  -- The stream of one request: its watcher, what the client was sent, and what the store has
  -- notified its watchers of since, with the keys.
  pub record WatchStream : Type 0 where
    pub store : Store
    pub id : ℕ
    pub status : StreamStatus
    pub sent : List (Event json.Bytes)
    pub published : List (String × Event json.Bytes)

  pub data Turn : Type 0 where
    publish : String → Event json.Bytes → Turn
    -- An event is received; the flag tells whether it could be encoded and written.
    receive : Bool → Turn
    gone : Turn

  unfoldable pub finish_stream : WatchStream → WatchStream
  finish_stream st = let (r, s) = stop st.id st.store in record st { store = s; status = ended r }

  -- A notification that would wait on a full channel is a turn that is not taken.
  unfoldable pub after_notify :
      String
      → Event json.Bytes
      → Flow (Unit {0})
      → List (MemoryWatcher json.Bytes)
      → WatchStream
      → WatchStream
  after_notify key e (ret _) ws st = record st {
    store = record st.store { watchers = ws };
    published = st.published ++ (key, e) ∷ [];
  }
  after_notify key e _ ws st = st

  unfoldable pub notify : String → Event json.Bytes → WatchStream → WatchStream
  unfolding after_notify
  notify key e st =
      let (r, ws) = notify_watchers e key st.store.watchers in after_notify key e r ws st

  unfoldable pub encode_event : Bool → Event json.Bytes → WatchStream → WatchStream
  unfolding finish_stream
  encode_event true e st = record st { sent = st.sent ++ e ∷ [] }
  encode_event false e st = finish_stream st

  -- A channel with nothing in it is waited for.
  unfoldable pub take_event : Bool → List (Event json.Bytes) → WatchStream → WatchStream
  unfolding encode_event
  take_event accepted [] st = st
  take_event accepted (e ∷ es) st =
      encode_event accepted e (record st {
        store = record st.store { watchers = set_channel st.id es st.store.watchers };
      })

  -- A watcher that is not in the store has a closed channel.
  unfoldable pub receive_event :
      Bool → Option (MemoryWatcher json.Bytes) → WatchStream → WatchStream
  unfolding take_event finish_stream
  receive_event accepted none st = finish_stream st
  receive_event accepted (some w) st = take_event accepted w.result_chan st

  unfoldable pub turn_at : StreamStatus → Turn → WatchStream → WatchStream
  unfolding notify receive_event
  turn_at s (publish key e) st = notify key e st
  turn_at streaming (receive accepted) st =
      receive_event accepted (watcher_of st.id st.store.watchers) st
  turn_at streaming gone st = finish_stream st
  turn_at (ended r) (receive accepted) st = st
  turn_at (ended r) gone st = st

  unfoldable pub turns : List Turn → WatchStream → WatchStream
  unfolding turn_at
  turns [] st = st
  turns (t ∷ ts) st = turns ts (turn_at st.status t st)

  unfoldable pub open_at : ℕ → Bool → Store → WatchStream
  unfolding finish_stream
  open_at i true s = record { store = s; id = i; status = streaming; sent = []; published = [] }
  open_at i false s =
      finish_stream (record { store = s; id = i; status = streaming; sent = []; published = [] })

  -- `none` for the 500 after an error of Watch; a writer that is no Flusher ends the stream.
  unfoldable pub opened : Bool → Flow (Try ℕ) → Store → Option WatchStream
  unfolding open_at
  opened flushes (ret (ok i)) s = some (open_at i flushes s)
  opened flushes (ret (err _)) s = none
  opened flushes blocked s = none
  opened flushes panicked s = none

  unfoldable pub handle_watch : Kind → Bool → Store → Option WatchStream
  unfolding opened
  handle_watch k flushes s = let (r, s') = watch (key_prefix k) s in opened flushes r s'
