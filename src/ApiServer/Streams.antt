-- ===== src/ApiServer/Streams.antt =====
-- What the client of handleWatch in internal/apiserver/server.go is sent.
use k8s_lite.Prelude.{
  ℕ, String, ◌≡◌, refl, sym, ap, ◌∙◌, subst, Bool, true, false, none, some, List, [], ◌∷◌, ◌++◌,
  map, if◌then◌else◌, ◌==◌, starts_with, Flow, ret, blocked, panicked, Bool-cases, inl, inr, arith,
  some_inj,
}
use mathlib.Core.List.{append_assoc}
use k8s_lite.Api.Objects.{Kind}
use k8s_lite.Api.Stored.{Json}
use k8s_lite.Registry.{key_prefix}
use k8s_lite.Storage.Watchers.{
  Event, MemoryWatcher, notify_watchers, informed, informed_lem, all_have_room,
  notify_watchers_room, notify_watchers_full,
}
use k8s_lite.Storage.Memory.{Store, watch, stop, contains}
use k8s_lite.ApiServer.Watching.{
  StreamStatus, streaming, ended, watcher_of, set_channel, WatchStream, Turn, publish, receive,
  gone, finish_stream, after_notify, notify, encode_event, take_event, receive_event, turn_at,
  turns, open_at, opened, handle_watch,
}

-- The events whose key has the prefix, in order.
abbrev pub matching : {B : Type 0} → String → List (String × Event B) → List (Event B)
matching prefix [] = []
matching prefix ((key, e) ∷ es) =
    if starts_with key prefix then e ∷ matching prefix es else matching prefix es

module _ {B : Type 0} where
  abbrev one : String → String → Event B → List (Event B)
  one prefix key e = if starts_with key prefix then e ∷ [] else []

  matching-snoc :
      (prefix key : String) (e : Event B) (es : List (String × Event B))
      → matching prefix (es ++ (key, e) ∷ []) ≡ matching prefix es ++ one prefix key e
  matching-snoc prefix key e [] = refl
  matching-snoc prefix key e ((k, d) ∷ es) = ground (arith, matching-snoc prefix key e es)

  abbrev with_event : String → Event B → MemoryWatcher B → MemoryWatcher B
  with_event key e w = record w { result_chan = w.result_chan ++ one w.key_prefix key e }

  watcher_of-informed :
      (key : String) (e : Event B) (i : ℕ) (w : MemoryWatcher B) (ws : List (MemoryWatcher B))
      → watcher_of i ws ≡ some w
      → watcher_of i (map (informed e key) ws) ≡ some (with_event key e w)
  unfolding watcher_of
  watcher_of-informed key e i w [] h = cc h
  watcher_of-informed key e i w (v ∷ ws) h =
      rw (informed_lem e key v) (elim (Bool-cases (v.id == i)) [
        | inl q ↦ rw q (ap (λ x. some (with_event key e x)) (some_inj v w (sym (rw q refl) ∙ h)))
        | inr q ↦ rw q (watcher_of-informed key e i w ws (sym (rw q refl) ∙ h))
      ])

  watcher_of-set_channel :
      (i : ℕ) (es : List (Event B)) (w : MemoryWatcher B) (ws : List (MemoryWatcher B))
      → watcher_of i ws ≡ some w
      → watcher_of i (set_channel i es ws) ≡ some (record w { result_chan = es })
  unfolding watcher_of set_channel
  watcher_of-set_channel i es w [] h = cc h
  watcher_of-set_channel i es w (v ∷ ws) h = elim (Bool-cases (v.id == i)) [
    | inl q ↦
        rw (q, q)
          (ap (λ (x : MemoryWatcher B). some (record x { result_chan = es }))
            (some_inj v w (sym (rw q refl) ∙ h)))
    | inr q ↦ rw (q, q) (watcher_of-set_channel i es w ws (sym (rw q refl) ∙ h))
  ]

  notified :
      (key : String) (e : Event B) (ws : List (MemoryWatcher B))
      → (notify_watchers e key ws).0 ≡ ret tt
      → (notify_watchers e key ws).1 ≡ map (informed e key) ws
  notified key e ws h = elim (Bool-cases (all_have_room key ws)) [
    | inl r ↦
        ap (λ (p : Flow (Unit {0}) × List (MemoryWatcher B)). p.1) (notify_watchers_room e key ws r)
    | inr r ↦ cc (h, notify_watchers_full e key ws r)
  ]

module _ ⦃json : Json⦄ (prefix : String) where
  -- While the handler streams its watcher is registered, with the given events in its channel, and its
  -- channel is open; when it has returned, Stop returned.
  abbrev IsWatched : StreamStatus → List (Event json.Bytes) → WatchStream → Type 0
  IsWatched streaming es st =
      (watcher_of st.id st.store.watchers
        ≡ some (record { id = st.id; key_prefix = prefix; result_chan = es }))
      × (contains st.id st.store.closed ≡ false)
  IsWatched (ended r) es st = r ≡ ret tt

  -- What the client was sent, with what is still in the channel, is what was published for it.
  abbrev pub InOrder : WatchStream → Type 0
  InOrder st =
      (es : List (Event json.Bytes)) × (st.sent ++ es ≡ matching prefix st.published)
      × IsWatched st.status es st

  stop_once : (i : ℕ) (s : Store) → contains i s.closed ≡ false → (stop i s).0 ≡ ret tt
  unfolding stop
  stop_once i s h = rw h refl

  finish_stream-InOrder :
      (es : List (Event json.Bytes)) (st : WatchStream)
      → st.sent ++ es ≡ matching prefix st.published
      → contains st.id st.store.closed ≡ false
      → InOrder (finish_stream st)
  unfolding finish_stream
  finish_stream-InOrder es st h c = (es, h, stop_once st.id st.store c)

  after_notify-IsWatched :
      (s : StreamStatus) (key : String) (e : Event json.Bytes) (es : List (Event json.Bytes))
      (st : WatchStream) (ws : List (MemoryWatcher json.Bytes))
      (all : List (String × Event json.Bytes))
      → ws ≡ map (informed e key) st.store.watchers
      → IsWatched s es st
      → IsWatched s
          (es ++ one prefix key e)
          (record st { store = record st.store { watchers = ws }; published = all })
  after_notify-IsWatched streaming key e es st ws all q (w, c) =
      (ap (watcher_of st.id) q ∙ watcher_of-informed key e st.id _ st.store.watchers w, c)
  after_notify-IsWatched (ended r) key e es st ws all q w = w

  after_notify-InOrder :
      (key : String) (e : Event json.Bytes) (r : Flow (Unit {0}))
      (ws : List (MemoryWatcher json.Bytes)) (st : WatchStream)
      → (r ≡ ret tt → ws ≡ map (informed e key) st.store.watchers)
      → InOrder st
      → InOrder (after_notify key e r ws st)
  unfolding after_notify
  after_notify-InOrder key e (ret tt) ws st q (es, h, w) = (
    es ++ one prefix key e,
    sym (append_assoc st.sent es (one prefix key e))
        ∙ ap (λ x. x ++ one prefix key e) h
        ∙ sym (matching-snoc prefix key e st.published),
    after_notify-IsWatched st.status key e es st ws _ (q refl) w,
  )
  after_notify-InOrder key e blocked ws st q o = o
  after_notify-InOrder key e panicked ws st q o = o

  encode_event-InOrder :
      (accepted : Bool) (e : Event json.Bytes) (es : List (Event json.Bytes)) (st : WatchStream)
      → st.sent ++ e ∷ es ≡ matching prefix st.published
      → st.status ≡ streaming
      → IsWatched streaming es st
      → InOrder (encode_event accepted e st)
  unfolding encode_event
  encode_event-InOrder true e es st h s w = (
    es,
    append_assoc st.sent (e ∷ []) es ∙ h,
    subst (λ x. IsWatched x es (encode_event true e st)) (sym s) w,
  )
  encode_event-InOrder false e es st h s w = finish_stream-InOrder (e ∷ es) st h w.1

  take_event-InOrder :
      (accepted : Bool) (es : List (Event json.Bytes)) (st : WatchStream)
      → st.sent ++ es ≡ matching prefix st.published
      → st.status ≡ streaming
      → IsWatched streaming es st
      → InOrder (take_event accepted es st)
  unfolding take_event
  take_event-InOrder accepted [] st h s w = ([], h, subst (λ x. IsWatched x [] st) (sym s) w)
  take_event-InOrder accepted (e ∷ es) st h s (w, c) =
      encode_event-InOrder accepted e es _ h s
        (watcher_of-set_channel st.id es _ st.store.watchers w, c)

  turn_at-InOrder :
      (s : StreamStatus) (t : Turn) (st : WatchStream)
      → st.status ≡ s
      → InOrder st
      → InOrder (turn_at s t st)
  unfolding turn_at notify receive_event
  turn_at-InOrder s (publish key e) st q o =
      let (r, ws) = notify_watchers e key st.store.watchers in
      after_notify-InOrder key e r ws st (λ h. notified key e st.store.watchers h) o
  turn_at-InOrder streaming (receive accepted) st q (es, h, w) =
      let (v, c) = subst (λ x. IsWatched x es st) q w in
      rw v (take_event-InOrder accepted es st h q (v, c))
  turn_at-InOrder streaming gone st q (es, h, w) =
      finish_stream-InOrder es st h (subst (λ x. IsWatched x es st) q w).1
  turn_at-InOrder (ended r) (receive accepted) st q o = o
  turn_at-InOrder (ended r) gone st q o = o

  pub turns-InOrder : (ts : List Turn) (st : WatchStream) → InOrder st → InOrder (turns ts st)
  unfolding turns
  turns-InOrder [] st o = o
  turns-InOrder (t ∷ ts) st o =
      turns-InOrder ts (turn_at st.status t st) (turn_at-InOrder st.status t st refl o)

  open_at-InOrder :
      (i : ℕ) (flushes : Bool) (s : Store)
      → watcher_of i s.watchers ≡ some (record { id = i; key_prefix = prefix; result_chan = [] })
      → contains i s.closed ≡ false
      → InOrder (open_at i flushes s)
  unfolding open_at
  open_at-InOrder i true s w c = ([], refl, (w, c))
  open_at-InOrder i false s w c =
      finish_stream-InOrder []
        (record { store = s; id = i; status = streaming; sent = []; published = [] }) refl c

last_watcher :
    {B : Type 0} (w : MemoryWatcher B) (ws : List (MemoryWatcher B))
    → watcher_of w.id ws ≡ none
    → watcher_of w.id (ws ++ w ∷ []) ≡ some w
unfolding watcher_of
last_watcher w [] h = ground arith
last_watcher w (v ∷ ws) h = ground (arith, last_watcher w ws)

module _ ⦃json : Json⦄ where
  -- A watch of a kind opens, and through any notifications, receptions and failures what the client
  -- has been sent is the beginning of the events that the store notified for keys of the kind since,
  -- in their order: none is lost, doubled or out of turn, and what is not sent yet is in the channel
  -- while the handler streams. When the handler returns, its Stop does not panic. The number
  -- of the new watcher must be that of no other watcher, present or stopped.
  pub handle_watch-InOrder :
      (k : Kind) (flushes : Bool) (s : Store) (ts : List Turn)
      → watcher_of s.next_id s.watchers ≡ none
      → contains s.next_id s.closed ≡ false
      → (st : WatchStream) × (handle_watch k flushes s ≡ some st)
        × InOrder (key_prefix k) (turns ts st)
  unfolding handle_watch opened watch
  handle_watch-InOrder k flushes s ts n c =
      let new : MemoryWatcher json.Bytes = record {
        id = s.next_id;
        key_prefix = key_prefix k;
        result_chan = [];
      } in
      (
        open_at s.next_id flushes (watch (key_prefix k) s).1,
        refl,
        turns-InOrder (key_prefix k) ts _
            (open_at-InOrder (key_prefix k) s.next_id flushes _ (last_watcher new s.watchers n) c),
      )
