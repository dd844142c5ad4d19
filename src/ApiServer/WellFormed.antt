-- ===== src/ApiServer/WellFormed.antt =====
-- The well-formed stores behind the REST routes of internal/apiserver/server.go, and what a listing
-- of them answers.
use mathlib.Core.Logic.Or
use mathlib.Core.List.{Perm, mem-cons, not-mem-nil, filter_map}
use mathlib.Core.HLevel.{⊥_prop}
use k8s_lite.Prelude.{
  subst, Flow, blocked, panicked, Exec, String, ◌≡◌, ◌≢◌, ◌⊎◌, refl, ap, sym, subst, none, some,
  true, Map, ret, state-bind-pure, lookup, insert, remove, lookup-insert, lookup-remove, eq_iff,
  arith, inl, inr, All, List, [], ◌∷◌, starts_with,
}
use k8s_lite.Api.Objects.{Kind, Obj, get_object_meta}
use k8s_lite.Api.Stored.{Json}
use k8s_lite.Registry.{key, key_prefix, key_prefix_kind}
use k8s_lite.Storage.Memory
use k8s_lite.Storage.Memory.{Store, Try, ok, err}
use k8s_lite.Storage.Refinement.{table-notify_and_sync}
use k8s_lite.Storage.Listing.{Decodes, entry_object, list-Perm}
use k8s_lite.ApiServer.Handlers.{
  Response, Request, get_list, post, get, delete, put, objects, render_json, serve, handle_get,
  handle_create, handle_update, handle_delete, handle_list,
}

module _ {V : Type 0} where
  -- No key occurs twice.
  abbrev pub Unique : Map V → Type 0
  Unique [] = Unit
  Unique ((j, v) ∷ m) = (lookup j m ≡ none) × Unique m

  pub insert-Unique : (k : String) (v : V) (m : Map V) → Unique m → Unique (insert k v m)
  unfolding insert lookup
  insert-Unique k v [] u = (refl, tt)
  insert-Unique k v ((j, w) ∷ m) u =
      ground (arith, eq_iff j k, eq_iff k j, lookup-insert k j v m, insert-Unique k v m u.1)

  pub remove-Unique : (k : String) (m : Map V) → Unique m → Unique (remove k m)
  unfolding remove
  remove-Unique k [] u = tt
  remove-Unique k ((j, w) ∷ m) u =
      ground (arith, eq_iff j k, eq_iff k j, lookup-remove k j m, remove-Unique k m u.1)

  pub insert-All :
      (P : String × V → Type 0) (k : String) (v : V) (m : Map V)
      → P (k, v)
      → All P m
      → All P (insert k v m)
  unfolding insert
  insert-All P k v [] p h = (p, tt)
  insert-All P k v ((j, w) ∷ m) p h = ground (arith, insert-All P k v m p h.1)

  pub remove-All : (P : String × V → Type 0) (k : String) (m : Map V) → All P m → All P (remove k m)
  unfolding remove
  remove-All P k [] h = tt
  remove-All P k ((j, w) ∷ m) h = ground (arith, remove-All P k m h.1)

module _ ⦃json : Json⦄ where
  abbrev pub IsEntry : String × json.Bytes → Type 0
  IsEntry (j, v) = (k : Kind) × (name : String) × (j ≡ key k name) × (json.unmarshal k v ≢ none)

  pub record IsRegistry (m : Map json.Bytes) : Type 0 where
    pub typed : All IsEntry m
    pub unique : Unique m

  create_cases :
      (i : String) (k : Kind) (obj : Obj k) (s : Store)
      → ((Memory.create i k obj s).1.table ≡ s.table)
        ⊎ ((b : json.Bytes) × (json.marshal k obj ≡ some b)
            × ((Memory.create i k obj s).1.table ≡ insert i b s.table))
  unfolding Memory.create
  create_cases i k obj s = grind (arith, table-notify_and_sync)

  update_cases :
      (i : String) (k : Kind) (obj : Obj k) (s : Store)
      → ((Memory.update i k obj s).1.table ≡ s.table)
        ⊎ ((b : json.Bytes) × (json.marshal k obj ≡ some b)
            × ((Memory.update i k obj s).1.table ≡ insert i b s.table))
  unfolding Memory.update
  update_cases i k obj s = grind (arith, table-notify_and_sync)

  delete_cases :
      (i : String) (s : Store)
      → ((Memory.delete i s).1.table ≡ s.table) ⊎ ((Memory.delete i s).1.table ≡ remove i s.table)
  unfolding Memory.delete
  delete_cases i s = grind (arith, table-notify_and_sync)

  insert-IsRegistry :
      (k : Kind) (name : String) (obj : Obj k) (b : json.Bytes) (m : Map json.Bytes)
      → json.marshal k obj ≡ some b
      → IsRegistry m
      → IsRegistry (insert (key k name) b m)
  insert-IsRegistry k name obj b m e h = record {
    typed =
        insert-All IsEntry _ b m (k, name, refl, λ n. cc (n, json.round_trip k obj b e)) h.typed;
    unique = insert-Unique _ b m h.unique;
  }

  remove-IsRegistry : (i : String) (m : Map json.Bytes) → IsRegistry m → IsRegistry (remove i m)
  remove-IsRegistry i m h = record {
    typed = remove-All IsEntry i m h.typed;
    unique = remove-Unique i m h.unique;
  }

  changed :
      (k : Kind) (name : String) (obj : Obj k) (m n : Map json.Bytes)
      → (n ≡ m) ⊎ ((b : json.Bytes) × (json.marshal k obj ≡ some b) × (n ≡ insert (key k name) b m))
      → IsRegistry m
      → IsRegistry n
  changed k name obj m n (inl e) h = rw e h
  changed k name obj m n (inr (b, e, q)) h = rw q (insert-IsRegistry k name obj b m e h)

  pub handle_create-table :
      (k : Kind) (body : json.Bytes) (s : Store)
      → ((handle_create k body s).1.table ≡ s.table)
        ⊎ ((obj : Obj k) × (json.unmarshal k body ≡ some obj)
            × ((handle_create k body s).1.table
                ≡ (Memory.create (key k (get_object_meta k obj).name) k obj s).1.table))
  unfolding handle_create
  handle_create-table k body s = ground arith

  handle_update-table :
      (k : Kind) (name : String) (body : json.Bytes) (s : Store)
      → ((handle_update k name body s).1.table ≡ s.table)
        ⊎ ((obj : Obj k) × (json.unmarshal k body ≡ some obj)
            × ((handle_update k name body s).1.table
                ≡ (Memory.update (key k name) k obj s).1.table))
  unfolding handle_update
  handle_update-table k name body s = ground arith

  pub state-handle_delete :
      (k : Kind) (name : String) (s : Store)
      → (handle_delete k name s).1 ≡ (Memory.delete (key k name) s).1
  unfolding handle_delete
  state-handle_delete k name s = state-bind-pure (Memory.delete (key k name)) _ s

  -- Every request keeps the registry well-formed (each key is that of a kind and a name, its bytes
  -- decode to that kind, no key occurs twice), also a request that is refused, blocks or meets an
  -- error of the file.
  pub serve-IsRegistry :
      (order : Map json.Bytes → Map json.Bytes) (r : Request json.Bytes) (s : Store)
      → IsRegistry s.table
      → IsRegistry (serve order r s).1.table
  unfolding serve handle_list handle_get
  serve-IsRegistry order (get_list k) s h = h
  serve-IsRegistry order (get k name) s h = h
  serve-IsRegistry order (post k body) s h = elim (handle_create-table k body s) [
    | inl e ↦ rw e h
    | inr (obj, _, e) ↦ rw e (changed k _ obj s.table _ (create_cases _ k obj s) h)
  ]
  serve-IsRegistry order (put k name body) s h = elim (handle_update-table k name body s) [
    | inl e ↦ rw e h
    | inr (obj, _, e) ↦ rw e (changed k _ obj s.table _ (update_cases _ k obj s) h)
  ]
  serve-IsRegistry order (delete k name) s h =
      rw (state-handle_delete k name s) (elim (delete_cases (key k name) s) [
        | inl e ↦ rw e h
        | inr e ↦ rw e (remove-IsRegistry (key k name) s.table h)
      ])

  entry_decodes :
      (k : Kind) (j : String) (v : json.Bytes)
      → IsEntry (j, v)
      → starts_with j (key_prefix k) ≡ true
      → json.unmarshal k v ≢ none
  entry_decodes k j v (i, name, e, d) p =
      subst (λ t. json.unmarshal t v ≢ none) (key_prefix_kind i k name (rw (← e) p)) d

  -- So every entry under the prefix of a kind decodes to that kind.
  pub IsRegistry-Decodes :
      (k : Kind) (m : Map json.Bytes) → All IsEntry m → Decodes (key_prefix k) k m
  IsRegistry-Decodes k [] h j v mem p n = absurd (not-mem-nil mem)
  IsRegistry-Decodes k ((i, w) ∷ m) h j v mem p n =
      Or.elim ⊥_prop (mem-cons.0 mem) (λ e. entry_decodes k j v (subst IsEntry (sym e) h.0) p n)
        (λ r. IsRegistry-Decodes k m h.1 j v r p n)

  -- On a well-formed registry a listing is answered 200, whatever the order of the map, with every
  -- object that is stored under the kind, each once.
  pub serve-get_list :
      (order : Map json.Bytes → Map json.Bytes) (k : Kind) (s : Store)
      → Perm (order s.table) s.table
      → IsRegistry s.table
      → (os : List (Obj k)) × (serve order (get_list k) s
          ≡ (ret (render_json 200 (objects k os)), s))
        × Perm os (filter_map (entry_object (key_prefix k) k) s.table)
  unfolding serve handle_list
  serve-get_list order k s p h =
      let (os, e, q) =
        list-Perm order (key_prefix k) k s p (IsRegistry-Decodes k s.table h.typed) in
      (os, rw e, q)

  -- A request that waits in a channel send holds the lock of the store, and no later one goes on. A
  -- panic gives the lock back.
  unfoldable pub go_on : Flow Response → Exec Store (Unit {0}) → Exec Store (Unit {0})
  go_on (ret a) rest s = rest s
  go_on blocked rest s = (blocked, s)
  go_on panicked rest s = rest s

  -- The requests of any clients one after another, each with the order of its own listing.
  unfoldable pub serve_all :
      List ((Map json.Bytes → Map json.Bytes) × Request json.Bytes) → Exec Store (Unit {0})
  unfolding go_on
  serve_all [] s = (ret tt, s)
  serve_all ((order, r) ∷ rs) s =
      let rest = serve_all rs in go_on (serve order r s).0 rest (serve order r s).1

  go_on-IsRegistry :
      (a : Flow Response) (rest : Exec Store (Unit {0})) (s : Store)
      → IsRegistry s.table
      → (IsRegistry s.table → IsRegistry (rest s).1.table)
      → IsRegistry (go_on a rest s).1.table
  unfolding go_on
  go_on-IsRegistry (ret a) rest s g k = k g
  go_on-IsRegistry blocked rest s g k = g
  go_on-IsRegistry panicked rest s g k = k g

  pub serve_all-IsRegistry :
      (rs : List ((Map json.Bytes → Map json.Bytes) × Request json.Bytes)) (s : Store)
      → IsRegistry s.table
      → IsRegistry (serve_all rs s).1.table
  unfolding serve_all go_on
  serve_all-IsRegistry [] s h = h
  serve_all-IsRegistry ((order, r) ∷ rs) s h =
      go_on-IsRegistry (serve order r s).0 (serve_all rs) (serve order r s).1
        (serve-IsRegistry order r s h) (serve_all-IsRegistry rs (serve order r s).1)

  -- If a server started with an empty map and none of the requests made to it so far waits in the
  -- channel of a watcher, a listing of a kind is answered 200, in every order of the map, with every
  -- object that is stored under the kind, each once.
  pub serve_all-get_list :
      (rs : List ((Map json.Bytes → Map json.Bytes) × Request json.Bytes))
      (order : Map json.Bytes → Map json.Bytes) (k : Kind) (s s' : Store)
      → s.table ≡ []
      → serve_all rs s ≡ (ret tt, s')
      → Perm (order s'.table) s'.table
      → (os : List (Obj k)) × ((serve order (get_list k) s').0
          ≡ ret (render_json 200 (objects k os)))
        × Perm os (filter_map (entry_object (key_prefix k) k) s'.table)
  serve_all-get_list rs order k s s' e a p =
      let start : IsRegistry s.table = rw e (record { typed = tt; unique = tt }) in
      let g : IsRegistry s'.table =
        subst (λ x. IsRegistry x.1.table) a (serve_all-IsRegistry rs s start) in
      let (os, b, q) = serve-get_list order k s' p g in (os, ap (λ r. r.0) b, q)
