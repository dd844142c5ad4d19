-- ===== src/Storage/Listing.antt =====
-- What `List` of internal/storage/memory.go returns, in whatever order `range` walks the map.
use mathlib.Core.Logic.Or
use mathlib.Core.List.{Mem, Perm, mem-cons, filter_map}
use mathlib.Core.List.Perm
use mathlib.Core.Option.{Option-elim}
use k8s_lite.Prelude.{
  String, ◌≡◌, ◌≢◌, refl, Option, none, true, List, [], ◌∷◌, Map, arith, starts_with, if◌then◌else◌,
}
use k8s_lite.Api.Objects.{Kind, Obj}
use k8s_lite.Api.Stored.{Json}
use k8s_lite.Storage.Memory.{Store, ok, list, list_entries}

module _ ⦃json : Json⦄ where
  -- The object of one entry, if the prefix fits and the bytes decode.
  unfoldable pub entry_object : String → (k : Kind) → String × json.Bytes → Option (Obj k)
  entry_object prefix k (j, v) = if starts_with j prefix then json.unmarshal k v else none

  -- Every entry under the prefix decodes.
  abbrev pub Decodes : String → Kind → Map json.Bytes → Type 0
  Decodes prefix k m =
      (j : String) (v : json.Bytes)
      → Mem (j, v) m
      → starts_with j prefix ≡ true
      → json.unmarshal k v ≢ none

  list_entries-cons :
      (prefix : String) (k : Kind) (j : String) (v : json.Bytes) (m : Map json.Bytes)
      → (starts_with j prefix ≡ true → json.unmarshal k v ≢ none)
      → list_entries prefix k m ≡ ok (filter_map (entry_object prefix k) m)
      → list_entries prefix k ((j, v) ∷ m) ≡ ok (filter_map (entry_object prefix k) ((j, v) ∷ m))
  unfolding list_entries entry_object filter_map Option-elim
  list_entries-cons prefix k j v m d h = ground arith

  list_entries_lem :
      (prefix : String) (k : Kind) (m : Map json.Bytes)
      → Decodes prefix k m
      → list_entries prefix k m ≡ ok (filter_map (entry_object prefix k) m)
  unfolding list_entries filter_map
  list_entries_lem prefix k [] d = refl
  list_entries_lem prefix k ((j, v) ∷ m) d =
      list_entries-cons prefix k j v m (d j v (mem-cons.1 (Or.inl refl)))
        (list_entries_lem prefix k m (λ i w h. d i w (mem-cons.1 (Or.inr h))))

  Decodes-Perm :
      (prefix : String) (k : Kind) (m n : Map json.Bytes)
      → Perm m n
      → Decodes prefix k m
      → Decodes prefix k n
  Decodes-Perm prefix k m n p d j v h = d j v ((Perm.mem_iff p).1 h)

  -- If every entry under the prefix decodes, List succeeds in every order of the map, and returns
  -- exactly the decoded entries of the map under the prefix, each once, in some order.
  pub list-Perm :
      (order : Map json.Bytes → Map json.Bytes) (prefix : String) (k : Kind) (s : Store)
      → Perm (order s.table) s.table
      → Decodes prefix k s.table
      → (os : List (Obj k)) × (list order prefix k s ≡ ok os)
        × Perm os (filter_map (entry_object prefix k) s.table)
  unfolding list
  list-Perm order prefix k s p d = (
    filter_map (entry_object prefix k) (order s.table),
    list_entries_lem prefix k (order s.table)
        (Decodes-Perm prefix k s.table (order s.table) (Perm.symm p) d),
    Perm.filter_map (entry_object prefix k) p,
  )
