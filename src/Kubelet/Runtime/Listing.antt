-- ===== src/Kubelet/Runtime/Listing.antt =====
-- What ListContainers of internal/kubelet/runtime.go reads from the table that `docker ps` prints.
use Prim.Native.Char.{Char}
use k8s_lite.Prelude.{
  String, ◌+s+◌, ◌≡◌, refl, false, some, List, [], ◌∷◌, All, arith, str_eq, eq_iff, is_space, split,
  split-append, split-free, trim_space, IsFree, IsFree-append, HasInk, HasInk-append,
  trim_space-HasInk, false_of_not, inl,
}
use k8s_lite.Kubelet.Runtime.{
  ContainerInfo, container_of, parse_line, parse_lines, parse_containers,
}

abbrev bar : Char
bar = "|"

abbrev newline : Char
newline = "\n"

-- What `docker ps` prints for the format that is asked for: the fields with bars between them.
abbrev pub format_row : ContainerInfo → String
format_row c =
    c.id
    +s+ String.◌∷◌ bar (
        c.name
        +s+ String.◌∷◌ bar (
            c.image
            +s+ String.◌∷◌ bar
                (c.state +s+ String.◌∷◌ bar (c.pod_name +s+ String.◌∷◌ bar c.pod_namespace))))

abbrev pub format_table : List ContainerInfo → String
format_table [] = String.[]
format_table (c ∷ cs) = format_row c +s+ String.◌∷◌ newline (format_table cs)

-- The container belongs to a pod, and no field holds a bar or a line break.
pub record IsPlain (c : ContainerInfo) : Type 0 where
  pub labelled : str_eq c.pod_name "" ≡ false
  pub no_bar :
      IsFree b'|' c.id
      × IsFree b'|' c.name
      × IsFree b'|' c.image
      × IsFree b'|' c.state
      × IsFree b'|' c.pod_name
      × IsFree b'|' c.pod_namespace
  pub one_line :
      IsFree b'\n' c.id
      × IsFree b'\n' c.name
      × IsFree b'\n' c.image
      × IsFree b'\n' c.state
      × IsFree b'\n' c.pod_name
      × IsFree b'\n' c.pod_namespace

split-format_row :
    (c : ContainerInfo)
    → IsPlain c
    → split b'|' (format_row c)
      ≡ c.id ∷ c.name ∷ c.image ∷ c.state ∷ c.pod_name ∷ c.pod_namespace ∷ []
split-format_row c h =
    let (a, b, d, e, f, g) = h.no_bar in
    rw (
      split-append b'|' c.id _ bar refl a,
      split-append b'|' c.name _ bar refl b,
      split-append b'|' c.image _ bar refl d,
      split-append b'|' c.state _ bar refl e,
      split-append b'|' c.pod_name _ bar refl f,
      split-free b'|' c.pod_namespace g,
    )

IsFree-format_row : (c : ContainerInfo) → IsPlain c → IsFree b'\n' (format_row c)
IsFree-format_row c h =
    let (a, b, d, e, f, g) = h.one_line in
    IsFree-append b'\n' c.id _ a (
      refl,
      IsFree-append b'\n' c.name _ b (
        refl,
        IsFree-append b'\n' c.image _ d (
          refl,
          IsFree-append b'\n' c.state _ e (refl, IsFree-append b'\n' c.pod_name _ f (refl, g)),
        ),
      ),
    )

parse_line-format_row : (c : ContainerInfo) → IsPlain c → parse_line (format_row c) ≡ some c
unfolding parse_line container_of is_space
parse_line-format_row c h =
    let ink : HasInk (format_row c) = HasInk-append c.id _ (inl refl) in
    let filled = false_of_not _ (λ e. trim_space-HasInk (format_row c) ink ((eq_iff _ _).0 e)) in
    rw (filled, split-format_row c h, h.labelled)

parse_lines-format_table :
    (cs : List ContainerInfo) → All IsPlain cs → parse_lines (split b'\n' (format_table cs)) ≡ cs
unfolding parse_lines parse_line split trim_space
parse_lines-format_table [] h = refl
parse_lines-format_table (c ∷ cs) h =
    rw (split-append b'\n' (format_row c) (format_table cs) newline refl (IsFree-format_row c h.0))
      (ground (arith, parse_line-format_row c h.0, parse_lines-format_table cs h.1))

-- ListContainers reads back, in order, exactly the containers of a table as `docker ps` prints it,
-- if each has a pod label and no field holds a bar or a line break.
pub parse_containers-format_table :
    (cs : List ContainerInfo) → All IsPlain cs → parse_containers (format_table cs) ≡ cs
unfolding parse_containers
parse_containers-format_table cs h = parse_lines-format_table cs h
