-- ===== src/Registry.antt =====
-- The keys of the store: `fmt.Sprintf("/registry/%s/%s", resource, name)` and the prefix
-- `"/registry/" + resource`, built at several places of internal/apiserver/server.go.
use Prim.Native.Char.{code}
use text.Mathlib.TextLemmas.{append_assoc, append_cancel_left, cons-append}
use text.Mathlib.TextEquality.{starts_with_iff}
use k8s_lite.Prelude.{ℕ, String, ◌+s+◌, ◌≡◌, ap, sym, ◌∙◌, true, starts_with, arith}
use k8s_lite.Api.Objects.{
  Kind, pods, nodes, replicasets, deployments, services, endpoints, leases, resource,
}

unfoldable pub key_prefix : Kind → String
key_prefix k = "/registry/" +s+ resource k

unfoldable pub key : Kind → String → String
key k name = "/registry/" +s+ (resource k +s+ ("/" +s+ name))

-- The code of a text's first character tells the resources apart.
abbrev first : String → ℕ
first String.[] = 0
first (String.◌∷◌ c s) = code c

abbrev initial : Kind → ℕ
initial pods = b'p'
initial nodes = b'n'
initial replicasets = b'r'
initial deployments = b'd'
initial services = b's'
initial endpoints = b'e'
initial leases = b'l'

first-resource : (k : Kind) (s : String) → first (resource k +s+ s) ≡ initial k
first-resource pods s = ap first (cons-append _ _ s)
first-resource nodes s = ap first (cons-append _ _ s)
first-resource replicasets s = ap first (cons-append _ _ s)
first-resource deployments s = ap first (cons-append _ _ s)
first-resource services s = ap first (cons-append _ _ s)
first-resource endpoints s = ap first (cons-append _ _ s)
first-resource leases s = ap first (cons-append _ _ s)

initial_injective : (k j : Kind) → initial k ≡ initial j → k ≡ j
initial_injective k j h = ground arith

resource_injective : (k j : Kind) (s t : String) → resource k +s+ s ≡ resource j +s+ t → k ≡ j
resource_injective k j s t h =
    initial_injective k j (sym (first-resource k s) ∙ ap first h ∙ first-resource j t)

-- Two keys are the same only for one kind and one name.
pub key-kind : (k j : Kind) (n m : String) → key k n ≡ key j m → k ≡ j
unfolding key
key-kind k j n m h = resource_injective k j _ _ (append_cancel_left _ _ _ h)

pub key-name : (k : Kind) (n m : String) → key k n ≡ key k m → n ≡ m
unfolding key
key-name k n m h = append_cancel_left _ _ _ (append_cancel_left _ _ _ (append_cancel_left _ _ _ h))

-- The prefix of one kind fits exactly the keys of that kind.
pub key_prefix_own : (k : Kind) (n : String) → starts_with (key k n) (key_prefix k) ≡ true
unfolding key key_prefix
key_prefix_own k n =
    (starts_with_iff _ _).1 (("/" +s+ n), append_assoc "/registry/" (resource k) ("/" +s+ n))

pub key_prefix_kind :
    (k j : Kind) (n : String) → starts_with (key k n) (key_prefix j) ≡ true → k ≡ j
unfolding key key_prefix
key_prefix_kind k j n h =
    let (u, e) = (starts_with_iff _ _).0 h in
    sym (
      resource_injective j k u _
        (append_cancel_left "/registry/" _ _ (sym (append_assoc "/registry/" (resource j) u) ∙ e)))
