-- ===== src/Urls.antt =====
-- Names in the URLs of internal/client/client.go, which writes them there as they are.
use Prim.Native.Char.{code}
use k8s_lite.Prelude.{ℕ, String, ◌≡◌, ◌≢◌, Bool, true, ◌&&◌, ◌||◌, leb, ◌==◌}
use k8s_lite.ApiServer.{Response}

-- The characters that stand for themselves in a URL.
abbrev pub is_unreserved : ℕ → Bool
is_unreserved c =
    (leb b'a' c && leb c b'z')
    || (leb b'A' c && leb c b'Z')
    || (leb b'0' c && leb c b'9')
    || (c == b'-' || c == b'.' || c == b'_' || c == b'~')

abbrev pub IsPlain : String → Type 0
IsPlain String.[] = Unit
IsPlain (String.◌∷◌ c s) = (is_unreserved (code c) ≡ true) × IsPlain s

abbrev pub IsPlainName : String → Type 0
IsPlainName n = (n ≢ "") × IsPlain n

pub IsPlainName-prop : (n : String) → IsProp (IsPlainName n)
IsPlainName-prop n = let p = IsPlain-prop n in hlevel
  where
    IsPlain-prop : (s : String) → IsProp (IsPlain s)
    IsPlain-prop String.[] = hlevel
    IsPlain-prop (String.◌∷◌ c s) = let p = IsPlain-prop s in hlevel

-- Where a URL that ends in a name leads, by net/url and chi: it is no URL, another page than that of
-- an object answers, or the handler is given this name.
pub data NamePath : Type 0 where
  bad_url : NamePath
  elsewhere : Response → NamePath
  names : String → NamePath
