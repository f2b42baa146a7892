-- ===== src/Examples.antt =====
-- The programs of example/: what their handlers share.
pub mod FakeServer
pub mod FakeCoa
pub mod FakeServerAsync
pub mod Exchange
use mathlib.Core.Path.{ap₂}
use pyrad.Common.{ℕ, ◌≡◌, refl, ◌∙◌, none, List, [], ◌∷◌, Text, codes}
use pyrad.Common.Result.{Result, ok, ◌>>=◌}
use pyrad.Externals.{Externals}
use pyrad.Encoding.{Value, str}
use pyrad.Packet.State.{Packet}
use pyrad.Packet.Names.{Name, named, raw, keys_of, Found, get_found, get_item}
use pyrad.Packet.Create.{Args, no_args}

-- the attributes of the access accept
abbrev pub framed_user : Args
framed_user = record no_args {
  attributes =
      (codes "Service-Type", str (codes "Framed-User") ∷ [])
      ∷ (codes "Framed-IP-Address", str (codes "192.168.0.1") ∷ [])
      ∷ (codes "Framed-IPv6-Prefix", str (codes "fc66::/64") ∷ [])
      ∷ [];
}

module _ (x : Externals) where
  print_each : Packet → List Name → Result (List (Name × Found))
  print_each p [] = ok []
  print_each p (key ∷ keys) = do
    found ← get_found x p key
    rest ← print_each p keys
    ok ((key, found) ∷ rest)

  -- `print_attributes`: what it prints
  unfoldable pub print_attributes : Packet → Result (List (Name × Found))
  unfolding print_each
  print_attributes p = print_each p (keys_of p.dict p.attrs)

  get_found-same :
      (p q : Packet) (key : Name)
      → p.dict ≡ q.dict
      → p.attrs ≡ q.attrs
      → get_found x p key ≡ get_found x q key
  unfolding get_found get_item
  get_found-same p q (named name) hd ha = rw (hd, ha) refl
  get_found-same p q (raw key) hd ha = rw ha refl

  print_each-same :
      (p q : Packet) (keys : List Name)
      → p.dict ≡ q.dict
      → p.attrs ≡ q.attrs
      → print_each p keys ≡ print_each q keys
  unfolding print_each
  print_each-same p q [] hd ha = refl
  print_each-same p q (key ∷ keys) hd ha =
      ap₂ (λ found rest. found >>= λ f. (rest >>= λ r. ok ((key, f) ∷ r)))
        (get_found-same p q key hd ha) (print_each-same p q keys hd ha)

  -- What is printed depends on the dictionary and the attributes only.
  pub print_attributes-same :
      (p q : Packet) → p.dict ≡ q.dict → p.attrs ≡ q.attrs → print_attributes p ≡ print_attributes q
  unfolding print_attributes
  print_attributes-same p q hd ha =
      print_each-same p q (keys_of p.dict p.attrs) hd ha
      ∙ ap₂ (λ d items. print_each q (keys_of d items)) hd ha
