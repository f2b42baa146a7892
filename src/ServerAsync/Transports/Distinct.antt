-- ===== src/ServerAsync/Transports/Distinct.antt =====
-- The protocols of pyrad/server_async.py listen on different addresses.
use pyrad.Common.{
  ◌≡◌, ◌≢◌, refl, sym, ◌∙◌, Bool, true, false, not, ◌&&◌, List, [], ◌∷◌, ◌++◌, Text, Bool-cases,
  inl, inr, arith,
}
use pyrad.Common.Eq.{text_eq, text_eq_iff}
use pyrad.ServerAsync.{ServerType, for_auth, for_acct, for_coa}
use pyrad.ServerAsync.Transports.{
  Listener, Server, port_for, protocols_for, set_protocols, has_ip, is_present_proto, new_listener,
  connection_made, add_protocol, add_all, or_local, initialize_transports,
}

-- No two protocols of the list have the same address.
pub data IsDistinct : List Listener → Type 0 where
  no_listener : IsDistinct []
  one_more :
      {l : Listener} {ls : List Listener}
      → has_ip l.ip ls ≡ false
      → IsDistinct ls
      → IsDistinct (l ∷ ls)

-- The three ports differ, and so do the addresses that listen on each of them.
pub record IsValid (s : Server) : Type 0 where
  pub auth_acct : s.auth_port ≢ s.acct_port
  pub auth_coa : s.auth_port ≢ s.coa_port
  pub acct_coa : s.acct_port ≢ s.coa_port
  pub auths : IsDistinct s.auth_protocols
  pub accts : IsDistinct s.acct_protocols
  pub coas : IsDistinct s.coa_protocols

has_ip-append :
    (ip : Text) (l : Listener) (ls : List Listener)
    → has_ip ip ls ≡ false
    → text_eq l.ip ip ≡ false
    → has_ip ip (ls ++ l ∷ []) ≡ false
unfolding has_ip
has_ip-append ip l [] h other = rw other
has_ip-append ip l (m ∷ ls) h other = ground (arith, h, other, has_ip-append ip l ls)

IsDistinct-append :
    (l : Listener) (ls : List Listener)
    → has_ip l.ip ls ≡ false
    → IsDistinct ls
    → IsDistinct (ls ++ l ∷ [])
unfolding has_ip
IsDistinct-append l [] new no_listener = one_more refl no_listener
IsDistinct-append l (m ∷ ls) new (one_more first d) =
    let apart : text_eq l.ip m.ip ≡ false =
      ground (arith, new, text_eq_iff l.ip m.ip, text_eq_iff m.ip l.ip) in
    one_more (has_ip-append m.ip l ls first apart) (IsDistinct-append l ls (ground (arith, new)) d)

is_present-has_ip :
    (t : ServerType) (ip : Text) (s : Server)
    → IsValid s
    → is_present_proto ip (port_for t s) s ≡ has_ip ip (protocols_for t s)
unfolding is_present_proto
is_present-has_ip for_auth ip s v = ground arith
is_present-has_ip for_acct ip s v = ground (arith, v.auth_acct)
is_present-has_ip for_coa ip s v = ground (arith, v.auth_coa, v.acct_coa)

with_listener-IsValid :
    (t : ServerType) (l : Listener) (s : Server)
    → has_ip l.ip (protocols_for t s) ≡ false
    → IsValid s
    → IsValid (set_protocols t (protocols_for t s ++ l ∷ []) s)
with_listener-IsValid for_auth l s new v = record {
  auth_acct = v.auth_acct;
  auth_coa = v.auth_coa;
  acct_coa = v.acct_coa;
  auths = IsDistinct-append l s.auth_protocols new v.auths;
  accts = v.accts;
  coas = v.coas;
}
with_listener-IsValid for_acct l s new v = record {
  auth_acct = v.auth_acct;
  auth_coa = v.auth_coa;
  acct_coa = v.acct_coa;
  auths = v.auths;
  accts = IsDistinct-append l s.acct_protocols new v.accts;
  coas = v.coas;
}
with_listener-IsValid for_coa l s new v = record {
  auth_acct = v.auth_acct;
  auth_coa = v.auth_coa;
  acct_coa = v.acct_coa;
  auths = v.auths;
  accts = v.accts;
  coas = IsDistinct-append l s.coa_protocols new v.coas;
}

add_protocol-IsValid :
    (enable : Bool) (t : ServerType) (addr : Text) (s : Server)
    → IsValid s
    → IsValid (add_protocol enable t addr s)
unfolding add_protocol connection_made
add_protocol-IsValid false t addr s v = v
add_protocol-IsValid true t addr s v = elim (Bool-cases (is_present_proto addr (port_for t s) s)) [
  | inl there ↦ rw there v
  | inr new ↦ rw new (
      with_listener-IsValid t (connection_made (new_listener addr (port_for t s))) s
        (sym (is_present-has_ip t addr s v) ∙ new) v)
]

add_all-IsValid :
    (enable_acct enable_auth enable_coa : Bool) (addresses : List Text) (s : Server)
    → IsValid s
    → IsValid (add_all enable_acct enable_auth enable_coa addresses s)
unfolding add_all
add_all-IsValid a b c [] s v = v
add_all-IsValid a b c (addr ∷ addresses) s v = add_all-IsValid a b c addresses _ (
    add_protocol-IsValid c for_coa addr _
      (add_protocol-IsValid b for_auth addr _ (add_protocol-IsValid a for_acct addr s v)))

-- Whatever addresses are given, also with repetitions, and whatever was initialized before: if the
-- three ports differ, `initialize_transports` leaves the protocols of each port with different
-- addresses.
pub initialize_transports-IsValid :
    (enable_acct enable_auth enable_coa : Bool) (addresses : List Text) (s : Server)
    → IsValid s
    → IsValid (initialize_transports enable_acct enable_auth enable_coa addresses s).1
unfolding initialize_transports
initialize_transports-IsValid a b c addresses s v = elim (Bool-cases (not a && not b && not c)) [
  | inl idle ↦ rw idle v
  | inr busy ↦ rw busy (add_all-IsValid a b c (or_local addresses) s v)
]
