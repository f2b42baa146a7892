-- ===== src/Encoding/Abinary.antt =====
-- `encode_ascend_binary` of pyrad/encoding.py.
use pyrad.Common.{ℕ, ◌&&◌, List, [], ◌∷◌, ◌++◌, Bytes, Text, codes, replicate, if◌then◌else◌}
use pyrad.Common.Eq.{text_eq}
use pyrad.Common.Int.{pos}
use pyrad.Common.Struct.{pack_uint}
use pyrad.Common.Strs.{parse_int, split_on}
use pyrad.Common.Result.{Result, ok, raise, ◌>>=◌, value_error, or_raise}
use pyrad.Externals.{Externals}

-- the dict `terms`
pub record Terms : Type 0 where
  pub family : Bytes
  pub action : Bytes
  pub direction : Bytes
  pub src : Bytes
  pub dst : Bytes
  pub srcl : Bytes
  pub dstl : Bytes
  pub proto : Bytes
  pub sport : Bytes
  pub dport : Bytes
  pub sportq : Bytes
  pub dportq : Bytes

abbrev zeros : ℕ → Bytes
zeros n = replicate n 0

abbrev pub default_terms : Terms
default_terms = record {
  family = 1 ∷ [];
  action = 0 ∷ [];
  direction = 1 ∷ [];
  src = zeros 4;
  dst = zeros 4;
  srcl = 0 ∷ [];
  dstl = 0 ∷ [];
  proto = 0 ∷ [];
  sport = zeros 2;
  dport = zeros 2;
  sportq = 0 ∷ [];
  dportq = 0 ∷ [];
}

-- `if terms['src'] == b'\x00\x00\x00\x00': terms['src'] = 16 * b'\x00'`
widened : Bytes → Bytes
widened b = if text_eq b (zeros 4) then zeros 16 else b

packed_number : ℕ → Text → Result Bytes
packed_number w value = do n ← or_raise value_error (parse_int 10 value); pack_uint w n

module _ (x : Externals) where
  network : Text → Result (Bytes × Bytes)
  network value = do
    (prefixlen, packed) ← or_raise value_error (x.ip_network value)
    l ← pack_uint 1 (pos prefixlen)
    ok (packed, l)

  -- the body of the loop, for one `key=value`
  set_term : Text → Text → Terms → Result Terms
  unfolding widened packed_number network
  set_term key value t =
      if text_eq key (codes "family") && text_eq value (codes "ipv6")
      then ok (record t { family = 3 ∷ []; src = widened t.src; dst = widened t.dst })
      else if text_eq key (codes "action") && text_eq value (codes "accept")
      then ok (record t { action = 1 ∷ [] })
      else if text_eq key (codes "direction") && text_eq value (codes "out")
      then ok (record t { direction = 0 ∷ [] })
      else if text_eq key (codes "src")
      then (do (packed, l) ← network value; ok (record t { src = packed; srcl = l }))
      else if text_eq key (codes "dst")
      then (do (packed, l) ← network value; ok (record t { dst = packed; dstl = l }))
      else if text_eq key (codes "sport")
      then (do b ← packed_number 2 value; ok (record t { sport = b }))
      else if text_eq key (codes "dport")
      then (do b ← packed_number 2 value; ok (record t { dport = b }))
      else if text_eq key (codes "sportq")
      then (do b ← packed_number 1 value; ok (record t { sportq = b }))
      else if text_eq key (codes "dportq")
      then (do b ← packed_number 1 value; ok (record t { dportq = b }))
      else if text_eq key (codes "proto")
      then (do b ← packed_number 1 value; ok (record t { proto = b }))
      else ok t

  -- `key, value = t.split('=')`
  set_pair : List Text → Terms → Result Terms
  set_pair (key ∷ value ∷ []) t = set_term key value t
  set_pair _ t = raise value_error

  set_terms : List Text → Terms → Result Terms
  set_terms [] t = ok t
  set_terms (s ∷ ss) t = do t' ← set_pair (split_on b'=' s) t; set_terms ss t'

  unfoldable pub encode_ascend_binary : Text → Result Bytes
  unfolding set_terms set_pair set_term
  encode_ascend_binary s = do
    t ← set_terms (split_on b' ' s) default_terms
    ok (
        t.family
        ++ (t.action
            ++ (t.direction
                ++ (0
                    ∷ (t.src
                        ++ (t.dst
                            ++ (t.srcl
                                ++ (t.dstl
                                    ++ (t.proto
                                        ++ (0
                                            ∷ (t.sport
                                                ++ (t.dport
                                                    ++ (t.sportq
                                                        ++ (t.dportq
                                                            ++ (0 ∷ 0 ∷ zeros 8)))))))))))))))
