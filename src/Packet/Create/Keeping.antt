-- ===== src/Packet/Create/Keeping.antt =====
-- A reply that is made of a request, without raw data, answers it: it has its identifier, its secret,
-- its authenticator and its dictionary, whatever attributes it gets.
use mathlib.Core.Path.{subst}
use pyrad.Common.{ℕ, ◌≡◌, refl, none, some, List, [], ◌∷◌, Option, Bool, Bytes, Text}
use pyrad.Common.Result.{Result, ok, raise, stuck}
use pyrad.Common.Exec.{modify}
use pyrad.Externals.{Externals}
use pyrad.Encoding.{Value}
use pyrad.Packet.State.{Packet}
use pyrad.Packet.Access.Keeping.{Keeps, Keeping, Keeps-refl, >>=-Keeping, add_attribute-Keeping}
use pyrad.Packet.Access.{add_attribute}
use pyrad.Packet.Create.{
  Args, dashes, mark_argument, decode_argument, add_attributes, initialize, construct, create_reply,
  new_object, finished, reply_code,
}

module _ (x : Externals) (draw : ℕ → ℕ) where
  add_attributes-Keeping :
      (items : List (Text × List Value)) → Keeping (add_attributes x draw items)
  unfolding add_attributes
  add_attributes-Keeping [] = Keeps-refl
  add_attributes-Keeping ((key, vs) ∷ rest) =
      >>=-Keeping (add_attribute x draw (dashes key) vs) _
        (add_attribute-Keeping x draw (dashes key) vs) (λ u. add_attributes-Keeping rest)

  mark_argument-Keeping : (o : Option Bool) → Keeping (modify (mark_argument o))
  unfolding mark_argument
  mark_argument-Keeping none p = Keeps-refl p
  mark_argument-Keeping (some b) p = record {
    kind = refl;
    code = refl;
    id = refl;
    secret = refl;
    dict = refl;
    auth_type = refl;
    authenticator = λ a h. h;
  }

  finished-Keeps :
      (p r : Packet) (o : Result (Unit {0}) × Packet) → finished o ≡ ok r → Keeps p o.1 → Keeps p r
  unfolding finished
  finished-Keeps p r (ok u, q) h k = subst (Keeps p) (cc h) k
  finished-Keeps p r (raise e, q) h k = cc h
  finished-Keeps p r (stuck, q) h k = cc h

  decode_argument-Keeping : (o : Option Bytes) → o ≡ none → Keeping (decode_argument o)
  unfolding decode_argument
  decode_argument-Keeping none h = Keeps-refl
  decode_argument-Keeping (some b) h = cc h

  initialize-Keeping : (args : Args) → args.packet ≡ none → Keeping (initialize x draw args)
  unfolding initialize
  initialize-Keeping args fresh =
      >>=-Keeping (decode_argument args.packet) _ (decode_argument-Keeping args.packet fresh) (λ u.
        >>=-Keeping (modify (mark_argument args.message_authenticator))
          (λ v. add_attributes x draw args.attributes)
          (mark_argument-Keeping args.message_authenticator)
          (λ v. add_attributes-Keeping args.attributes))

  pub create_reply-Keeps :
      (p r : Packet) (args : Args)
      → args.packet ≡ none
      → create_reply x draw p args ≡ ok r
      → Keeps
          (new_object p.kind
            (reply_code p.kind)
            p.id
            p.secret
            p.authenticator
            p.dict
            p.auth_type
            args.packet)
          r
  unfolding create_reply construct
  create_reply-Keeps p r args fresh h =
      let o =
        new_object p.kind (reply_code p.kind) p.id p.secret p.authenticator p.dict p.auth_type
          args.packet in
      finished-Keeps o r (initialize x draw args o) h (initialize-Keeping args fresh o)

  -- What `create_reply` makes of a packet depends on these fields only.
  pub create_reply-same :
      (p q : Packet) (args : Args)
      → p.kind ≡ q.kind
      → p.id ≡ q.id
      → p.secret ≡ q.secret
      → p.authenticator ≡ q.authenticator
      → p.dict ≡ q.dict
      → p.auth_type ≡ q.auth_type
      → create_reply x draw p args ≡ create_reply x draw q args
  unfolding create_reply
  create_reply-same p q args hk hi hs ha hd ht = rw (hk, hi, hs, ha, hd, ht) refl
