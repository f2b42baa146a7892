-- ===== src/Packet/Reply/Created.antt =====
-- A reply that `create_reply` made, with any attributes, and that `create_raw_reply` wrote.
use mathlib.Core.Path.{subst}
use pyrad.Common.{ℕ, ◌≤◌, ◌≡◌, sym, ◌∙◌, ap, true, none, some, Bytes, length}
use pyrad.Common.Result.{Result, ok}
use pyrad.Common.Dict.{HasDistinctKeys}
use pyrad.Dictionary.Types.{key_eq_instance}
use pyrad.Externals.{Externals}
use pyrad.Packet.State.{Packet}
use pyrad.Packet.Decode.RoundTrip.{IsPlain}
use pyrad.Packet.Authenticator.{create_raw_reply}
use pyrad.Packet.Authenticator.Keeping.{create_raw_reply-Keeping}
use pyrad.Packet.Access.Keeping.{Keeps}
use pyrad.Packet.Create.{Args, create_reply, from_wire}
use pyrad.Packet.Create.Keeping.{create_reply-Keeps}
use pyrad.Packet.Reply.{verify_reply}
use pyrad.Packet.Reply.Accepted.{reply_accepted}

abbrev pub with_code : ℕ → Packet → Packet
with_code c p = record p { code = c }

module _ (x : Externals) (draw : ℕ → ℕ) where
  -- What a reply to `p` has of `p` once it is written.
  pub record IsReplyTo (p q : Packet) : Type 0 where
    pub id : q.id ≡ p.id
    pub secret : q.secret ≡ p.secret
    pub dict : q.dict ≡ p.dict
    pub authenticator : (a : Bytes) → p.authenticator ≡ some a → q.authenticator ≡ some a

  pub created_reply-IsReplyTo :
      (p reply q : Packet) (args : Args) (c : ℕ) (raw : Bytes)
      → args.packet ≡ none
      → create_reply x draw p args ≡ ok reply
      → create_raw_reply x draw (with_code c reply) ≡ (ok raw, q)
      → IsReplyTo p q × (q.code ≡ c)
  created_reply-IsReplyTo p reply q args c raw fresh made written =
      let k = create_reply-Keeps x draw p reply args fresh made in
      let l : Keeps (with_code c reply) q =
        subst (Keeps (with_code c reply)) (ap (λ (r : Result Bytes × Packet). r.1) written)
          (create_raw_reply-Keeping x draw (with_code c reply)) in
      (
        record {
          id = l.id ∙ k.id;
          secret = l.secret ∙ k.secret;
          dict = l.dict ∙ k.dict;
          authenticator = λ a h. l.authenticator a (k.authenticator a h);
        },
        l.code,
      )

  -- Let `create_reply` of `p` make a reply with any keyword arguments but raw data, let its code be
  -- set to `c`, and let `create_raw_reply` write it as `raw`, of at most 4096 bytes, with plain
  -- attributes and distinct keys, where `p` has an authenticator. Then `create_reply(packet=raw)` of
  -- `p` decodes `raw` to a packet with the code `c`, the identifier of `p` and the attributes that
  -- were written, and `verify_reply` of `p` accepts it.
  pub created_reply_accepted :
      (p reply q : Packet) (args : Args) (c : ℕ) (a raw : Bytes)
      → args.packet ≡ none
      → p.authenticator ≡ some a
      → create_reply x draw p args ≡ ok reply
      → create_raw_reply x draw (with_code c reply) ≡ (ok raw, q)
      → IsPlain q.dict q.attrs
      → HasDistinctKeys q.attrs
      → length raw ≤ 4096
      → (r : Packet) × (create_reply x draw p (from_wire raw) ≡ ok r)
        × (r.code ≡ c)
        × (r.id ≡ p.id)
        × (r.attrs ≡ q.attrs)
        × (verify_reply x draw p (some raw) r ≡ (ok true, r))
  created_reply_accepted p reply q args c a raw fresh there made written flat distinct short =
      let (k, code) = created_reply-IsReplyTo p reply q args c raw fresh made written in
      let (r, created, code', id, attrs, verified) =
        reply_accepted x draw p (with_code c reply) q raw written k.id k.secret
          (k.authenticator a there ∙ sym there) k.dict flat distinct short in
      (r, created, code' ∙ code, id ∙ k.id, attrs, verified)
