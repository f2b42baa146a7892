-- ===== src/Packet/Create.antt =====
-- The constructors of pyrad/packet.py, `create_reply` and the packet identifiers.
pub mod Decoded
pub mod Keeping
use pyrad.Common.{
  ℕ, ◌≡◌, ◌+◌, ◌%◌, Bool, Option, none, some, List, [], ◌∷◌, map, Bytes, Text, ◌==◌, if◌then◌else◌,
}
use pyrad.Common.Result.{Result, ok, raise, stuck}
use pyrad.Common.Exec.{Exec, pure, modify, ◌>>◌}
use pyrad.Dictionary.Types.{Dictionary}
use pyrad.Externals.{Externals}
use pyrad.Encoding.{Value}
use pyrad.Packet.PacketCode
use pyrad.Packet.State.{Kind, plain, auth, acct, coa, Packet}
use pyrad.Packet.Decode.{decode_packet}
use pyrad.Packet.Access.{add_attribute}

-- `create_id()`: `current_id` is global state
unfoldable pub create_id : ℕ → ℕ
create_id current_id = (current_id + 1) % 256

-- The keyword arguments `packet`, `message_authenticator` and all others, which are attributes.
pub record Args : Type 0 where
  pub packet : Option Bytes
  pub message_authenticator : Option Bool
  pub attributes : List (Text × List Value)

abbrev pub no_args : Args
no_args = record { packet = none; message_authenticator = none; attributes = [] }

-- `key.replace('_', '-')`
dashes : Text → Text
dashes = map (λ c. if c == b'_' then b'-' else c)

decode_argument : Option Bytes → Exec Packet (Unit {0})
decode_argument none = pure tt
decode_argument (some b) = decode_packet b

mark_argument : Option Bool → Packet → Packet
mark_argument none p = p
mark_argument (some b) p = record p { message_authenticator = some b }

-- the fields of a new object, before `Packet.__init__` decodes anything
abbrev pub new_object :
    Kind → ℕ → ℕ → Bytes → Option Bytes → Dictionary → Text → Option Bytes → Packet
new_object kind c id secret authenticator dict auth_type raw = record {
  kind = kind;
  code = c;
  id = id;
  secret = secret;
  authenticator = authenticator;
  message_authenticator = none;
  dict = dict;
  attrs = [];
  raw_packet = elim kind [ plain ↦ none | _ ↦ raw ];
  auth_type = auth_type;
}

finished : Result (Unit {0}) × Packet → Result Packet
finished (ok a, p) = ok p
finished (raise e, p) = raise e
finished (stuck, p) = stuck

abbrev pub reply_code : Kind → ℕ
reply_code plain = 0
reply_code auth = PacketCode.access_accept
reply_code acct = PacketCode.accounting_response
reply_code coa = PacketCode.coa_ack

abbrev pub from_wire : Bytes → Args
from_wire raw = record no_args { packet = some raw }

module _ (x : Externals) (draw : ℕ → ℕ) where
  add_attributes : List (Text × List Value) → Exec Packet (Unit {0})
  unfolding dashes
  add_attributes [] = pure tt
  add_attributes ((key, vs) ∷ rest) = do add_attribute x draw (dashes key) vs; add_attributes rest

  -- `Packet.__init__` on the fields of a new object
  unfoldable pub initialize : Args → Exec Packet (Unit {0})
  unfolding decode_argument mark_argument add_attributes
  initialize args = do
    decode_argument args.packet
    modify (mark_argument args.message_authenticator)
    add_attributes args.attributes

  -- The constructors of the four classes: the fields, then `Packet.__init__`. A subclass keeps the
  -- raw packet.
  unfoldable pub construct :
      Kind → ℕ → ℕ → Bytes → Option Bytes → Dictionary → Text → Args → Result Packet
  unfolding finished
  construct kind c id secret authenticator dict auth_type args =
      finished
        (initialize args (new_object kind c id secret authenticator dict auth_type args.packet))

  -- `create_reply` of the four classes
  unfoldable pub create_reply : Packet → Args → Result Packet
  unfolding construct
  create_reply p args =
      construct p.kind (reply_code p.kind) p.id p.secret p.authenticator p.dict p.auth_type args

  -- An object made from raw data alone is what `decode_packet` makes of a new object.
  pub construct-from_wire :
      (kind : Kind) (c id : ℕ) (secret : Bytes) (authenticator : Option Bytes) (dict : Dictionary)
      (auth_type : Text) (raw : Bytes) (r : Packet)
      → decode_packet raw (new_object kind c id secret authenticator dict auth_type (some raw))
        ≡ (ok tt, r)
      → construct kind c id secret authenticator dict auth_type (from_wire raw) ≡ ok r
  unfolding construct initialize
  construct-from_wire kind c id secret authenticator dict auth_type raw r h = rw h
