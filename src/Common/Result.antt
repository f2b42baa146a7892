-- ===== src/Common/Result.antt =====
-- What a Python call does: it returns, raises an exception, or does not come back (`stuck`, the
-- model's loop ran out of fuel). An exception handler never sees `stuck`.
use mathlib.Core.Path.{◌≡◌, refl}
use mathlib.Core.Bool.{Bool, true, false}
use mathlib.Core.Option.{Option, none, some}

-- The exceptions that the modelled code raises. The text of a message is a constructor where the
-- code can raise it.
pub data Error : Type 0 where
  key_error value_error type_error attribute_error index_error struct_error : Error
  os_error stop_iteration not_implemented unicode_error : Error
  -- packet.PacketError
  header_corrupt invalid_length too_long attribute_header_corrupt attribute_too_small : Error
  verification_failed : Error
  -- Exception('...')
  no_authenticator no_message_authenticator missing_original : Error
  already_present transport_not_initialized unsupported_packet : Error
  no_transports missing_id : Error
  -- asyncio.InvalidStateError
  invalid_state : Error
  -- client.Timeout
  timeout : Error
  -- dictionary.ParseError
  bad_tokens bad_encryption unknown_vendor nested_tlvs illegal_type unknown_attribute : Error
  unknown_option bad_format bad_vendor_syntax non_open_vendor : Error
  -- server.ServerPacketError
  unknown_host wrong_port unknown_handler not_response response_packet : Error

pub data Result {ℓ} (A : Type ℓ) : Type ℓ where
  ok : A → Result A
  raise : Error → Result A
  stuck : Result A

infixl 5 ◌>>=◌ ◌>>◌
abbrev pub ◌>>=◌ {ℓ κ} : {A : Type ℓ} {B : Type κ} → Result A → (A → Result B) → Result B
raise e >>= next = raise e
stuck >>= next = stuck
ok value >>= next = next value

abbrev pub ◌>>◌ {ℓ κ} : {A : Type ℓ} {B : Type κ} → Result A → Result B → Result B
m >> k = m >>= λ _. k

-- `d[k]`, for what a lookup finds
abbrev pub or_raise {ℓ} : {A : Type ℓ} → Error → Option A → Result A
or_raise e none = raise e
or_raise e (some a) = ok a

-- `assert`-like guards: `if not b: raise e`
abbrev pub guard : Bool → Error → Result (Unit {0})
guard true e = ok tt
guard false e = raise e

-- A chain that returned: its first call returned, and so did the rest.
pub >>=-eq-ok {ℓ κ} :
    {A : Type ℓ} {B : Type κ} (call : Result A) (next : A → Result B) {b : B}
    → (call >>= next) ≡ ok b
    → (value : A) × (call ≡ ok value) × (next value ≡ ok b)
>>=-eq-ok stuck next returned = cc
>>=-eq-ok (raise e) next returned = cc
>>=-eq-ok (ok value) next returned = (value, refl, returned)

-- the exceptions that are `packet.PacketError`
abbrev pub is_packet_error : Error → Bool
is_packet_error header_corrupt = true
is_packet_error invalid_length = true
is_packet_error too_long = true
is_packet_error attribute_header_corrupt = true
is_packet_error attribute_too_small = true
is_packet_error verification_failed = true
is_packet_error _ = false

-- the exceptions that are `server.ServerPacketError`
abbrev pub is_server_packet_error : Error → Bool
is_server_packet_error unknown_host = true
is_server_packet_error wrong_port = true
is_server_packet_error unknown_handler = true
is_server_packet_error not_response = true
is_server_packet_error response_packet = true
is_server_packet_error _ = false

pub or_raise-eq-ok {ℓ} :
    {A : Type ℓ} (e : Error) (o : Option A) (a : A) → or_raise e o ≡ ok a → o ≡ some a
or_raise-eq-ok e none a h = cc
or_raise-eq-ok e (some b) a h = cc
