-- ===== src/Packet/Reply.antt =====
-- `verify_reply` of pyrad/packet.py.
pub mod Accepted
pub mod Empty
pub mod Created
use pyrad.Common.{ℕ, Bool, true, false, Option, none, some, Bytes, ◌==◌, if◌then◌else◌}
use pyrad.Common.Result.{Result, ok}
use pyrad.Common.Exec.{Exec, pure, lift, ◌>>=◌}
use pyrad.Externals.{Externals}
use pyrad.Packet.State.{Packet}
use pyrad.Packet.Raw.{encoded}
use pyrad.Packet.Authenticator.{create_raw_reply}
use pyrad.Packet.Authenticator.Verify.{reply_matches}

module _ (x : Externals) (draw : ℕ → ℕ) where
  -- `if rawreply is None: rawreply = reply.create_raw_reply()`
  raw_form : Option Bytes → Exec Packet Bytes
  raw_form none = create_raw_reply x draw
  raw_form (some raw) = pure raw

  -- An action on the reply.
  unfoldable pub verify_reply : Packet → Option Bytes → Exec Packet Bool
  unfolding raw_form
  verify_reply p rawreply reply =
      if reply.id == p.id
      then (do
        raw ← raw_form rawreply
        attr ← λ r. (encoded r, r)
        lift (reply_matches x p raw attr))
          reply
      else (ok false, reply)
