-- ===== src/Packet/Authenticator/Keeping.antt =====
-- `create_raw_reply` of pyrad/packet.py keeps the packet but for its message authenticator.
use pyrad.Common.{ℕ, ◌++◌, none, some, [], ◌∷◌, Bytes, codes, take}
use pyrad.Common.Result.{Result, raise, value_error}
use pyrad.Common.Exec.{◌>>◌}
use pyrad.Externals.{Externals}
use pyrad.Encoding.{bytes}
use pyrad.Packet.State.{Packet}
use pyrad.Packet.Raw.{zeros16, encoded, raw_reply}
use pyrad.Packet.Encode.{encode_header}
use pyrad.Packet.Access.Keeping.{
  Keeps, Keeping, Keeps-refl, if-Keeps, >>=-Keeping, set_item-Keeping,
}
use pyrad.Packet.Authenticator.{
  is_set, set_message_authenticator, refresh_authenticator, refresh_message_authenticator,
  refresh_if_set, create_raw_reply,
}

module _ (x : Externals) (draw : ℕ → ℕ) where
  set_message_authenticator-Keeping : (b : Bytes) → Keeping (set_message_authenticator x draw b)
  unfolding set_message_authenticator
  set_message_authenticator-Keeping b =
      set_item-Keeping x draw (codes "Message-Authenticator") (bytes b ∷ [])

  pub refresh_message_authenticator-Keeping : Keeping (refresh_message_authenticator x draw)
  unfolding refresh_message_authenticator
  refresh_message_authenticator-Keeping =
      >>=-Keeping (set_message_authenticator x draw zeros16) _
        (set_message_authenticator-Keeping zeros16)
        (λ u.
          >>=-Keeping (λ p. (encoded p, p)) _ Keeps-refl
            (λ attr.
              >>=-Keeping (λ p. (encode_header p attr, p)) _ Keeps-refl
                (λ header.
                  >>=-Keeping (λ p. (refresh_authenticator x draw p, p)) _ Keeps-refl
                    (λ a p.
                      set_message_authenticator-Keeping
                        (x.hmac_md5 p.secret (take 4 header ++ (a ++ attr))) p))))

  pub refresh_if_set-Keeping : Keeping (refresh_if_set x draw)
  unfolding refresh_if_set
  refresh_if_set-Keeping p =
      if-Keeps (is_set p.message_authenticator) _ _ p (refresh_message_authenticator-Keeping p)
        (Keeps-refl p)

  pub create_raw_reply-Keeping : Keeping (create_raw_reply x draw)
  unfolding create_raw_reply
  create_raw_reply-Keeping p =
      elim p.authenticator
        as (λ o.
          Keeps p
            (elim o as (λ _. Result Bytes × Packet) [
              | none ↦ (raise value_error, p)
              | some a ↦ (do refresh_if_set x draw; λ q. (raw_reply x q, q)) p
            ]).1) [
              | none ↦ Keeps-refl p
              | some a ↦
                  >>=-Keeping (refresh_if_set x draw) (λ u q. (raw_reply x q, q))
                    refresh_if_set-Keeping (λ u. Keeps-refl) p
            ]
