-- ===== src/ClientAsync/Genuine.antt =====
-- The genuine reply to a pending request of pyrad/client_async.py.
use pyrad.Common.{
  ℕ, ◌≤◌, ◌≡◌, ◌≢◌, refl, sym, ◌∙◌, ap, Bool, true, none, some, [], ◌∷◌, ◌++◌, Bytes, codes, length,
}
use pyrad.Common.Eq.{nat_eq}
use pyrad.Common.Result.{ok}
use pyrad.Common.Dict.{Dict, lookup, remove, HasDistinctKeys}
use pyrad.Externals.{Externals}
use pyrad.Dictionary.Types.{Key, key_eq_instance}
use pyrad.Packet.State.{Slot, plain, Packet}
use pyrad.Packet.Decode.RoundTrip.{IsPlain}
use pyrad.Packet.Authenticator.{create_raw_reply}
use pyrad.Packet.Create.{from_wire}
use pyrad.Packet.Reply.{verify_reply}
use pyrad.Packet.Reply.Accepted.{create_raw_reply_shape, written_reply_decodes, verify_reply-raw}
use pyrad.Host.{create, default_code}
use pyrad.ClientAsync.{
  Request, replied, Protocol, complete, complete_if, matched, reply_for, logged, datagram_received,
  truth,
}

truth_lem : (p : Packet) → p.attrs ≢ [] → truth p ≡ true
unfolding truth
truth_lem p h = by_items p.attrs h
  where
    by_items :
        (items : Dict Key Slot)
        → items ≢ []
        → elim items [ [] ↦ Bool.false | item ∷ rest ↦ true ] ≡ true
    by_items [] h = absurd (h refl)
    by_items (item ∷ rest) h = refl

module _ (x : Externals) (draw : ℕ → ℕ) where
  -- the state with the outcome of the request with identifier `i`
  abbrev answered : Protocol → Request → Packet → ℕ → Protocol
  answered s req r i = record s {
    completed = s.completed ++ (req.future, replied r) ∷ [];
    pending_requests = remove i s.pending_requests;
  }

  reply_for-verified :
      (datum : Bytes) (fresh r : Packet) (req : Request) (s : Protocol)
      → truth fresh ≡ true
      → lookup fresh.id s.pending_requests ≡ some req
      → lookup req.future s.completed ≡ none
      → verify_reply x draw req.packet
          (some datum)
          (record fresh { dict = req.packet.dict; secret = req.packet.secret })
        ≡ (ok true, r)
      → logged (reply_for x draw datum (ok fresh) s) ≡ (ok tt, answered s req r fresh.id)
  unfolding reply_for matched complete_if complete logged
  reply_for-verified datum fresh r req s t found open_future verified =
      rw (t, found, verified, open_future) refl

  -- Let a request be pending under its identifier, its future without an outcome, with a packet that
  -- has the dictionary of the protocol, with which the datagram is decoded. Let a server with the
  -- secret, the authenticator and the dictionary of the request write the reply `raw` with
  -- `create_raw_reply`, with at least one attribute, all of them plain and with distinct keys, in at
  -- most 4096 bytes, and with the identifier of the request. Then the datagram `raw` completes the
  -- future with a reply that has the server's code, identifier and attributes, removes the request,
  -- and changes nothing else.
  pub genuine_reply_completes :
      (id : ℕ) (s : Protocol) (req : Request) (q q' : Packet) (raw : Bytes)
      → create_raw_reply x draw q ≡ (ok raw, q')
      → lookup q'.id s.pending_requests ≡ some req
      → q'.id ≡ req.packet.id
      → lookup req.future s.completed ≡ none
      → q'.secret ≡ req.packet.secret
      → q'.authenticator ≡ req.packet.authenticator
      → q'.dict ≡ req.packet.dict
      → q'.dict ≡ s.dict
      → q'.attrs ≢ []
      → IsPlain q'.dict q'.attrs
      → HasDistinctKeys q'.attrs
      → length raw ≤ 4096
      → (r : Packet) × (datagram_received x draw id raw s ≡ (
        ok tt,
        record s {
          completed = s.completed ++ (req.future, replied r) ∷ [];
          pending_requests = remove q'.id s.pending_requests;
        },
      ))
        × (r.code ≡ q'.code)
        × (r.id ≡ q'.id)
        × (r.attrs ≡ q'.attrs)
  unfolding datagram_received create default_code
  genuine_reply_completes id s req q q' raw written found same open_future hs ha hd hd' some_attr
        plain_attrs distinct short =
      let w = create_raw_reply_shape x draw q q' raw written in
      let (fresh, made, v) =
        written_reply_decodes x draw q' raw plain 0 id [] none (codes "pap") w plain_attrs distinct
          short in
      let r : Packet = record fresh { dict = req.packet.dict; secret = req.packet.secret } in
      let received : create x draw plain [] id s.dict (from_wire raw) ≡ ok fresh =
        rw (← hd') made in
      let verified =
        verify_reply-raw x draw req.packet q' r raw w hs ha (v.id ∙ same) (sym hd) v.attrs in
      (
        r,
        ap (λ o. logged (reply_for x draw raw o s)) received
            ∙ (reply_for-verified raw fresh r req s
                  (truth_lem fresh (λ e. some_attr (sym v.attrs ∙ e)))
                  (ap (λ i. lookup i s.pending_requests) v.id ∙ found) open_future verified
                ∙ ap (λ i. (ok tt, answered s req r i)) v.id),
        v.code,
        v.id,
        v.attrs,
      )
