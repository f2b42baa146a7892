-- ===== src/ClientAsync/Replies.antt =====
-- What a datagram does to the pending requests of pyrad/client_async.py.
use pyrad.Common.{
  ℕ, ◌≡◌, ◌≢◌, ◌⊎◌, refl, Bool, true, false, Option, none, some, [], ◌∷◌, ◌++◌, Bytes, Option-cases,
  inl, inr,
}
use pyrad.Common.Eq.{nat_eq}
use pyrad.Common.Result.{Error, Result, ok, raise, stuck}
use pyrad.Common.Dict.{Dict, lookup, remove}
use pyrad.Dictionary.Types.{Key}
use pyrad.Externals.{Externals}
use pyrad.Packet.State.{Slot, plain, Packet}
use pyrad.Packet.Create.{from_wire}
use pyrad.Packet.Reply.{verify_reply}
use pyrad.Host.{create}
use pyrad.ClientAsync.{
  Request, Outcome, replied, Protocol, complete, complete_if, logged, matched, reply_for,
  datagram_received, truth,
}

truth_cases :
    (p : Packet) → ((truth p ≡ true) × (p.attrs ≢ [])) ⊎ ((truth p ≡ false) × (p.attrs ≡ []))
unfolding truth
truth_cases p = by_items p.attrs
  where
    by_items :
        (items : Dict Key Slot)
        → ((elim items [ [] ↦ Bool.false | item ∷ rest ↦ Bool.true ] ≡ true) × (items ≢ []))
          ⊎ ((elim items [ [] ↦ Bool.false | item ∷ rest ↦ Bool.true ] ≡ false) × (items ≡ []))
    by_items [] = inr (refl, refl)
    by_items (item ∷ items) = inl (refl, λ e. cc e)

module _ (x : Externals) (draw : ℕ → ℕ) where
  -- what `verify_reply` of a request says about a packet, which gets the request's dictionary and secret
  abbrev pub verdict : Bytes → Request → Packet → Result Bool × Packet
  verdict datum req p =
      verify_reply x draw req.packet (some datum)
        (record p { dict = req.packet.dict; secret = req.packet.secret })

  -- What a datagram does, by the packet that is made of it, `decoded`, and by what `verify_reply` of
  -- the pending request with its identifier says about it.
  pub data Effect (datum : Bytes) (s : Protocol) (decoded : Result Packet)
      : Result (Unit {0}) × Protocol → Type 0 where
    undecodable : {e : Error} → decoded ≡ raise e → Effect datum s decoded (ok tt, s)
    decoding_hangs : decoded ≡ stuck → Effect datum s decoded (stuck, s)
    without_attributes :
        {p : Packet} → decoded ≡ ok p → p.attrs ≡ [] → Effect datum s decoded (ok tt, s)
    unexpected :
        {p : Packet}
        → decoded ≡ ok p
        → lookup p.id s.pending_requests ≡ none
        → Effect datum s decoded (ok tt, s)
    rejected :
        {p reply : Packet} {req : Request}
        → decoded ≡ ok p
        → lookup p.id s.pending_requests ≡ some req
        → verdict datum req p ≡ (ok false, reply)
        → Effect datum s decoded (ok tt, s)
    unverifiable :
        {p reply : Packet} {req : Request} {e : Error}
        → decoded ≡ ok p
        → lookup p.id s.pending_requests ≡ some req
        → verdict datum req p ≡ (raise e, reply)
        → Effect datum s decoded (ok tt, s)
    verification_hangs :
        {p reply : Packet} {req : Request}
        → decoded ≡ ok p
        → lookup p.id s.pending_requests ≡ some req
        → verdict datum req p ≡ (stuck, reply)
        → Effect datum s decoded (stuck, s)
    too_late :
        {p reply : Packet} {req : Request} {outcome : Outcome}
        → decoded ≡ ok p
        → lookup p.id s.pending_requests ≡ some req
        → verdict datum req p ≡ (ok true, reply)
        → lookup req.future s.completed ≡ some outcome
        → Effect datum s decoded (ok tt, s)
    completes :
        {p reply : Packet} {req : Request}
        → decoded ≡ ok p
        → p.attrs ≢ []
        → lookup p.id s.pending_requests ≡ some req
        → verdict datum req p ≡ (ok true, reply)
        → lookup req.future s.completed ≡ none
        → Effect datum s decoded (
          ok tt,
          record s {
            completed = s.completed ++ (req.future, replied reply) ∷ [];
            pending_requests = remove p.id s.pending_requests;
          },
        )

  complete_if-Effect :
      (datum : Bytes) (req : Request) (p : Packet) (o : Result Bool × Packet) (s : Protocol)
      → p.attrs ≢ []
      → lookup p.id s.pending_requests ≡ some req
      → verdict datum req p ≡ o
      → Effect datum s (ok p) (logged (complete_if p.id req o s))
  unfolding complete_if complete logged
  complete_if-Effect datum req p (ok true, reply) s t found h =
      elim (Option-cases (lookup req.future s.completed)) [
        | inl new ↦ rw new (completes refl t found h new)
        | inr (done, e) ↦ rw e (too_late refl found h e)
      ]
  complete_if-Effect datum req p (ok false, reply) s t found h = rejected refl found h
  complete_if-Effect datum req p (raise e, reply) s t found h = unverifiable refl found h
  complete_if-Effect datum req p (stuck, reply) s t found h = verification_hangs refl found h

  matched-Effect :
      (datum : Bytes) (p : Packet) (o : Option Request) (s : Protocol)
      → p.attrs ≢ []
      → lookup p.id s.pending_requests ≡ o
      → Effect datum s (ok p) (logged (matched x draw datum p o s))
  unfolding matched logged
  matched-Effect datum p none s t found = unexpected refl found
  matched-Effect datum p (some req) s t found =
      complete_if-Effect datum req p (verdict datum req p) s t found refl

  reply_for-Effect :
      (datum : Bytes) (r : Result Packet) (s : Protocol)
      → Effect datum s r (logged (reply_for x draw datum r s))
  unfolding reply_for logged
  reply_for-Effect datum (ok p) s = elim (truth_cases p) [
    | inl (t, some_attr) ↦
        rw t (matched-Effect datum p (lookup p.id s.pending_requests) s some_attr refl)
    | inr (f, no_attr) ↦ rw f (without_attributes refl no_attr)
  ]
  reply_for-Effect datum (raise e) s = undecodable refl
  reply_for-Effect datum stuck s = decoding_hangs refl

  -- Whatever datagram comes, from anyone, in whatever state: with the packet that
  -- `Packet(packet=data, dict=self.client.dict)` makes of it, the datagram completes the future of
  -- the pending request with the identifier of this packet, with the reply as `verify_reply` of that
  -- request leaves it, removes the request and changes nothing else, where the packet has an
  -- attribute, `verify_reply` accepts it with the dictionary and the secret of the request, and the
  -- future has no outcome. In every other case the state stays as it was: the method returns where
  -- the packet cannot be decoded, has no attributes or answers no pending request, where
  -- `verify_reply` rejects it or raises, and where the future has an outcome; it hangs where the
  -- decoding or the verification does. It never raises.
  pub datagram_received-Effect :
      (id : ℕ) (datum : Bytes) (s : Protocol)
      → Effect datum s
          (create x draw plain [] id s.dict (from_wire datum))
          (datagram_received x draw id datum s)
  unfolding datagram_received
  datagram_received-Effect id datum s =
      reply_for-Effect datum (create x draw plain [] id s.dict (from_wire datum)) s

  -- A reply without attributes is ignored, verified or not, since a packet without attributes is
  -- false: the request that it answers stays pending.
  pub empty_reply_ignored :
      (id : ℕ) (datum : Bytes) (s : Protocol) (reply : Packet)
      → create x draw plain [] id s.dict (from_wire datum) ≡ ok reply
      → reply.attrs ≡ []
      → datagram_received x draw id datum s ≡ (ok tt, s)
  unfolding datagram_received reply_for truth
  empty_reply_ignored id datum s reply decoded empty = rw (decoded, empty) refl
