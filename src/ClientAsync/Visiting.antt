-- ===== src/ClientAsync/Visiting.antt =====
-- What sending a pending request of pyrad/client_async.py again does to the table.
use pyrad.Common.{
  ℕ, ◌+◌, ◌≡◌, refl, ◌∙◌, ap, Bool, true, false, some, List, [], ◌∷◌, ◌++◌, Bytes, ◌==◌, Bool-cases,
  if◌then◌else◌, inl, inr,
}
use pyrad.Common.Eq.{nat_eq, beq_refl}
use pyrad.Common.Result.{Result, ok, raise, stuck}
use pyrad.Common.Exec.{pure, continue}
use pyrad.Common.Dict.{Dict, lookup, insert, contains, lookup-insert}
use pyrad.Externals.{Externals}
use pyrad.Packet.State.{Packet}
use pyrad.Packet.Authenticator.{create_raw_request}
use pyrad.ClientAsync.{
  Request, Outcome, timed_out, Protocol, complete, store, keep_packet, transmit, expired,
}

pub found_stored :
    (id : ℕ) (req : Request) (s : Protocol) → lookup id (store id req s).pending_requests ≡ some req
found_stored id req s = lookup-insert id id req s.pending_requests ∙ rw (beq_refl id) refl

module _ (x : Externals) (draw : ℕ → ℕ) where
  store_others :
      (id : ℕ) (req : Request) (j : ℕ) (d : Dict ℕ Request)
      → nat_eq.beq id j ≡ false
      → lookup j (insert id req d) ≡ lookup j d
  store_others id req j d b = lookup-insert id j req d ∙ rw b refl

  keep_packet_others :
      (id : ℕ) (req : Request) (o : Result Bytes × Packet) (s : Protocol) (j : ℕ)
      → nat_eq.beq id j ≡ false
      → lookup j (keep_packet id req o s).1.pending_requests ≡ lookup j s.pending_requests
  unfolding keep_packet
  keep_packet_others id req (ok raw, p) s j b =
      store_others id (record req { packet = p }) j s.pending_requests b
  keep_packet_others id req (raise e, p) s j b =
      store_others id (record req { packet = p }) j s.pending_requests b
  keep_packet_others id req (stuck, p) s j b =
      store_others id (record req { packet = p }) j s.pending_requests b

  if_others :
      {A B : Type 0} (b : Bool) (first second : A) (f : A → B) (out : B)
      → f first ≡ out
      → f second ≡ out
      → f (if b then first else second) ≡ out
  if_others true first second f out h k = h
  if_others false first second f out h k = k

  transmit_others :
      (random : Bytes) (id : ℕ) (req : Request) (s : Protocol) (j : ℕ)
      → nat_eq.beq id j ≡ false
      → lookup j (transmit x draw random id req s).1.pending_requests ≡ lookup j s.pending_requests
  unfolding transmit
  transmit_others random id req s j b =
      if_others s.is_open _ _ (λ (t : Result (Unit {0}) × Protocol). lookup j t.1.pending_requests)
        (lookup j s.pending_requests)
        (keep_packet_others id req (create_raw_request x draw random req.packet) s j b) refl

  continue-state :
      {A B : Type 0} (r : Result A) (b : A → B) (s : Protocol)
      → (continue r (λ a. pure (b a)) s).1 ≡ s
  continue-state (ok a) b s = refl
  continue-state (raise e) b s = refl
  continue-state stuck b s = refl

  complete_pending :
      (future : ℕ) (outcome : Outcome) (s : Protocol)
      → (complete future outcome s).1.pending_requests ≡ s.pending_requests
  unfolding complete
  complete_pending future outcome s = elim (Bool-cases (contains future s.completed)) [
    | inl done ↦ rw done refl
    | inr new ↦ rw new refl
  ]

  -- Visiting a request leaves the others as they are.
  pub expired_others :
      (now : ℕ) (random : Bytes) (id : ℕ) (req : Request) (ids : List ℕ) (s : Protocol) (j : ℕ)
      → nat_eq.beq id j ≡ false
      → lookup j (expired x draw now random id req ids s).1.pending_requests
        ≡ lookup j s.pending_requests
  unfolding expired
  expired_others now random id req ids s j b = elim (Bool-cases (req.retries == s.retries)) [
    | inl all ↦
        let o = complete req.future timed_out s in
        rw all (
          ap (λ (t : Protocol). lookup j t.pending_requests)
            (continue-state o.0 (λ _. ids ++ id ∷ []) o.1)
          ∙ ap (lookup j) (complete_pending req.future timed_out s))
    | inr some_left ↦
        let again : Request = record req { send_date = now; retries = req.retries + 1 } in
        let o = transmit x draw random id again (store id again s) in
        rw some_left (
          ap (λ (t : Protocol). lookup j t.pending_requests) (continue-state o.0 (λ _. ids) o.1)
          ∙ (transmit_others random id again (store id again s) j b
              ∙ store_others id again j s.pending_requests b))
  ]
