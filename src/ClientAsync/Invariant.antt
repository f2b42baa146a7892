-- ===== src/ClientAsync/Invariant.antt =====
-- What holds of the protocol of pyrad/client_async.py in every order of its events.
use pyrad.Common.{
  ℕ, suc, ◌+◌, ◌*◌, length, length-append, ◌≤◌, ◌<◌, ◌≡◌, refl, Bool, true, false, Option, none,
  some, List, [], ◌∷◌, Bytes, All, if◌then◌else◌, arith, Bool-cases, inl, inr,
}
use pyrad.Common.Eq.{nat_eq}
use pyrad.Common.Result.{Result, ok, raise, stuck}
use pyrad.Common.Exec.{Exec, continue}
use pyrad.Common.Dict.Entries.{insert-All, remove-All}
use pyrad.Common.Dict.{
  lookup, insert, contains, is_some, HasDistinctKeys, insert-HasDistinctKeys,
  remove-HasDistinctKeys, insert_fresh,
}
use pyrad.Packet.State.{Packet}
use pyrad.ClientAsync.Budget.{owed, owed-insert_old, owed-remove}
use pyrad.ClientAsync.{
  Request, Outcome, replied, Protocol, complete, forget, store, forget_all, create_id, keep_packet,
  complete_if, logged,
}

pub is_some-none : {V : Type 0} (o : Option V) → is_some o ≡ false → o ≡ none
is_some-none none h = refl
is_some-none (some v) h = cc h

-- The entries have been sent again at most `n` times.
abbrev pub IsBounded : ℕ → ℕ × Request → Type 0
IsBounded n e = e.1.retries ≤ n

-- The datagrams that have been sent and those that the pending requests may still cost are at most
-- `n + 1` for each of the `k` requests that were taken over; no pending request has been sent again
-- more than `n` times; each future is completed once at most; identifiers are bytes.
pub record IsValid (n k : ℕ) (s : Protocol) : Type 0 where
  pub same_retries : s.retries ≡ n
  pub one_request : HasDistinctKeys s.pending_requests
  pub bounded : All (IsBounded n) s.pending_requests
  pub budget : length s.sent + owed n s.pending_requests ≤ k * suc n
  pub completed_once : HasDistinctKeys s.completed
  pub id_bound : s.packet_id < 256

module _ (n k : ℕ) where
  abbrev pub Keeps : {A : Type 0} → Exec Protocol A → Type 0
  Keeps m = (s : Protocol) → IsValid n k s → IsValid n k (m s).1

  pub continue-IsValid :
      {A B : Type 0} (r : Result A) (f : A → Exec Protocol B) (s : Protocol)
      → IsValid n k s
      → ((a : A) → IsValid n k (f a s).1)
      → IsValid n k (continue r f s).1
  continue-IsValid (ok a) f s v h = h a
  continue-IsValid (raise e) f s v h = v
  continue-IsValid stuck f s v h = v

  pub if-IsValid :
      {A : Type 0} (b : Bool) (first second : Result A × Protocol)
      → IsValid n k first.1
      → IsValid n k second.1
      → IsValid n k (if b then first else second).1
  if-IsValid true first second h k = h
  if-IsValid false first second h k = k

  pub complete-IsValid : (future : ℕ) (outcome : Outcome) → Keeps (complete future outcome)
  unfolding complete
  complete-IsValid future outcome s v = elim (Bool-cases (contains future s.completed)) [
    | inl done ↦ rw done v
    | inr new ↦ rw new (record {
      same_retries = v.same_retries;
      one_request = v.one_request;
      bounded = v.bounded;
      budget = v.budget;
      completed_once =
          rw
            (insert_fresh future outcome s.completed (is_some-none (lookup future s.completed) new))
            at (insert-HasDistinctKeys future outcome s.completed v.completed_once);
      id_bound = v.id_bound;
    })
  ]

  forget-IsValid : (id : ℕ) (s : Protocol) → IsValid n k s → IsValid n k (forget id s)
  forget-IsValid id s v = record {
    same_retries = v.same_retries;
    one_request = remove-HasDistinctKeys id s.pending_requests v.one_request;
    bounded = remove-All (IsBounded n) id s.pending_requests v.bounded;
    budget = omega (arith, v.budget, owed-remove n id s.pending_requests);
    completed_once = v.completed_once;
    id_bound = v.id_bound;
  }

  pub store-IsValid :
      (id : ℕ) (req : Request) (s : Protocol)
      → req.retries ≤ n
      → length s.sent + owed n (insert id req s.pending_requests) ≤ k * suc n
      → IsValid n k s
      → IsValid n k (store id req s)
  store-IsValid id req s few spare v = record {
    same_retries = v.same_retries;
    one_request = insert-HasDistinctKeys id req s.pending_requests v.one_request;
    bounded = insert-All (IsBounded n) id req s.pending_requests (λ i. few) v.bounded;
    budget = spare;
    completed_once = v.completed_once;
    id_bound = v.id_bound;
  }

  pub forget_all-IsValid :
      (ids : List ℕ) (s : Protocol) → IsValid n k s → IsValid n k (forget_all ids s)
  unfolding forget_all
  forget_all-IsValid [] s v = v
  forget_all-IsValid (id ∷ ids) s v = forget_all-IsValid ids (forget id s) (forget-IsValid id s v)

  pub create_id-IsValid : Keeps create_id
  unfolding create_id
  create_id-IsValid s v = record {
    same_retries = v.same_retries;
    one_request = v.one_request;
    bounded = v.bounded;
    budget = v.budget;
    completed_once = v.completed_once;
    id_bound = omega arith;
  }

  -- Writing an entry again with another packet leaves what it may cost.
  owed-same :
      (id : ℕ) (req : Request) (p : Packet) (s : Protocol)
      → lookup id s.pending_requests ≡ some req
      → owed n (insert id (record req { packet = p }) s.pending_requests)
        ≡ owed n s.pending_requests
  owed-same id req p s found =
      omega (arith, owed-insert_old n id (record req { packet = p }) req s.pending_requests found)

  -- The entry stands in the table, and there is one datagram to spare.
  pub keep_packet-IsValid :
      (id : ℕ) (req : Request) (o : Result Bytes × Packet) (s : Protocol)
      → req.retries ≤ n
      → lookup id s.pending_requests ≡ some req
      → length s.sent + owed n s.pending_requests + 1 ≤ k * suc n
      → IsValid n k s
      → IsValid n k (keep_packet id req o s).1
  unfolding keep_packet
  keep_packet-IsValid id req (ok raw, p) s few found spare v =
      let same = owed-same id req p s found in
      let w = store-IsValid id (record req { packet = p }) s few (omega (arith, same, spare)) v in
      record {
        same_retries = w.same_retries;
        one_request = w.one_request;
        bounded = w.bounded;
        budget = omega (arith, same, spare, length-append s.sent (raw ∷ []));
        completed_once = w.completed_once;
        id_bound = w.id_bound;
      }
  keep_packet-IsValid id req (raise e, p) s few found spare v =
      let same = owed-same id req p s found in
      store-IsValid id (record req { packet = p }) s few (omega (arith, same, spare)) v
  keep_packet-IsValid id req (stuck, p) s few found spare v =
      let same = owed-same id req p s found in
      store-IsValid id (record req { packet = p }) s few (omega (arith, same, spare)) v

  pub complete_if-IsValid :
      (id : ℕ) (req : Request) (o : Result Bool × Packet) → Keeps (complete_if id req o)
  unfolding complete_if
  complete_if-IsValid id req (ok true, reply) s v =
      let done = complete req.future (replied reply) s in
      continue-IsValid done.0 _ done.1 (complete-IsValid req.future (replied reply) s v)
        (λ _. forget-IsValid id done.1 (complete-IsValid req.future (replied reply) s v))
  complete_if-IsValid id req (ok false, reply) s v = v
  complete_if-IsValid id req (raise e, reply) s v = v
  complete_if-IsValid id req (stuck, reply) s v = v

  pub logged-IsValid :
      (o : Result (Unit {0}) × Protocol) → IsValid n k o.1 → IsValid n k (logged o).1
  unfolding logged
  logged-IsValid (ok a, s) v = v
  logged-IsValid (raise e, s) v = v
  logged-IsValid (stuck, s) v = v
