-- ===== src/Runner/Cached.antt =====
-- internal/runner/cached-request-processor.go, and the cached way to send of request-processor.go: what
-- is made of an answer, and the requests of several workers that share a cache and, by the package
-- singleflight, the sending: while one with a key is on its way, those who ask for the key wait for it.
-- The clock, the log and the cookies are left out.
pub mod Once
pub mod Awaited
pub mod Limit
use sinq.Prelude.{
  ℕ, zero, suc, ◌+◌, ◌-◌, ◌%◌, Bool, true, false, Option, none, some, List, [], ◌∷◌, Bytes, length,
  take, ltb, equal, if◌then◌else◌, map,
}
use sinq.Runner.{Failure}
use sinq.Runner.Outcome.{Response}

-- `cachedResult`, an answer with an error beside it.
pub record Answer : Type 0 where
  pub response : Response
  pub failed : Option Failure

-- What the transport, the body of the answer and the workspace give: `read_all` is `io.ReadAll` behind a
-- limit, `create` the error of a new file, and `copy` that of the copy to it.
pub record Incoming : Type 0 where
  pub head : Response
  pub read_all : ℕ → Bytes × Option Failure
  pub create : Option Failure
  pub copy : Option Failure

-- The bytes that `io.LimitReader` lets pass of an `int64`, which is given by its bits.
unfoldable pub passes : ℕ → ℕ
passes bits = if ltb bits 9223372036854775808 then bits else 0

-- `maxBodySize + 1`
unfoldable pub limit_bits : ℕ → ℕ
limit_bits max = (max + 1) % 18446744073709551616

limited : ℕ → Response → Bytes × Option Failure → Answer
limited max r (data_read, some e) = record { response = r; failed = some e }
limited max r (data_read, none) =
    if ltb max (length data_read)
    then record {
      response = record r { body = take (length data_read - 1) data_read; oversized = true };
      failed = none;
    }
    else record { response = record r { body = data_read }; failed = none }

to_file : Bytes → Response → Option Failure → Option Failure → Answer
to_file filename r (some e) copied = record { response = r; failed = some e }
to_file filename r none (some e) = record { response = r; failed = some e }
to_file filename r none none = record {
  response = record r { filename_to = filename };
  failed = none;
}

-- `result` at its start.
unfoldable pub fresh : Response → Response
fresh r = record r { filename_to = []; oversized = false; body = [] }

-- `makeIntermediate`
unfoldable pub make_intermediate : ℕ → Bytes → Incoming → Answer
unfolding limited to_file fresh passes limit_bits
make_intermediate max [] i = limited max (fresh i.head) (i.read_all (passes (limit_bits max)))
make_intermediate max (b ∷ filename) i = to_file (b ∷ filename) (fresh i.head) i.create i.copy

-- `sync.Map`
pub load : {V : Type 0} → Bytes → List (Bytes × V) → Option V
load k [] = none
load k ((j, v) ∷ m) = if equal j k then some v else load k m

pub put : {V : Type 0} → Bytes → V → List (Bytes × V) → List (Bytes × V)
put k v [] = (k, v) ∷ []
put k v ((j, w) ∷ m) = if equal j k then (k, v) ∷ m else (j, w) ∷ put k v m

pub remove : {V : Type 0} → Bytes → List (Bytes × V) → List (Bytes × V)
remove k [] = []
remove k ((j, w) ∷ m) = let rest = remove k m in if equal j k then rest else (j, w) ∷ rest

-- The function that is called for a key: before its lookup, on its way, and about to return.
pub data Phase : Type 0 where
  looking : Phase
  sending : Phase
  returning : Answer → Phase

-- A call of `sendCached`: before its lookup, behind it, waiting for the shared function, and at its end.
pub data Asking : Type 0 where
  asking missed waiting : Asking
  given : Answer → Asking

pub record Asker : Type 0 where
  pub key : Bytes
  pub at : Asking

-- `cachedRequestProcessor`, the calls that are under way, and the keys under which it got an answer.
pub record Shared : Type 0 where
  pub cache : List (Bytes × Answer)
  pub flights : List (Bytes × Phase)
  pub askers : List Asker
  pub answers : List Bytes

-- What becomes of a request that is sent.
pub data Flown : Type 0 where
  unsent : Failure → Flown
  answered : Answer → Flown

pub data Event : Type 0 where
  asks : ℕ → Event
  gives_up : ℕ → Failure → Event
  flies : Bytes → Flown → Event

looked_up : Option Answer → Asking
looked_up none = missed
looked_up (some a) = given a

join : Bytes → Option Phase → List (Bytes × Phase) → List (Bytes × Phase)
unfolding put
join k none flights = put k looking flights
join k (some p) flights = flights

-- One step of a call.
ask : Shared → Bytes → Asking → Asking × List (Bytes × Phase)
unfolding looked_up join load
ask s k asking = (looked_up (load k s.cache), s.flights)
ask s k missed = (waiting, join k (load k s.flights) s.flights)
ask s k waiting = (waiting, s.flights)
ask s k (given a) = (given a, s.flights)

-- The end of the context, while the call waits.
give_up : Response → Failure → Asking → Asking
give_up blank e waiting = given (record { response = blank; failed = some e })
give_up blank e asking = asking
give_up blank e missed = missed
give_up blank e (given a) = given a

asks_at : ℕ → Shared → List Asker → List Asker × List (Bytes × Phase)
unfolding ask
asks_at i s [] = ([], s.flights)
asks_at zero s (a ∷ others) = let r = ask s a.key a.at in (record a { at = r.0 } ∷ others, r.1)
asks_at (suc i) s (a ∷ others) = let r = asks_at i s others in (a ∷ r.0, r.1)

gives_up_at : ℕ → Response → Failure → List Asker → List Asker
unfolding give_up
gives_up_at i blank e [] = []
gives_up_at zero blank e (a ∷ others) = record a { at = give_up blank e a.at } ∷ others
gives_up_at (suc i) blank e (a ∷ others) = a ∷ gives_up_at i blank e others

-- The result goes to those who wait for it.
receive : Answer → Asking → Asking
receive r waiting = given r
receive r asking = asking
receive r missed = missed
receive r (given a) = given a

deliver : Bytes → Answer → Asker → Asker
unfolding receive
deliver k r a = if equal a.key k then record a { at = receive r a.at } else a

found : Option Answer → Phase
found none = sending
found (some a) = returning a

-- One step of the function that is called for a key.
fly : Response → Bytes → Flown → Shared → Option Phase → Shared
unfolding found put remove deliver load
fly blank k o s none = s
fly blank k o s (some looking) = record s { flights = put k (found (load k s.cache)) s.flights }
fly blank k (unsent e) s (some sending) = record s {
  flights = put k (returning (record { response = blank; failed = some e })) s.flights;
}
fly blank k (answered a) s (some sending) = record s {
  cache = put k a s.cache;
  flights = put k (returning a) s.flights;
  answers = k ∷ s.answers;
}
fly blank k o s (some (returning a)) = record s {
  flights = remove k s.flights;
  askers = map (deliver k a) s.askers;
}

step : Response → Event → Shared → Shared
unfolding asks_at gives_up_at fly load
step blank (asks i) s = let r = asks_at i s s.askers in record s { askers = r.0; flights = r.1 }
step blank (gives_up i e) s = record s { askers = gives_up_at i blank e s.askers }
step blank (flies k o) s = fly blank k o s (load k s.flights)

-- The steps in their order; `blank` is the zero value of `intermediate`.
unfoldable pub share : Response → List Event → Shared → Shared
unfolding step
share blank [] s = s
share blank (e ∷ es) s = share blank es (step blank e s)

-- The calls at their start, with nothing cached.
unfoldable pub start_sharing : List Bytes → Shared
start_sharing keys = record {
  cache = [];
  flights = [];
  askers = map (λ k. record { key = k; at = asking }) keys;
  answers = [];
}
