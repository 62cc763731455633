-- ===== src/Tests/Sharing.antt =====
-- Answers that are cut off, and shared, at concrete inputs.
use sinq.Prelude.{
  arith, ◌≤◌, ◌≡◌, refl, false, none, List, [], ◌∷◌, Bytes, codes, take, map, All, equal,
}
use sinq.Runner.Outcome.{Response, Limits}
use sinq.Runner.Cached.{
  Answer, Incoming, make_intermediate, given, answered, Event, asks, flies, share, start_sharing,
}
use sinq.Runner.Cached.Limit.{IsCut, make_intermediate-IsCut}
use sinq.Runner.Cached.Once.{count, AskerHas}
use sinq.Runner.Cached.Once.Steps.{share-once}
use sinq.Runner.Cached.Awaited.Served.{NobodyWaits, share-NobodyWaits}

abbrev no_response : Response
no_response = record {
  status_line = [];
  proto = [];
  headers = [];
  filename_to = [];
  oversized = false;
  body = [];
}

abbrev six_bytes : Incoming
six_bytes = record {
  head = no_response;
  read_all = λ n. (take n (codes "abcdef"), none);
  create = none;
  copy = none;
}

abbrev four_bytes : Limits
four_bytes = record {
  fail_fast = false;
  max_retries = 0;
  max_body_size = 4;
  dump_on_failure = false;
}

make_intermediate-IsCut_example :
    IsCut 4 (codes "abcdef") four_bytes (make_intermediate 4 [] six_bytes)
make_intermediate-IsCut_example =
    make_intermediate-IsCut 4 (codes "abcdef") four_bytes six_bytes (omega arith) refl (λ n. refl)

-- With the largest limit that an `int64` holds nothing is kept.
largest_limit : (make_intermediate 9223372036854775807 [] six_bytes).response.body ≡ []
unfolding make_intermediate
largest_limit = refl

abbrev two_askers : List Bytes
two_askers = codes "k" ∷ codes "k" ∷ []

abbrev done : Answer
done = record { response = no_response; failed = none }

abbrev interleaved : List Event
interleaved =
    asks 0
    ∷ asks 1
    ∷ asks 0
    ∷ asks 1
    ∷ flies (codes "k") (answered done)
    ∷ flies (codes "k") (answered done)
    ∷ flies (codes "k") (answered done)
    ∷ []

both_given :
    map (λ a. a.at) (share no_response interleaved (start_sharing two_askers)).askers
    ≡ given done ∷ given done ∷ []
unfolding share start_sharing equal
both_given = refl

share-once_example :
    ((k : Bytes) → count k (share no_response interleaved (start_sharing two_askers)).answers ≤ 1)
    × All
        (AskerHas (share no_response interleaved (start_sharing two_askers)).cache)
        (share no_response interleaved (start_sharing two_askers)).askers
share-once_example = share-once no_response interleaved two_askers

share-NobodyWaits_example :
    NobodyWaits
      (codes "k")
      (share no_response
        (flies (codes "k") (answered done)
          ∷ flies (codes "k") (answered done)
          ∷ flies (codes "k") (answered done)
          ∷ [])
        (share no_response (asks 0 ∷ asks 0 ∷ []) (start_sharing two_askers))).askers
share-NobodyWaits_example =
    share-NobodyWaits no_response (asks 0 ∷ asks 0 ∷ []) two_askers (codes "k") (answered done)
      (answered done) (answered done)
