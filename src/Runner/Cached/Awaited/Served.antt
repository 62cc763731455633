-- ===== src/Runner/Cached/Awaited/Served.antt =====
-- Sharing: nobody waits for ever.
use sinq.Prelude.{
  ℕ, ◌-◌, ◌≤◌, ◌≡◌, refl, true, Option, none, some, List, [], ◌∷◌, Bytes, equal, equal_iff, map,
  All, arith,
}
use sinq.Runner.Outcome.{Response}
use sinq.Runner.Cached.{
  Answer, load, put, Phase, looking, sending, returning, Asking, asking, missed, waiting, given,
  Asker, Shared, Flown, unsent, answered, Event, flies, found, fly, step, share, start_sharing,
}
use sinq.Runner.Cached.Once.{load-put, load-remove}
use sinq.Runner.Cached.Awaited.{Awaits, AskerAwaits, Awaited, step-Awaited}

-- How many steps a function has left.
rank : Option Phase → ℕ
rank none = 0
rank (some (returning a)) = 1
rank (some sending) = 2
rank (some looking) = 3

found-rank : (o : Option Answer) → rank (some (found o)) ≤ 2
unfolding rank found
found-rank none = omega arith
found-rank (some a) = omega arith

put-rank : (k : Bytes) (p : Phase) (l : List (Bytes × Phase)) → load k (put k p l) ≡ some p
put-rank k p l = rw (load-put k k p l, (equal_iff k k).1 refl) refl

fly-rank :
    (blank : Response) (k : Bytes) (o : Flown) (s : Shared) (p : Option Phase)
    → load k s.flights ≡ p
    → rank (load k (fly blank k o s p).flights) ≤ rank p - 1
unfolding fly rank
fly-rank blank k o s none e = rw e (omega arith)
fly-rank blank k o s (some looking) e =
    rw (put-rank k (found (load k s.cache)) s.flights) (omega (arith, found-rank (load k s.cache)))
fly-rank blank k (unsent x) s (some sending) e =
    rw (put-rank k (returning (record { response = blank; failed = some x })) s.flights)
      (omega arith)
fly-rank blank k (answered a) s (some sending) e =
    rw (put-rank k (returning a) s.flights) (omega arith)
fly-rank blank k o s (some (returning a)) e =
    rw (load-remove k k s.flights, (equal_iff k k).1 refl) (omega arith)

step-rank :
    (blank : Response) (k : Bytes) (o : Flown) (s : Shared)
    → rank (load k (step blank (flies k o) s).flights) ≤ rank (load k s.flights) - 1
unfolding step
step-rank blank k o s = fly-rank blank k o s (load k s.flights) refl

rank_le : (p : Option Phase) → rank p ≤ 3
unfolding rank
rank_le none = omega arith
rank_le (some (returning a)) = omega arith
rank_le (some sending) = omega arith
rank_le (some looking) = omega arith

not_called : (p : Option Phase) → rank p ≤ 0 → p ≡ none
unfolding rank
not_called none h = refl
not_called (some (returning a)) h = absurd (omega arith)
not_called (some sending) h = absurd (omega arith)
not_called (some looking) h = absurd (omega arith)

pub IsNotWaiting : Asking → Type 0
IsNotWaiting waiting = ⊥
IsNotWaiting asking = Unit
IsNotWaiting missed = Unit
IsNotWaiting (given a) = Unit

-- Nobody waits under the key.
abbrev pub NobodyWaits : Bytes → List Asker → Type 0
NobodyWaits k = All (λ a. equal a.key k ≡ true → IsNotWaiting a.at)

uncalled-IsNotWaiting :
    (l : List (Bytes × Phase)) (k : Bytes) (x : Asking)
    → load k l ≡ none
    → Awaits l k x
    → IsNotWaiting x
unfolding Awaits IsNotWaiting
uncalled-IsNotWaiting l k waiting e h = absurd (cc (e, h.1))
uncalled-IsNotWaiting l k asking e h = tt
uncalled-IsNotWaiting l k missed e h = tt
uncalled-IsNotWaiting l k (given a) e h = tt

uncalled-NobodyWaits :
    (l : List (Bytes × Phase)) (k : Bytes) (others : List Asker)
    → load k l ≡ none
    → All (AskerAwaits l) others
    → NobodyWaits k others
uncalled-NobodyWaits l k [] e h = tt
uncalled-NobodyWaits l k (a ∷ others) e h = (
  (λ y. uncalled-IsNotWaiting l a.key a.at (rw ((equal_iff a.key k).0 y) e) h.0),
  uncalled-NobodyWaits l k others e h.1,
)

share-Awaited :
    (blank : Response) (es : List Event) (s : Shared) → Awaited s → Awaited (share blank es s)
unfolding share
share-Awaited blank [] s v = v
share-Awaited blank (e ∷ es) s v = share-Awaited blank es _ (step-Awaited blank e s v)

start-Awaited : (keys : List Bytes) → Awaited (start_sharing keys)
unfolding start_sharing
start-Awaited keys = all keys
  where
    all : (l : List Bytes) → All (AskerAwaits []) (map (λ k. record { key = k; at = asking }) l)
    all [] = tt
    all (k ∷ l) = (unfold Awaits in tt, all l)

-- Whatever the order of the steps was: when the function that is called for a key takes three more
-- steps, whatever becomes of its request, nobody waits under that key.
pub share-NobodyWaits :
    (blank : Response) (es : List Event) (keys : List Bytes) (k : Bytes) (o o' o'' : Flown)
    → NobodyWaits k
        (share blank
          (flies k o ∷ flies k o' ∷ flies k o'' ∷ [])
          (share blank es (start_sharing keys))).askers
unfolding share
share-NobodyWaits blank es keys k o o' o'' =
    let s = share blank es (start_sharing keys) in
    let s₁ = step blank (flies k o) s in
    let s₂ = step blank (flies k o') s₁ in
    let s₃ = step blank (flies k o'') s₂ in
    let v = step-Awaited blank (flies k o'') s₂ (
      step-Awaited blank (flies k o') s₁
        (step-Awaited blank (flies k o) s (share-Awaited blank es _ (start-Awaited keys)))) in
    uncalled-NobodyWaits s₃.flights k s₃.askers
      (not_called _ (
        omega (
          arith,
          rank_le (load k s.flights),
          step-rank blank k o s,
          step-rank blank k o' s₁,
          step-rank blank k o'' s₂,
        )))
      v
