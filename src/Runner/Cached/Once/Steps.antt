-- ===== src/Runner/Cached/Once/Steps.antt =====
-- Sharing: each step keeps what is known of the cache, so that under each key at most one answer is got.
use mathlib.Core.Option.{some-injective}
use sinq.Prelude.{
  ℕ, zero, suc, ◌≤◌, ◌≡◌, refl, true, inl, inr, Option, none, some, List, [], ◌∷◌, Bytes, equal,
  equal_iff, map, All, arith, Bool-cases,
}
use sinq.Runner.{Failure}
use sinq.Runner.Outcome.{Response}
use sinq.Runner.Cached.{
  Answer, load, put, Phase, looking, sending, returning, Asking, asking, missed, waiting, given,
  Asker, Shared, Flown, unsent, answered, Event, asks, gives_up, flies, looked_up, join, ask,
  give_up, asks_at, gives_up_at, receive, deliver, found, fly, step, share, start_sharing,
}
use sinq.Runner.Cached.Once.{
  load-put, count, PhaseIs, HasCached, AskerHas, IsShared, put-flying, remove-flying, put-having,
  put-PhaseIs,
}

abbrev Flying : List (Bytes × Answer) → List (Bytes × Phase) → Type 0
Flying c l = (k : Bytes) (p : Phase) → load k l ≡ some p → PhaseIs c k p

looked_up-HasCached :
    (c : List (Bytes × Answer)) (k : Bytes) (o : Option Answer)
    → load k c ≡ o
    → HasCached c k (looked_up o)
unfolding HasCached looked_up
looked_up-HasCached c k none e = tt
looked_up-HasCached c k (some a) e = λ ok. e

join-Flying :
    (c : List (Bytes × Answer)) (k : Bytes) (o : Option Phase) (l : List (Bytes × Phase))
    → Flying c l
    → Flying c (join k o l)
unfolding join PhaseIs
join-Flying c k none l h = put-flying c k looking l tt h
join-Flying c k (some p) l h = h

ask-keeps :
    (s : Shared) (k : Bytes) (x : Asking)
    → IsShared s
    → HasCached s.cache k x
    → HasCached s.cache k (ask s k x).0 × Flying s.cache (ask s k x).1
unfolding ask HasCached
ask-keeps s k asking v h = (looked_up-HasCached s.cache k (load k s.cache) refl, v.flying)
ask-keeps s k missed v h = (tt, join-Flying s.cache k (load k s.flights) s.flights v.flying)
ask-keeps s k waiting v h = (tt, v.flying)
ask-keeps s k (given a) v h = (h, v.flying)

asks_at-keeps :
    (i : ℕ) (s : Shared) (l : List Asker)
    → IsShared s
    → All (AskerHas s.cache) l
    → All (AskerHas s.cache) (asks_at i s l).0 × Flying s.cache (asks_at i s l).1
unfolding asks_at
asks_at-keeps i s [] v h = (tt, v.flying)
asks_at-keeps zero s (a ∷ l) v h = let k = ask-keeps s a.key a.at v h.0 in ((k.0, h.1), k.1)
asks_at-keeps (suc i) s (a ∷ l) v h = let k = asks_at-keeps i s l v h.1 in ((h.0, k.0), k.1)

give_up-HasCached :
    (c : List (Bytes × Answer)) (k : Bytes) (blank : Response) (e : Failure) (x : Asking)
    → HasCached c k x
    → HasCached c k (give_up blank e x)
unfolding give_up HasCached
give_up-HasCached c k blank e asking h = tt
give_up-HasCached c k blank e missed h = tt
give_up-HasCached c k blank e waiting h = λ ok. absurd (cc ok)
give_up-HasCached c k blank e (given a) h = h

gives_up_at-having :
    (i : ℕ) (c : List (Bytes × Answer)) (blank : Response) (e : Failure) (l : List Asker)
    → All (AskerHas c) l
    → All (AskerHas c) (gives_up_at i blank e l)
unfolding gives_up_at
gives_up_at-having i c blank e [] h = tt
gives_up_at-having zero c blank e (a ∷ l) h = (give_up-HasCached c a.key blank e a.at h.0, h.1)
gives_up_at-having (suc i) c blank e (a ∷ l) h = (h.0, gives_up_at-having i c blank e l h.1)

receive-HasCached :
    (c : List (Bytes × Answer)) (k : Bytes) (r : Answer) (x : Asking)
    → (r.failed ≡ none → load k c ≡ some r)
    → HasCached c k x
    → HasCached c k (receive r x)
unfolding receive HasCached
receive-HasCached c k r asking v h = tt
receive-HasCached c k r missed v h = tt
receive-HasCached c k r waiting v h = v
receive-HasCached c k r (given a) v h = h

deliver-having :
    (c : List (Bytes × Answer)) (k : Bytes) (r : Answer) (l : List Asker)
    → (r.failed ≡ none → load k c ≡ some r)
    → All (AskerHas c) l
    → All (AskerHas c) (map (deliver k r) l)
unfolding deliver
deliver-having c k r [] v h = tt
deliver-having c k r (a ∷ l) v h = (
  elim (Bool-cases (equal a.key k)) [
    | inl y ↦
        let same : a.key ≡ k = (equal_iff a.key k).0 y in
        rw y (receive-HasCached c a.key r a.at (rw same v) h.0)
    | inr n ↦ rw n h.0
  ],
  deliver-having c k r l v h.1,
)

found-PhaseIs :
    (c : List (Bytes × Answer)) (k : Bytes) (o : Option Answer)
    → load k c ≡ o
    → PhaseIs c k (found o)
unfolding PhaseIs found
found-PhaseIs c k none e = e
found-PhaseIs c k (some a) e = λ ok. e

own-PhaseIs :
    (k j : Bytes) (a : Answer) (c : List (Bytes × Answer)) (p : Phase) (l : List (Bytes × Phase))
    → equal k j ≡ true
    → load j (put k (returning a) l) ≡ some p
    → PhaseIs (put k a c) j p
unfolding PhaseIs
own-PhaseIs k j a c p l y e =
    let is : returning a ≡ p = some-injective _ p (rw (load-put k j (returning a) l, y) at e) in
    rw (← is) (λ ok. rw (load-put k j a c, y) refl)

put_both-Flying :
    (k : Bytes) (a : Answer) (c : List (Bytes × Answer)) (l : List (Bytes × Phase))
    → Flying c l
    → Flying (put k a c) (put k (returning a) l)
put_both-Flying k a c l h j p e = elim (Bool-cases (equal k j)) [
  | inl y ↦ own-PhaseIs k j a c p l y e
  | inr x ↦ put-PhaseIs k j a c p x (h j p (rw (load-put k j (returning a) l, x) at e))
]

-- An answer that was got is the only one under its key.
answered-IsShared :
    (blank : Response) (k : Bytes) (a : Answer) (s : Shared)
    → IsShared s
    → load k s.cache ≡ none
    → IsShared (fly blank k (answered a) s (some sending))
unfolding fly
answered-IsShared blank k a s v n = record {
  counted = λ j. unfold count in (ground (arith, v.counted j, v.uncounted j, equal_iff k j, n));
  uncounted = λ j e.
      unfold count in (ground (arith, v.uncounted j, equal_iff k j, load-put k j a s.cache, e));
  flying = put_both-Flying k a s.cache s.flights v.flying;
  having = put-having k a s.cache s.askers n v.having;
}

fly-IsShared :
    (blank : Response) (k : Bytes) (o : Flown) (s : Shared) (p : Option Phase)
    → IsShared s
    → load k s.flights ≡ p
    → IsShared (fly blank k o s p)
unfolding fly
fly-IsShared blank k o s none v e = v
fly-IsShared blank k o s (some looking) v e = record {
  counted = v.counted;
  uncounted = v.uncounted;
  flying =
      put-flying s.cache k (found (load k s.cache)) s.flights
        (found-PhaseIs s.cache k (load k s.cache) refl) v.flying;
  having = v.having;
}
fly-IsShared blank k (unsent x) s (some sending) v e = record {
  counted = v.counted;
  uncounted = v.uncounted;
  flying = put-flying s.cache k _ s.flights (unfold PhaseIs in (λ ok. absurd (cc ok))) v.flying;
  having = v.having;
}
fly-IsShared blank k (answered a) s (some sending) v e =
    answered-IsShared blank k a s v (unfold PhaseIs in (v.flying k sending e))
fly-IsShared blank k o s (some (returning a)) v e = record {
  counted = v.counted;
  uncounted = v.uncounted;
  flying = remove-flying s.cache k s.flights v.flying;
  having =
      deliver-having s.cache k a s.askers (unfold PhaseIs in (v.flying k (returning a) e)) v.having;
}

step-IsShared : (blank : Response) (e : Event) (s : Shared) → IsShared s → IsShared (step blank e s)
unfolding step
step-IsShared blank (asks i) s v =
    let k = asks_at-keeps i s s.askers v v.having in
    record { counted = v.counted; uncounted = v.uncounted; flying = k.1; having = k.0 }
step-IsShared blank (gives_up i x) s v = record {
  counted = v.counted;
  uncounted = v.uncounted;
  flying = v.flying;
  having = gives_up_at-having i s.cache blank x s.askers v.having;
}
step-IsShared blank (flies k o) s v = fly-IsShared blank k o s (load k s.flights) v refl

share-IsShared :
    (blank : Response) (es : List Event) (s : Shared) → IsShared s → IsShared (share blank es s)
unfolding share
share-IsShared blank [] s v = v
share-IsShared blank (e ∷ es) s v = share-IsShared blank es _ (step-IsShared blank e s v)

start-IsShared : (keys : List Bytes) → IsShared (start_sharing keys)
unfolding start_sharing count load
start-IsShared keys = record {
  counted = λ k. omega arith;
  uncounted = λ k e. refl;
  flying = λ k p e. absurd (cc e);
  having = all keys;
}
  where
    all : (l : List Bytes) → All (AskerHas []) (map (λ k. record { key = k; at = asking }) l)
    all [] = tt
    all (k ∷ l) = (unfold HasCached in tt, all l)

-- Whatever the order of the steps is, and whatever becomes of the requests that are sent: under each key
-- at most one answer is got, however long the steps go on, and every call that ended with no error has the answer that is in the cache
-- under its key.
pub share-once :
    (blank : Response) (es : List Event) (keys : List Bytes)
    → ((k : Bytes) → count k (share blank es (start_sharing keys)).answers ≤ 1)
      × All
          (AskerHas (share blank es (start_sharing keys)).cache)
          (share blank es (start_sharing keys)).askers
share-once blank es keys =
    let v = share-IsShared blank es _ (start-IsShared keys) in (v.counted, v.having)
