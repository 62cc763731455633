-- ===== src/Runner/Cached/Awaited.antt =====
-- Sharing: nobody waits for a function that is not called.
pub mod Served
use sinq.Prelude.{
  ℕ, zero, suc, ◌+◌, ◌-◌, ◌≤◌, ◌≡◌, refl, ◌∙◌, Bool, true, false, inl, inr, Option, none, some,
  List, [], ◌∷◌, ◌++◌, Bytes, equal, equal_iff, if◌then◌else◌, map, All, arith, Bool-cases,
  Option-cases,
}
use sinq.Runner.{Failure}
use sinq.Runner.Outcome.{Response}
use sinq.Runner.Cached.{
  Answer, load, put, remove, Phase, looking, sending, returning, Asking, asking, missed, waiting,
  given, Asker, Shared, Flown, unsent, answered, Event, asks, gives_up, flies, looked_up, join, ask,
  give_up, asks_at, gives_up_at, receive, deliver, found, fly, step, share, start_sharing,
}
use sinq.Runner.Cached.Once.{load-put, load-remove}

-- One who waits, waits for a function that is called.
Awaits : List (Bytes × Phase) → Bytes → Asking → Type 0
Awaits l k waiting = (p : Phase) × (load k l ≡ some p)
Awaits l k asking = Unit
Awaits l k missed = Unit
Awaits l k (given a) = Unit

abbrev AskerAwaits : List (Bytes × Phase) → Asker → Type 0
AskerAwaits l a = Awaits l a.key a.at

abbrev Awaited : Shared → Type 0
Awaited s = All (AskerAwaits s.flights) s.askers

-- Who is called stays called.
record More (l l' : List (Bytes × Phase)) : Type 0 where
  still : (k : Bytes) (p : Phase) → load k l ≡ some p → (q : Phase) × (load k l' ≡ some q)

More-put : (k : Bytes) (p : Phase) (l : List (Bytes × Phase)) → More l (put k p l)
More-put k p l = record {
  still = λ j q e. elim (Bool-cases (equal k j)) [
    | inl y ↦ (p, rw (load-put k j p l, y) refl)
    | inr n ↦ (q, rw (load-put k j p l, n) e)
  ];
}

More-Awaits :
    {l l' : List (Bytes × Phase)} (k : Bytes) (x : Asking)
    → More l l'
    → Awaits l k x
    → Awaits l' k x
unfolding Awaits
More-Awaits k waiting m h = m.still k h.0 h.1
More-Awaits k asking m h = tt
More-Awaits k missed m h = tt
More-Awaits k (given a) m h = tt

More-All :
    {l l' : List (Bytes × Phase)} (others : List Asker)
    → More l l'
    → All (AskerAwaits l) others
    → All (AskerAwaits l') others
More-All [] m h = tt
More-All (a ∷ others) m h = (More-Awaits a.key a.at m h.0, More-All others m h.1)

looked_up-Awaits :
    (l : List (Bytes × Phase)) (k : Bytes) (o : Option Answer) → Awaits l k (looked_up o)
unfolding looked_up Awaits
looked_up-Awaits l k none = tt
looked_up-Awaits l k (some a) = tt

join-More :
    (k : Bytes) (o : Option Phase) (l : List (Bytes × Phase))
    → load k l ≡ o
    → More l (join k o l) × Awaits (join k o l) k waiting
unfolding join Awaits
join-More k none l e =
    (More-put k looking l, (looking, rw (load-put k k looking l, (equal_iff k k).1 refl) refl))
join-More k (some p) l e = (record { still = λ j q h. (q, h) }, (p, e))

ask-Awaits :
    (s : Shared) (k : Bytes) (x : Asking)
    → Awaits s.flights k x
    → More s.flights (ask s k x).1 × Awaits (ask s k x).1 k (ask s k x).0
unfolding ask
ask-Awaits s k asking h =
    (record { still = λ j q e. (q, e) }, looked_up-Awaits s.flights k (load k s.cache))
ask-Awaits s k missed h = join-More k (load k s.flights) s.flights refl
ask-Awaits s k waiting h = (record { still = λ j q e. (q, e) }, h)
ask-Awaits s k (given a) h = (record { still = λ j q e. (q, e) }, h)

asks_at-Awaits :
    (i : ℕ) (s : Shared) (l : List Asker)
    → All (AskerAwaits s.flights) l
    → More s.flights (asks_at i s l).1 × All (AskerAwaits (asks_at i s l).1) (asks_at i s l).0
unfolding asks_at
asks_at-Awaits i s [] h = (record { still = λ j q e. (q, e) }, tt)
asks_at-Awaits zero s (a ∷ l) h =
    let k = ask-Awaits s a.key a.at h.0 in (k.0, (k.1, More-All l k.0 h.1))
asks_at-Awaits (suc i) s (a ∷ l) h =
    let k = asks_at-Awaits i s l h.1 in (k.0, (More-Awaits a.key a.at k.0 h.0, k.1))

gives_up_at-Awaits :
    (i : ℕ) (l : List (Bytes × Phase)) (blank : Response) (e : Failure) (others : List Asker)
    → All (AskerAwaits l) others
    → All (AskerAwaits l) (gives_up_at i blank e others)
unfolding gives_up_at
gives_up_at-Awaits i l blank e [] h = tt
gives_up_at-Awaits zero l blank e (a ∷ others) h = (leaves a.at h.0, h.1)
  where
    leaves : (x : Asking) → Awaits l a.key x → Awaits l a.key (give_up blank e x)
    leaves waiting w = unfold give_up Awaits in tt
    leaves asking w = unfold give_up Awaits in tt
    leaves missed w = unfold give_up Awaits in tt
    leaves (given r) w = unfold give_up Awaits in tt
gives_up_at-Awaits (suc i) l blank e (a ∷ others) h =
    (h.0, gives_up_at-Awaits i l blank e others h.1)

-- Behind the return nobody waits under the key.
receive-Awaits :
    (l : List (Bytes × Phase)) (k : Bytes) (r : Answer) (x : Asking) → Awaits l k (receive r x)
unfolding receive Awaits
receive-Awaits l k r waiting = tt
receive-Awaits l k r asking = tt
receive-Awaits l k r missed = tt
receive-Awaits l k r (given a) = tt

remove-Awaits :
    (l : List (Bytes × Phase)) (k j : Bytes) (x : Asking)
    → equal k j ≡ false
    → Awaits l j x
    → Awaits (remove k l) j x
unfolding Awaits
remove-Awaits l k j waiting n h = (h.0, rw (load-remove k j l, n) h.1)
remove-Awaits l k j asking n h = tt
remove-Awaits l k j missed n h = tt
remove-Awaits l k j (given a) n h = tt

deliver-Awaits :
    (l : List (Bytes × Phase)) (k : Bytes) (r : Answer) (others : List Asker)
    → All (AskerAwaits l) others
    → All (AskerAwaits (remove k l)) (map (deliver k r) others)
unfolding deliver
deliver-Awaits l k r [] h = tt
deliver-Awaits l k r (a ∷ others) h = (
  elim (Bool-cases (equal a.key k)) [
    | inl y ↦ rw y (receive-Awaits (remove k l) a.key r a.at)
    | inr n ↦
        let n' : equal k a.key ≡ false = ground (arith, n, equal_iff a.key k, equal_iff k a.key) in
        rw n (remove-Awaits l k a.key a.at n' h.0)
  ],
  deliver-Awaits l k r others h.1,
)

fly-Awaited :
    (blank : Response) (k : Bytes) (o : Flown) (s : Shared) (p : Option Phase)
    → Awaited s
    → Awaited (fly blank k o s p)
unfolding fly
fly-Awaited blank k o s none v = v
fly-Awaited blank k o s (some looking) v = More-All s.askers (More-put k _ s.flights) v
fly-Awaited blank k (unsent e) s (some sending) v = More-All s.askers (More-put k _ s.flights) v
fly-Awaited blank k (answered a) s (some sending) v = More-All s.askers (More-put k _ s.flights) v
fly-Awaited blank k o s (some (returning a)) v = deliver-Awaits s.flights k a s.askers v

step-Awaited : (blank : Response) (e : Event) (s : Shared) → Awaited s → Awaited (step blank e s)
unfolding step
step-Awaited blank (asks i) s v = (asks_at-Awaits i s s.askers v).1
step-Awaited blank (gives_up i e) s v = gives_up_at-Awaits i s.flights blank e s.askers v
step-Awaited blank (flies k o) s v = fly-Awaited blank k o s (load k s.flights) v
