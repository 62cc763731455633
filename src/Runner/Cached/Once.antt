-- ===== src/Runner/Cached/Once.antt =====
-- Sharing: what is known of the cache, of the calls that are under way, and of those who have an answer.
pub mod Steps
use mathlib.Core.Option.{some-injective}
use sinq.Prelude.{
  ℕ, zero, suc, ◌≤◌, ◌≡◌, refl, true, false, inl, inr, Option, none, some, List, [], ◌∷◌, Bytes,
  equal, equal_iff, if◌then◌else◌, map, All, arith, Bool-cases,
}
use sinq.Runner.{Failure}
use sinq.Runner.Outcome.{Response}
use sinq.Runner.Cached.{
  Answer, load, put, remove, Phase, looking, sending, returning, Asking, asking, missed, waiting,
  given, Asker, Shared, Flown, unsent, answered, Event, asks, gives_up, flies, looked_up, join, ask,
  give_up, asks_at, gives_up_at, receive, deliver, found, fly, step, share, start_sharing,
}

pub load-put :
    {V : Type 0} (k j : Bytes) (v : V) (m : List (Bytes × V))
    → load j (put k v m) ≡ (if equal k j then some v else load j m)
unfolding load put
load-put k j v [] = refl
load-put k j v ((i, w) ∷ m) =
    ground (arith, equal_iff i k, equal_iff i j, equal_iff k j, load-put k j v m)

pub load-remove :
    {V : Type 0} (k j : Bytes) (m : List (Bytes × V))
    → load j (remove k m) ≡ (if equal k j then none else load j m)
unfolding load remove
load-remove k j [] = ground arith
load-remove k j ((i, w) ∷ m) =
    ground (arith, equal_iff i k, equal_iff i j, equal_iff k j, load-remove k j m)

-- How often an answer was got under a key.
unfoldable pub count : Bytes → List Bytes → ℕ
count k [] = 0
count k (j ∷ l) = let n = count k l in if equal j k then suc n else n

-- What a phase says of the cache.
PhaseIs : List (Bytes × Answer) → Bytes → Phase → Type 0
PhaseIs c k looking = Unit
PhaseIs c k sending = load k c ≡ none
PhaseIs c k (returning a) = a.failed ≡ none → load k c ≡ some a

-- One who has an answer has that of the cache.
pub HasCached : List (Bytes × Answer) → Bytes → Asking → Type 0
HasCached c k asking = Unit
HasCached c k missed = Unit
HasCached c k waiting = Unit
HasCached c k (given a) = a.failed ≡ none → load k c ≡ some a

abbrev pub AskerHas : List (Bytes × Answer) → Asker → Type 0
AskerHas c a = HasCached c a.key a.at

record IsShared (s : Shared) : Type 0 where
  counted : (k : Bytes) → count k s.answers ≤ 1
  uncounted : (k : Bytes) → load k s.cache ≡ none → count k s.answers ≡ 0
  flying : (k : Bytes) (p : Phase) → load k s.flights ≡ some p → PhaseIs s.cache k p
  having : All (AskerHas s.cache) s.askers

-- A new phase under a key.
put-flying :
    (c : List (Bytes × Answer)) (k : Bytes) (p : Phase) (l : List (Bytes × Phase))
    → PhaseIs c k p
    → ((j : Bytes) (q : Phase) → load j l ≡ some q → PhaseIs c j q)
    → (j : Bytes) (q : Phase) → load j (put k p l) ≡ some q
    → PhaseIs c j q
put-flying c k p l h all j q e = elim (Bool-cases (equal k j)) [
  | inl y ↦
      let same : k ≡ j = (equal_iff k j).0 y in
      let is : p ≡ q = some-injective p q (rw (load-put k j p l, y) at e) in rw (← same, ← is) h
  | inr n ↦ all j q (rw (load-put k j p l, n) at e)
]

remove-flying :
    (c : List (Bytes × Answer)) (k : Bytes) (l : List (Bytes × Phase))
    → ((j : Bytes) (q : Phase) → load j l ≡ some q → PhaseIs c j q)
    → (j : Bytes) (q : Phase) → load j (remove k l) ≡ some q
    → PhaseIs c j q
remove-flying c k l all j q e = elim (Bool-cases (equal k j)) [
  | inl y ↦ let e' : none ≡ some q = rw (load-remove k j l, y) at e in absurd (cc e')
  | inr n ↦ all j q (rw (load-remove k j l, n) at e)
]

-- What the cache has it keeps, when it gets an answer under a key without one.
put-keeps :
    (k j : Bytes) (a b : Answer) (c : List (Bytes × Answer))
    → load k c ≡ none
    → load j c ≡ some b
    → load j (put k a c) ≡ some b
put-keeps k j a b c h e = ground (arith, load-put k j a c, equal_iff k j, h, e)

put-HasCached :
    (k j : Bytes) (a : Answer) (c : List (Bytes × Answer)) (x : Asking)
    → load k c ≡ none
    → HasCached c j x
    → HasCached (put k a c) j x
unfolding HasCached
put-HasCached k j a c asking h e = tt
put-HasCached k j a c missed h e = tt
put-HasCached k j a c waiting h e = tt
put-HasCached k j a c (given b) h e = λ ok. put-keeps k j a b c h (e ok)

put-having :
    (k : Bytes) (a : Answer) (c : List (Bytes × Answer)) (l : List Asker)
    → load k c ≡ none
    → All (AskerHas c) l
    → All (AskerHas (put k a c)) l
put-having k a c [] h v = tt
put-having k a c (x ∷ l) h v = (put-HasCached k x.key a c x.at h v.0, put-having k a c l h v.1)

-- Under the other keys the phases still hold.
put-PhaseIs :
    (k j : Bytes) (a : Answer) (c : List (Bytes × Answer)) (p : Phase)
    → equal k j ≡ false
    → PhaseIs c j p
    → PhaseIs (put k a c) j p
unfolding PhaseIs
put-PhaseIs k j a c looking n h = tt
put-PhaseIs k j a c sending n h = rw (load-put k j a c, n) h
put-PhaseIs k j a c (returning b) n h = λ ok. rw (load-put k j a c, n) (h ok)
