-- ===== src/Cache/Callers/Sharing.antt =====
-- src/cache/concurrent_cache.h: who runs a factory and who waits for it.
use xtd.Base.{
  ℕ, ◌<◌, ◌≡◌, refl, ◌≢◌, ◌⊎◌, Bool, true, false, Option, none, some, List, ℕ_discrete, ==_iff,
  ne→==,
}
use xtd.Cache.{FactoryState, find}
use xtd.Cache.Tables.{IsFunctional}
use xtd.Cache.Callers.{
  Promise, pending, value, exception, Caller, started, missed, waiting, running, created,
  fulfilling, broken, returned, threw, put,
}

module _ {ℓ} {A : Type ℓ} where
  -- A property of a family after the change at `i`.
  pub put_same : (i : ℕ) (a : A) (f : ℕ → A) → put i a f i ≡ a
  put_same i a f = rw ((==_iff i i).1 refl) refl

  pub put_other : (i j : ℕ) (a : A) (f : ℕ → A) → j ≢ i → put i a f j ≡ f j
  put_other i j a f apart = rw (ne→== j i apart) refl

  pub put_elim :
      (P : A → Type 0) (i j : ℕ) (a : A) (f : ℕ → A)
      → (j ≡ i → P a)
      → (j ≢ i → P (f j))
      → P (put i a f j)
  put_elim P i j a f same other = elim (ℕ_discrete j i) [
    | yes e ↦ rw ((==_iff j i).1 e) (same e)
    | no apart ↦ rw (ne→== j i apart) (other apart)
  ]

module _ {ℓ} {V : Type ℓ} where
  abbrev pub is_set : Promise V → Bool
  is_set pending = false
  is_set (value v) = true
  is_set exception = true

  -- The key and the state for which a caller is in flight.
  abbrev pub owns : Caller V → Option (ℕ × FactoryState)
  owns (running key state) = some (key, state)
  owns (created key state new_entry) = some (key, state)
  owns (broken key state) = some (key, state)
  owns (started key) = none
  owns (missed key) = none
  owns (waiting state) = none
  owns (fulfilling state v) = none
  owns (returned v) = none
  owns threw = none

  -- The state whose promise a caller is yet to set.
  abbrev pub at_work : Caller V → Option FactoryState
  at_work (running key state) = some state
  at_work (created key state new_entry) = some state
  at_work (fulfilling state v) = some state
  at_work (broken key state) = none
  at_work (started key) = none
  at_work (missed key) = none
  at_work (waiting state) = none
  at_work (returned v) = none
  at_work threw = none

  abbrev pub waits_on : Caller V → Option FactoryState
  waits_on (waiting state) = some state
  waits_on (running key state) = none
  waits_on (created key state new_entry) = none
  waits_on (fulfilling state v) = none
  waits_on (broken key state) = none
  waits_on (started key) = none
  waits_on (missed key) = none
  waits_on (returned v) = none
  waits_on threw = none

-- What holds of each caller: `flight` is the shard's map of states in flight, the states below `next`
-- are in use, and `creator` gives the caller that made a state.
module _ {ℓ} {V : Type ℓ} (flight : List (ℕ × FactoryState)) (promises : ℕ → Promise V) (next : ℕ)
    (creator : ℕ → ℕ) where
  abbrev pub Owns : ℕ → Caller V → Type 0
  Owns i c =
      (key : ℕ) (state : FactoryState)
      → owns c ≡ some (key, state)
      → (find key flight ≡ some state)
        × (creator state.id ≡ i)
        × (state.id < next)
        × ((at_work c ≡ some state) ⊎ (is_set (promises state.id) ≡ true))

  abbrev pub Works : ℕ → Caller V → Type 0
  Works i c =
      (state : FactoryState)
      → at_work c ≡ some state
      → (is_set (promises state.id) ≡ false) × (creator state.id ≡ i) × (state.id < next)

  abbrev pub Waits : (ℕ → Caller V) → Caller V → Type 0
  Waits callers c =
      (state : FactoryState)
      → waits_on c ≡ some state
      → (state.id < next)
        × ((is_set (promises state.id) ≡ true)
            ⊎ (at_work (callers (creator state.id)) ≡ some state))

  abbrev pub Flying : (ℕ → Caller V) → Type 0
  Flying callers =
      (key : ℕ) (state : FactoryState)
      → find key flight ≡ some state
      → (state.id < next) × (owns (callers (creator state.id)) ≡ some (key, state))

pub record IsShared {ℓ} {V : Type ℓ} (flight : List (ℕ × FactoryState)) (promises : ℕ → Promise V)
    (next : ℕ) (callers : ℕ → Caller V) : Type ℓ where
  pub creator : ℕ → ℕ
  pub maps : IsFunctional flight
  pub owners : (i : ℕ) → Owns flight promises next creator i (callers i)
  pub workers : (i : ℕ) → Works flight promises next creator i (callers i)
  pub waiters : (i : ℕ) → Waits flight promises next creator callers (callers i)
  pub flying : Flying flight promises next creator callers
