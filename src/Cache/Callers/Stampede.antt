-- ===== src/Cache/Callers/Stampede.antt =====
-- src/cache/concurrent_cache.h: callers of `get_or_create` in any order, and the other operations.
use xtd.Base.{
  ℕ, ◌≡◌, refl, sym, subst, ◌⊎◌, inl, inr, true, false, Option, some, List, [], arith, Bool-cases,
  Option-cases,
}
use xtd.Cache.{
  Entry, FactoryState, Shard, find, is_expired, get_expired, insert_or_assign, erase, purge_values,
}
use xtd.Cache.Callers.{pending, Caller, started, Shared, put, get_or_create}
use xtd.Cache.Callers.Sharing.{is_set, owns, at_work, waits_on, IsShared}
use xtd.Cache.Callers.Sections.{get_or_create-IsShared}

-- The callers and what they share.
pub record World {ℓ} (V : Type ℓ) : Type ℓ where
  pub shared : Shared V
  pub callers : ℕ → Caller V

-- What the other operations do to a shard: `insert_or_assign`, `erase`, the second section of `get`,
-- `purge_expired`.
pub data Operation {ℓ} (V : Type ℓ) : Type ℓ where
  inserts : ℕ → Entry V → Operation V
  erases : ℕ → Operation V
  drops : ℕ → ℕ → Operation V
  purges : ℕ → Operation V

module _ {ℓ} {V : Type ℓ} where
  unfoldable pub apply : Operation V → Shard V → Shard V
  apply (inserts key new_entry) s = (insert_or_assign s key new_entry).1
  apply (erases key) s = (erase s key).1
  apply (drops key now) s = get_expired s key now
  apply (purges now) s = record s { values = (purge_values now s.values).0 }

  pub data Step : World V → World V → Type ℓ where
    act :
        (w : World V) (i now : ℕ) (outcome : Option (Entry V))
        → Step w (record {
          shared = (get_or_create w.shared (w.callers i) now outcome).0;
          callers = put i (get_or_create w.shared (w.callers i) now outcome).1 w.callers;
        })
    operate :
        (w : World V) (op : Operation V)
        → Step w (record w { shared = record w.shared { shard = apply op w.shared.shard } })

  pub data Steps : World V → World V → Type ℓ where
    done : (w : World V) → Steps w w
    after : {u v w : World V} → Steps u v → Step v w → Steps u w

  apply-flight : (op : Operation V) (s : Shard V) → (apply op s).in_flight ≡ s.in_flight
  unfolding apply insert_or_assign erase get_expired
  apply-flight (inserts key new_entry) s = refl
  apply-flight (erases key) s = elim (Option-cases (find key s.values)) [
    | inl e ↦ ground (arith, e)
    | inr (x, e) ↦ ground (arith, e)
  ]
  apply-flight (drops key now) s = elim (Option-cases (find key s.values)) [
    | inl e ↦ ground (arith, e)
    | inr (x, e) ↦ elim (Bool-cases (is_expired x now)) [
      | inl f ↦ ground (arith, e, f)
      | inr f ↦ ground (arith, e, f)
    ]
  ]
  apply-flight (purges now) s = refl

  Steps-IsShared :
      {v w : World V}
      → Steps v w
      → IsShared v.shared.shard.in_flight v.shared.promises v.shared.next v.callers
      → IsShared w.shared.shard.in_flight w.shared.promises w.shared.next w.callers
  Steps-IsShared (done w) h = h
  Steps-IsShared (after steps (act w i now outcome)) h =
      get_or_create-IsShared w.shared w.callers i now outcome (Steps-IsShared steps h) (w.callers i)
        refl
  Steps-IsShared (after steps (operate w op)) h =
      subst (λ flight. IsShared flight w.shared.promises w.shared.next w.callers)
        (sym (apply-flight op w.shared.shard)) (Steps-IsShared steps h)

  -- Every caller is about to call for its key, on a shard with these values.
  unfoldable pub start : List (ℕ × Entry V) → (ℕ → ℕ) → World V
  start values keys = record {
    shared = record {
      shard = record { values = values; in_flight = [] };
      promises = λ _. pending;
      next = 0;
    };
    callers = λ i. started (keys i);
  }

-- What the callers may rely on.
pub record IsGuarded {ℓ} {V : Type ℓ} (w : World V) : Type ℓ where
  pub one_owner :
      (i j key : ℕ) (s t : FactoryState)
      → owns (w.callers i) ≡ some (key, s)
      → owns (w.callers j) ≡ some (key, t)
      → i ≡ j
  pub unset :
      (i : ℕ) (s : FactoryState)
      → at_work (w.callers i) ≡ some s
      → is_set (w.shared.promises s.id) ≡ false
  pub served :
      (i : ℕ) (s : FactoryState)
      → waits_on (w.callers i) ≡ some s
      → (is_set (w.shared.promises s.id) ≡ true) ⊎ ((j : ℕ) × (at_work (w.callers j) ≡ some s))
  pub owned :
      (key : ℕ) (s : FactoryState)
      → find key w.shared.shard.in_flight ≡ some s
      → (j : ℕ) × (owns (w.callers j) ≡ some (key, s))

module _ {ℓ} {V : Type ℓ} where
  -- Any number of callers of `get_or_create` on one shard, in any order of their sections, with the
  -- other operations between them: no two callers are in flight for the same key at a time, so that
  -- none runs a factory that another one runs; the promise that a caller is yet to set is not set;
  -- every caller that waits does so for a promise that is set, or that a caller still at work is to
  -- set; and no key stays in flight without a caller that will take it out.
  pub stampede_lem :
      {w : World V} (values : List (ℕ × Entry V)) (keys : ℕ → ℕ)
      → Steps (start values keys) w
      → IsGuarded w
  unfolding start
  stampede_lem {w} values keys steps = record {
    one_owner = λ i j key s t e f.
        let o = h.owners i key s e in let p = h.owners j key t f in cc (o.0, p.0, o.1, p.1);
    unset = λ i s e. (h.workers i s e).0;
    served = λ i s e. elim (h.waiters i s e).1 [
      | inl set ↦ inl set
      | inr busy ↦ inr (h.creator s.id, busy)
    ];
    owned = λ key s e. (h.creator s.id, (h.flying key s e).1);
  }
    where
      h : IsShared w.shared.shard.in_flight w.shared.promises w.shared.next w.callers
      h = Steps-IsShared steps (record {
        creator = λ n. n;
        maps = tt;
        owners = λ i key state e. absurd (cc e);
        workers = λ i state e. absurd (cc e);
        waiters = λ i state e. absurd (cc e);
        flying = λ key state e. absurd (cc e);
      })
