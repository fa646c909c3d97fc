-- ===== src/Cache/Callers/Sections.antt =====
-- src/cache/concurrent_cache.h: every section of `get_or_create` keeps what the callers rely on.
use xtd.Base.{
  ℕ, ◌<◌, ◌≡◌, refl, sym, ap, subst, ◌∙◌, ◌⊎◌, inl, inr, true, Option, none, some, List, arith,
  Bool-cases, Option-cases,
}
use mathlib.Core.Option.{some-injective}
use xtd.Cache.{
  Entry, FactoryState, Shard, present, awaited, owner, find, extract, assign, is_expired,
  LookupResult, missing, expired, found, internal_fast_get, claim, publish, remove_in_flight,
}
use xtd.Cache.Callers.{
  Promise, pending, value, exception, Caller, started, missed, waiting, running, created,
  fulfilling, broken, returned, threw, Shared, put, after_lookup, after_claim, future_get,
  get_or_create,
}
use xtd.Cache.Callers.Sharing.{is_set, owns, at_work, waits_on, Waits, IsShared}
use xtd.Cache.Callers.Moves.{go_on, land}
use xtd.Cache.Callers.Settling.{settle, take_off}

module _ {ℓ} {V : Type ℓ} where
  publish_lands :
      (s : Shard V) (key now : ℕ) (e : Entry V)
      → (publish s key now e).1.in_flight ≡ extract key s.in_flight
  unfolding publish
  publish_lands s key now e = elim (Option-cases (find key s.values)) [
    | inl f ↦ ground (arith, f)
    | inr (x, f) ↦ elim (Bool-cases (is_expired x now)) [
      | inl g ↦ ground (arith, f, g)
      | inr g ↦ ground (arith, f, g)
    ]
  ]

  remove_lands :
      (s : Shard V) (key : ℕ) (state : FactoryState)
      → find key s.in_flight ≡ some state
      → (remove_in_flight s key state).in_flight ≡ extract key s.in_flight
  unfolding remove_in_flight
  remove_lands s key state e = ground (arith, e)

  -- The ends of the first section.
  claim_cases :
      (s : Shard V) (key now : ℕ) (fresh : FactoryState)
      → ((v : V) × (claim s key now fresh ≡ (present v, s)))
        ⊎ (((state : FactoryState) × (find key s.in_flight ≡ some state)
              × (claim s key now fresh ≡ (awaited state, s)))
            ⊎ ((find key s.in_flight ≡ none)
                × (claim s key now fresh
                    ≡ (owner fresh, record s { in_flight = assign key fresh s.in_flight }))))
  unfolding claim
  claim_cases s key now fresh = elim (Option-cases (find key s.values)) [
    | inl e ↦ joined (ground (arith, e))
    | inr (x, e) ↦ elim (Bool-cases (is_expired x now)) [
      | inl f ↦ joined (ground (arith, e, f))
      | inr f ↦ inl (x.content, ground (arith, e, f))
    ]
  ]
    where
      joined :
          claim s key now fresh ≡ elim (find key s.in_flight) [
            | some state ↦ (awaited state, s)
            | none ↦ (owner fresh, record s { in_flight = assign key fresh s.in_flight })
          ]
          → ((v : V) × (claim s key now fresh ≡ (present v, s)))
            ⊎ (((state : FactoryState) × (find key s.in_flight ≡ some state)
                  × (claim s key now fresh ≡ (awaited state, s)))
                ⊎ ((find key s.in_flight ≡ none)
                    × (claim s key now fresh
                        ≡ (owner fresh, record s { in_flight = assign key fresh s.in_flight }))))
      joined same = elim (Option-cases (find key s.in_flight)) [
        | inl e ↦ inr (inr (e, same ∙ rw e refl))
        | inr (state, e) ↦ inr (inl (state, e, same ∙ rw e refl))
      ]

module _ {ℓ} {V : Type ℓ} {flight : List (ℕ × FactoryState)} {promises : ℕ → Promise V} {next : ℕ}
    {callers : ℕ → Caller V} (i : ℕ) (h : IsShared flight promises next callers) where
  -- A caller without a part in a factory goes on to such a place again.
  stroll :
      (c d : Caller V)
      → callers i ≡ c
      → owns c ≡ none
      → at_work c ≡ none
      → owns d ≡ none
      → at_work d ≡ none
      → waits_on d ≡ none
      → IsShared flight promises next (put i d callers)
  stroll c d e a b a' b' w =
      go_on i d h (a' ∙ sym (ap owns e ∙ a)) (b' ∙ sym (ap at_work e ∙ b))
        (λ state bad. absurd (cc (w, bad)))

module _ {ℓ} {V : Type ℓ} (r : Shared V) (callers : ℕ → Caller V) (i now : ℕ)
    (outcome : Option (Entry V)) (h : IsShared r.shard.in_flight r.promises r.next callers) where
  abbrev pub Kept : Shared V × Caller V → Type ℓ
  Kept out = IsShared out.0.shard.in_flight out.0.promises out.0.next (put i out.1 callers)

  after_lookup-IsShared :
      (key : ℕ) (l : LookupResult V) → callers i ≡ started key → Kept (after_lookup r key l)
  after_lookup-IsShared key (found v) e =
      stroll i h (started key) (returned v) e refl refl refl refl refl
  after_lookup-IsShared key expired e =
      stroll i h (started key) (missed key) e refl refl refl refl refl
  after_lookup-IsShared key missing e =
      stroll i h (started key) (missed key) e refl refl refl refl refl

  first_section :
      (key : ℕ)
      → callers i ≡ missed key
      → Kept (after_claim r key (claim r.shard key now (record { id = r.next })))
  first_section key e = elim (claim_cases r.shard key now (record { id = r.next })) [
    | inl (v, same) ↦
        subst (λ out. Kept (after_claim r key out)) (sym same)
          (stroll i h (missed key) (returned v) e refl refl refl refl refl)
    | inr (inl (state, flying, same)) ↦
        subst (λ out. Kept (after_claim r key out)) (sym same)
          (go_on i (waiting state) h (sym (ap owns e)) (sym (ap at_work e)) (join key state flying))
    | inr (inr (absent, same)) ↦
        subst (λ out. Kept (after_claim r key out)) (sym same)
          (take_off i (running key (record { id = r.next })) h key (record { id = r.next }) refl
            absent (ap owns e) (ap at_work e) refl)
  ]
    where
      join :
          (key : ℕ) (state : FactoryState)
          → find key r.shard.in_flight ≡ some state
          → Waits r.shard.in_flight r.promises r.next h.creator callers (waiting state)
      join key state flying other e =
          let same : state ≡ other = some-injective state other e in
          let f = h.flying key state flying in
          let o = h.owners (h.creator state.id) key state f.1 in
          subst
            (λ t.
              (t.id < r.next)
              × ((is_set (r.promises t.id) ≡ true) ⊎ (at_work (callers (h.creator t.id)) ≡ some t)))
            same (f.0, elim o.3 [ inl w ↦ inr w | inr set ↦ inl set ])

  future_get-IsShared :
      (state : FactoryState) (p : Promise V)
      → callers i ≡ waiting state
      → Kept (future_get r state p)
  future_get-IsShared state pending e =
      go_on i (waiting state) h (sym (ap owns e)) (sym (ap at_work e))
        (λ other f. h.waiters i other (ap waits_on e ∙ f))
  future_get-IsShared state (value v) e =
      stroll i h (waiting state) (returned v) e refl refl refl refl refl
  future_get-IsShared state exception e =
      stroll i h (waiting state) threw e refl refl refl refl refl

  running-IsShared :
      (key : ℕ) (state : FactoryState) (made : Option (Entry V))
      → callers i ≡ running key state
      → Kept (get_or_create r (running key state) now made)
  unfolding get_or_create
  running-IsShared key state none e =
      settle i (broken key state) h state exception refl (ap at_work e) refl refl (sym (ap owns e))
  running-IsShared key state (some new_entry) e =
      go_on i (created key state new_entry) h (sym (ap owns e)) (sym (ap at_work e))
        (λ other f. absurd (cc f))

  -- One step of a caller keeps the invariant.
  pub get_or_create-IsShared : (c : Caller V) → callers i ≡ c → Kept (get_or_create r c now outcome)
  unfolding get_or_create
  get_or_create-IsShared (started key) e =
      after_lookup-IsShared key (internal_fast_get r.shard key now) e
  get_or_create-IsShared (missed key) e = first_section key e
  get_or_create-IsShared (waiting state) e = future_get-IsShared state (r.promises state.id) e
  get_or_create-IsShared (running key state) e = running-IsShared key state outcome e
  get_or_create-IsShared (created key state new_entry) e =
      subst
        (λ flight.
          IsShared flight r.promises r.next
            (put i (fulfilling state (publish r.shard key now new_entry).0) callers))
        (sym (publish_lands r.shard key now new_entry))
        (land i (fulfilling state (publish r.shard key now new_entry).0) h key state (ap owns e)
          refl refl (sym (ap at_work e)))
  get_or_create-IsShared (fulfilling state v) e =
      settle i (returned v) h state (value v) refl (ap at_work e) refl refl (sym (ap owns e))
  get_or_create-IsShared (broken key state) e =
      let flying = (h.owners i key state (ap owns e)).0 in
      subst (λ flight. IsShared flight r.promises r.next (put i threw callers))
        (sym (remove_lands r.shard key state flying))
        (land i threw h key state (ap owns e) refl refl (sym (ap at_work e)))
  get_or_create-IsShared (returned v) e =
      stroll i h (returned v) (returned v) e refl refl refl refl refl
  get_or_create-IsShared threw e = stroll i h threw threw e refl refl refl refl refl
