-- ===== src/Cache/Callers/Settling.antt =====
-- src/cache/concurrent_cache.h: a state is made, and its promise is set.
use xtd.Base.{
  ℕ, ◌+◌, ◌<◌, ◌≡◌, sym, ap, ap₂, ◌∙◌, ◌≢◌, inl, inr, true, false, Option, none, some, List, arith,
  ℕ_discrete, ◌==◌, ne→==,
}
use mathlib.Core.Option.{some-injective}
use xtd.Cache.{FactoryState, find, assign}
use xtd.Cache.Tables.{find-assign_same, find-assign_other, assign-IsFunctional}
use xtd.Cache.Callers.{Promise, pending, Caller, running, put}
use xtd.Cache.Callers.Sharing.{
  put_same, put_other, put_elim, is_set, owns, at_work, waits_on, Owns, Works, Waits, IsShared,
}
use xtd.Cache.Callers.Moves.{owner_stays}

module _ {ℓ} {V : Type ℓ} {flight : List (ℕ × FactoryState)} {promises : ℕ → Promise V} {next : ℕ}
    {callers : ℕ → Caller V} (i : ℕ) (d : Caller V)
    (h : IsShared flight promises next callers) where
  -- The worker of a state sets its promise.
  pub settle :
      (state : FactoryState) (v : Promise V)
      → is_set v ≡ true
      → at_work (callers i) ≡ some state
      → at_work d ≡ none
      → waits_on d ≡ none
      → owns d ≡ owns (callers i)
      → IsShared flight (put state.id v promises) next (put i d callers)
  settle state v full busy idle awake same_key = record {
    creator = h.creator;
    maps = h.maps;
    owners = λ j.
        put_elim (Owns flight changed next h.creator j) i j d callers
          (λ here key state' e.
            let o = h.owners i key state' (sym same_key ∙ e) in
            (
              o.0,
              o.1 ∙ sym here,
              o.2,
              inr (elim o.3 [
                | inl w ↦
                    let same : state'.id ≡ state.id = cc (w, busy) in
                    ap (λ k. is_set (changed k)) same
                    ∙ ap is_set (put_same state.id v promises)
                    ∙ full
                | inr set ↦ set_stays state'.id set
              ]),
            ))
          (λ _ key state' e.
            let o = h.owners j key state' e in
            (o.0, o.1, o.2, elim o.3 [ inl w ↦ inl w | inr set ↦ inr (set_stays state'.id set) ]));
    workers = λ j.
        put_elim (Works flight changed next h.creator j) i j d callers
          (λ _ state' e. absurd (cc (idle, e)))
          (λ apart state' e.
            let w = h.workers j state' e in
            let mine = h.workers i state busy in
            let other : state'.id ≢ state.id = λ same. apart (cc (same, w.1, mine.1)) in
            (ap is_set (put_other state.id state'.id v promises other) ∙ w.0, w.1, w.2));
    waiters = λ j.
        put_elim (Waits flight changed next h.creator (put i d callers)) i j d callers
          (λ _ state' e. absurd (cc (awake, e)))
          (λ _ state' e.
            let (used, ready) = h.waiters j state' e in
            (
              used,
              elim ready [
                | inl set ↦ inl (set_stays state'.id set)
                | inr w ↦ elim (ℕ_discrete (h.creator state'.id) i) [
                  | yes here ↦
                      let same : state'.id ≡ state.id = cc (here, w, busy) in
                      inl (
                        ap (λ k. is_set (changed k)) same
                        ∙ ap is_set (put_same state.id v promises)
                        ∙ full)
                  | no apart ↦
                      inr (ap at_work (put_other i (h.creator state'.id) d callers apart) ∙ w)
                ]
              ],
            ));
    flying = λ key state' e.
        let f = h.flying key state' e in
        (f.0, owner_stays i d h same_key (h.creator state'.id) key state' f.1);
  }
    where
      changed : ℕ → Promise V
      changed = put state.id v promises

      set_stays : (n : ℕ) → is_set (promises n) ≡ true → is_set (changed n) ≡ true
      set_stays n set = put_elim (λ p. is_set p ≡ true) state.id n v promises (λ _. full) (λ _. set)

  -- A caller that was not at work makes a state for a key that is not in flight.
  pub take_off :
      (key : ℕ) (fresh : FactoryState)
      → fresh.id ≡ next
      → find key flight ≡ none
      → owns (callers i) ≡ none
      → at_work (callers i) ≡ none
      → d ≡ running key fresh
      → IsShared
          (assign key fresh flight)
          (put fresh.id pending promises)
          (next + 1)
          (put i d callers)
  take_off key fresh new absent unowned idle same = record {
    creator = made;
    maps = assign-IsFunctional key fresh flight h.maps;
    owners = λ j.
        put_elim (Owns flight' promises' (next + 1) made j) i j d callers
          (λ here key' state' e.
            let (kept, mine) = taken key' state' (ap owns (sym same) ∙ e) in
            (
              ap (λ k. find k flight') (sym kept)
                  ∙ find-assign_same key fresh flight
                  ∙ ap some mine,
              ap (λ (t : FactoryState). made t.id) (sym mine) ∙ made_new ∙ sym here,
              omega (arith, new, ap (λ (t : FactoryState). t.id) mine),
              inl (ap at_work same ∙ ap some mine),
            ))
          (λ apart key' state' e.
            let o = h.owners j key' state' e in
            let other : (key == key') ≡ false =
              ne→== key key' (λ k. absurd (cc (k, absent, o.0))) in
            (
              find-assign_other key key' fresh flight other ∙ o.0,
              made_other state' o.2 ∙ o.1,
              omega (arith, o.2),
              elim o.3 [
                | inl w ↦ inl w
                | inr set ↦ inr (ap is_set (promise_other state' o.2) ∙ set)
              ],
            ));
    workers = λ j.
        put_elim (Works flight' promises' (next + 1) made j) i j d callers
          (λ here state' e.
            let mine : fresh ≡ state' = some-injective fresh state' (ap at_work (sym same) ∙ e) in
            (
              ap (λ (t : FactoryState). is_set (promises' t.id)) (sym mine)
                  ∙ ap is_set (put_same fresh.id pending promises),
              ap (λ (t : FactoryState). made t.id) (sym mine) ∙ made_new ∙ sym here,
              omega (arith, new, ap (λ (t : FactoryState). t.id) mine),
            ))
          (λ apart state' e.
            let w = h.workers j state' e in
            (
              ap is_set (promise_other state' w.2) ∙ w.0,
              made_other state' w.2 ∙ w.1,
              omega (arith, w.2),
            ));
    waiters = λ j.
        put_elim (Waits flight' promises' (next + 1) made (put i d callers)) i j d callers
          (λ _ state' e. absurd (cc (ap waits_on same, e)))
          (λ _ state' e.
            let (used, ready) = h.waiters j state' e in
            (
              omega (arith, used),
              elim ready [
                | inl set ↦ inl (ap is_set (promise_other state' used) ∙ set)
                | inr w ↦ inr (
                    ap (λ k. at_work (put i d callers k)) (made_other state' used)
                    ∙ put_elim (λ c. at_work c ≡ some state') i (h.creator state'.id) d callers
                        (λ here. absurd (cc (here, w, idle))) (λ _. w))
              ],
            ));
    flying = λ key' state' e. elim (ℕ_discrete key key') [
      | yes k ↦
          let mine : fresh ≡ state' =
            some-injective fresh state'
              (sym (find-assign_same key fresh flight) ∙ ap (λ n. find n flight') k ∙ e) in
          (
            omega (arith, new, ap (λ (t : FactoryState). t.id) mine),
            ap (λ (t : FactoryState). owns (put i d callers (made t.id))) (sym mine)
                ∙ ap (λ x. owns (put i d callers x)) made_new
                ∙ ap owns (put_same i d callers ∙ same)
                ∙ ap₂ (λ n t. some (n, t)) k mine,
          )
      | no apart ↦
          let f =
            h.flying key' state'
              (sym (find-assign_other key key' fresh flight (ne→== key key' apart)) ∙ e) in
          (
            omega (arith, f.0),
            ap (λ x. owns (put i d callers x)) (made_other state' f.0)
                ∙ put_elim (λ c. owns c ≡ some (key', state')) i (h.creator state'.id) d callers
                    (λ here. absurd (cc (here, f.1, unowned))) (λ _. f.1),
          )
    ];
  }
    where
      flight' : List (ℕ × FactoryState)
      flight' = assign key fresh flight

      promises' : ℕ → Promise V
      promises' = put fresh.id pending promises

      made : ℕ → ℕ
      made = put next i h.creator

      made_new : made fresh.id ≡ i
      made_new = ap made new ∙ put_same next i h.creator

      taken :
          (key' : ℕ) (state' : FactoryState)
          → ◌≡◌ {A = Option (ℕ × FactoryState)} (some (key, fresh)) (some (key', state'))
          → (key ≡ key') × (fresh ≡ state')
      taken key' state' e =
          let p = some-injective (key, fresh) (key', state') e in (ap (λ x. x.0) p, ap (λ x. x.1) p)

      made_other : (state : FactoryState) → state.id < next → made state.id ≡ h.creator state.id
      made_other state used = put_other next state.id i h.creator (λ e. absurd (omega arith))

      promise_other :
          (state : FactoryState) → state.id < next → promises' state.id ≡ promises state.id
      promise_other state used =
          put_other fresh.id state.id pending promises (λ e. absurd (omega arith))
