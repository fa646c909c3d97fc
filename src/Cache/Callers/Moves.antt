-- ===== src/Cache/Callers/Moves.antt =====
-- src/cache/concurrent_cache.h: what one caller may do to what all of them share.
use xtd.Base.{
  ℕ, ◌≡◌, sym, ap, ◌∙◌, inl, inr, false, Option, none, some, List, ℕ_discrete, ◌==◌, ne→==,
}
use xtd.Cache.{FactoryState, find, extract}
use xtd.Cache.Tables.{find-extract_same, find-extract_other, extract-IsFunctional}
use xtd.Cache.Callers.{Promise, Caller, put}
use xtd.Cache.Callers.Sharing.{put_elim, owns, at_work, waits_on, Owns, Works, Waits, IsShared}

abbrev key_of : Option (ℕ × FactoryState) → ℕ
key_of none = 0
key_of (some (key, state)) = key

module _ {ℓ} {V : Type ℓ} {flight : List (ℕ × FactoryState)} {promises : ℕ → Promise V} {next : ℕ}
    {callers : ℕ → Caller V} (i : ℕ) (d : Caller V)
    (h : IsShared flight promises next callers) where
  worker_stays :
      at_work d ≡ at_work (callers i)
      → (x : ℕ) (state : FactoryState) → at_work (callers x) ≡ some state
      → at_work (put i d callers x) ≡ some state
  worker_stays same x state e =
      put_elim (λ c. at_work c ≡ some state) i x d callers
        (λ here. same ∙ ap (λ k. at_work (callers k)) (sym here) ∙ e) (λ _. e)

  Waits-stay :
      at_work d ≡ at_work (callers i)
      → (c : Caller V) → Waits flight promises next h.creator callers c
      → Waits flight promises next h.creator (put i d callers) c
  Waits-stay same c w state e =
      let (used, ready) = w state e in
      (
        used,
        elim ready [
          | inl set ↦ inl set
          | inr busy ↦ inr (worker_stays same (h.creator state.id) state busy)
        ],
      )

  pub owner_stays :
      owns d ≡ owns (callers i)
      → (x key : ℕ) (state : FactoryState) → owns (callers x) ≡ some (key, state)
      → owns (put i d callers x) ≡ some (key, state)
  owner_stays same x key state e =
      put_elim (λ c. owns c ≡ some (key, state)) i x d callers
        (λ here. same ∙ ap (λ k. owns (callers k)) (sym here) ∙ e) (λ _. e)

  -- A caller goes on without a change to what is shared.
  pub go_on :
      owns d ≡ owns (callers i)
      → at_work d ≡ at_work (callers i)
      → Waits flight promises next h.creator callers d
      → IsShared flight promises next (put i d callers)
  go_on same_key same_work waits = record {
    creator = h.creator;
    maps = h.maps;
    owners = λ j.
        put_elim (Owns flight promises next h.creator j) i j d callers
          (λ here key state e.
            let o = h.owners i key state (sym same_key ∙ e) in
            (
              o.0,
              o.1 ∙ sym here,
              o.2,
              elim o.3 [ inl w ↦ inl (same_work ∙ w) | inr set ↦ inr set ],
            ))
          (λ _. h.owners j);
    workers = λ j.
        put_elim (Works flight promises next h.creator j) i j d callers
          (λ here state e.
            let w = h.workers i state (sym same_work ∙ e) in (w.0, w.1 ∙ sym here, w.2))
          (λ _. h.workers j);
    waiters = λ j.
        put_elim (Waits flight promises next h.creator (put i d callers)) i j d callers
          (λ _. Waits-stay same_work d waits) (λ _. Waits-stay same_work (callers j) (h.waiters j));
    flying = λ key state e.
        let f = h.flying key state e in
        (f.0, owner_stays same_key (h.creator state.id) key state f.1);
  }

  -- The owner of a key takes it out of flight.
  pub land :
      (key : ℕ) (state : FactoryState)
      → owns (callers i) ≡ some (key, state)
      → owns d ≡ none
      → waits_on d ≡ none
      → at_work d ≡ at_work (callers i)
      → IsShared (extract key flight) promises next (put i d callers)
  land key state owned gone awake same_work = record {
    creator = h.creator;
    maps = extract-IsFunctional key flight h.maps;
    owners = λ j.
        put_elim (Owns (extract key flight) promises next h.creator j) i j d callers
          (λ here key' state' e. absurd (cc (gone, e)))
          (λ apart key' state' e.
            let o = h.owners j key' state' e in
            let mine = h.owners i key state owned in
            let other : (key == key') ≡ false =
              ne→== key key' (λ same. apart (cc (same, o.0, o.1, mine.0, mine.1))) in
            (find-extract_other key key' flight other ∙ o.0, o.1, o.2, o.3));
    workers = λ j.
        put_elim (Works (extract key flight) promises next h.creator j) i j d callers
          (λ here state' e.
            let w = h.workers i state' (sym same_work ∙ e) in (w.0, w.1 ∙ sym here, w.2))
          (λ _. h.workers j);
    waiters = λ j.
        put_elim (Waits (extract key flight) promises next h.creator (put i d callers)) i j d
          callers (λ _ state' e. absurd (cc (awake, e)))
          (λ _. Waits-stay same_work (callers j) (h.waiters j));
    flying = λ key' state' e. elim (ℕ_discrete key key') [
      | yes same ↦ absurd (
          cc (
            sym (ap (λ k. find k (extract key flight)) same) ∙ find-extract_same key flight h.maps,
            e,
          ))
      | no apart ↦
          let f =
            h.flying key' state'
              (sym (find-extract_other key key' flight (ne→== key key' apart)) ∙ e) in
          (
            f.0,
            put_elim (λ c. owns c ≡ some (key', state')) i (h.creator state'.id) d callers
                (λ here.
                  absurd
                    (apart (ap key_of (sym owned ∙ ap (λ k. owns (callers k)) (sym here) ∙ f.1))))
                (λ _. f.1),
          )
    ];
  }
