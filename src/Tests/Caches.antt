-- ===== src/Tests/Caches.antt =====
-- src/cache/concurrent_cache.h: runs on a shard.
use xtd.Base.{ℕ, ◌+◌, ◌≡◌, refl, ◌⊎◌, true, false, none, some, [], ◌∷◌, if◌then◌else◌}
use xtd.Cache.{
  Entry, FactoryState, Shard, find, is_expired, get_expired, get, contains, insert_or_assign, erase,
  claim, publish, purge_expired, size, internal_fast_get,
}
use xtd.Cache.Laws.{
  value_at, is_some, IsWellFormed, Erased, get_lem, get_expired-drops_fresh, insert_or_assign_lem,
  erase_lem,
}
use xtd.Cache.Creating.{Claimed, Published, claim_lem, publish_lem}
use xtd.Cache.Callers.{waiting, get_or_create, put}
use xtd.Cache.Callers.Stampede.{World, Steps, done, after, act, start, IsGuarded, stampede_lem}
use xtd.Cache.Purge.{Purged, entries, purge_expired_lem}

abbrev old : Entry ℕ
old = record { content = 70; expires_at = some 5 }

abbrev lasting : Entry ℕ
lasting = record { content = 80; expires_at = none }

-- key 1 expires at 5, key 2 never does
abbrev shard : Shard ℕ
shard = record { values = (1, old) ∷ (2, lasting) ∷ []; in_flight = [] }

shard-IsWellFormed : IsWellFormed shard
shard-IsWellFormed = record { values = (refl, (refl, tt)); in_flight = tt }

get_example :
    ((get shard 1 6 6).0 ≡ value_at shard 1 6) × (contains shard 1 6 ≡ is_some (value_at shard 1 6))
get_example = get_lem shard 1 6 6

get_expired-drops_fresh_example :
    ((is_expired lasting 9 ≡ false) × (find 2 (get_expired shard 2 9).values ≡ none))
    ⊎ ((is_expired lasting 9 ≡ true) × (get_expired shard 2 9 ≡ shard))
get_expired-drops_fresh_example = get_expired-drops_fresh shard 2 9 lasting shard-IsWellFormed refl

insert_or_assign_example :
    ((insert_or_assign shard 1 lasting).0 ≡ 80)
    × (value_at (insert_or_assign shard 1 lasting).1 1 6
        ≡ (if is_expired lasting 6 then none else some 80))
    × (value_at (insert_or_assign shard 1 lasting).1 2 6 ≡ value_at shard 2 6)
    × ((insert_or_assign shard 1 lasting).1.in_flight ≡ [])
    × IsWellFormed (insert_or_assign shard 1 lasting).1
insert_or_assign_example = insert_or_assign_lem shard 1 2 6 lasting shard-IsWellFormed refl

erase_example : Erased shard 1 2 (erase shard 1)
erase_example = erase_lem shard 1 2 shard-IsWellFormed refl

abbrev mine : FactoryState
mine = record { id = 1 }

claim_example : Claimed shard 1 6 mine (claim shard 1 6 mine)
claim_example = claim_lem shard 1 6 mine

abbrev flying : Shard ℕ
flying = record { values = shard.values; in_flight = (1, mine) ∷ [] }

flying-IsWellFormed : IsWellFormed flying
flying-IsWellFormed = record { values = (refl, (refl, tt)); in_flight = (refl, tt) }

publish_example : Published flying 1 2 6 lasting (publish flying 1 6 lasting)
publish_example = publish_lem flying 1 2 6 lasting flying-IsWellFormed refl

purge_expired_example :
    Purged 6 (shard ∷ flying ∷ []) (purge_expired (shard ∷ flying ∷ []) 6).0
    × ((purge_expired (shard ∷ flying ∷ []) 6).1 + size (shard ∷ flying ∷ []) 6 ≡ 4)
    × (entries (purge_expired (shard ∷ flying ∷ []) 6).0 ≡ size (shard ∷ flying ∷ []) 6)
purge_expired_example =
    purge_expired_lem (shard ∷ flying ∷ []) 6 (shard-IsWellFormed, (flying-IsWellFormed, tt))

-- Two callers for key 5, of which the first runs its factory and the second waits.
abbrev first_state : World ℕ
first_state = start [] (λ _. 5)

abbrev moved : World ℕ → ℕ → World ℕ
moved w i = record {
  shared = (get_or_create w.shared (w.callers i) 6 none).0;
  callers = put i (get_or_create w.shared (w.callers i) 6 none).1 w.callers;
}

abbrev in_factory : World ℕ
in_factory = moved (moved first_state 0) 0

abbrev in_future : World ℕ
in_future = moved (moved in_factory 1) 1

in_future-Steps : Steps first_state in_future
in_future-Steps =
    after
      (after
        (after (after (done first_state) (act first_state 0 6 none))
          (act (moved first_state 0) 0 6 none))
        (act in_factory 1 6 none))
      (act (moved in_factory 1) 1 6 none)

stampede_example : IsGuarded in_future
stampede_example = stampede_lem [] (λ _. 5) in_future-Steps

-- The run above ends with the second caller in `future.get`.
in_future_run : in_future.callers 1 ≡ waiting (record { id = 0 })
unfolding start get_or_create internal_fast_get claim
in_future_run = refl
