-- ===== src/Bio/Tests.antt =====
-- A block is read, and its buffer is released.
use ssuos_mminos.Base.{ℕ, ◌≡◌, refl, true, false, some, List, [], ◌∷◌, ◌++◌}
use ssuos_mminos.Bio.{
  Cache, zeroed, binit, init_loop, push_front, unlink, walk, bget, acquiresleep, bread, iderw,
  brelse,
}
use ssuos_mminos.Bio.Order.{down}
use ssuos_mminos.Bio.Lru.{Ring, bget_in, binit-Ring, bget-lru}
use ssuos_mminos.Bio.Uses.{System, Use, gets, locks, reads, releases, Reach, here, later, start}
use ssuos_mminos.Bio.Coherence.{Coherent}
use ssuos_mminos.Bio.Release.{Reach-Coherent}

bget-lru_example :
    (bget 1 7 (binit zeroed) ≡ bget_in (down 30) 1 7 (binit zeroed))
    × ((b : ℕ) (us vs : List ℕ)
        → down 30 ≡ us ++ b ∷ vs
        → (binit zeroed).locked b ≡ true
        → (binit zeroed).refcnt b ≡ 1
        → (c' : Cache) × (brelse b (binit zeroed) ≡ some c')
          × (c'.refcnt b ≡ 0)
          × Ring c' (b ∷ us ++ vs))
bget-lru_example = bget-lru (binit zeroed) (down 30) 1 7 (binit-Ring zeroed)

abbrev own : Use
own = record { buf = 0; dev = 1; blockno = 7; held = false }

abbrev asked : (s : System) × Reach start s
unfolding bget walk binit init_loop push_front
asked = (_, later here (gets 0 1 7 refl))

abbrev released : (s : System) × Reach start s
unfolding asked bget walk binit init_loop push_front unlink acquiresleep bread iderw brelse
released = (
  _,
  later
      (later (later asked.1 (locks [] [] own refl refl refl))
        (reads [] [] (record own { held = true }) refl refl refl))
      (releases [] [] (record own { held = true }) refl refl refl),
)

Reach-Coherent_example : Coherent released.0
Reach-Coherent_example = Reach-Coherent released.1
