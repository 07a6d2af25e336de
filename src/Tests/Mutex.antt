-- ===== src/Tests/Mutex.antt =====
-- Two processes at a lock whose address is 4096, for the theorems on src/mutex.c.
use aijak.Common.{ℕ, ◌≡◌, ◌≢◌, ◌↔◌, refl, arith}
use aijak.Mutex.{outside, holding, System, lock_round, lock_round-excludes_iff}

abbrev free_lock : System
free_lock = record { word = 0; phase = λ p. outside }

-- The address stands in the register.
lock_round-excludes_iff_example :
    let t = lock_round 4096 (lock_round 4096 free_lock 1) 2 in
    (t.phase 1 ≡ holding) × ((t.phase 2 ≢ holding) ↔ ◌≡◌ {A = ℕ} 0 4096)
lock_round-excludes_iff_example = lock_round-excludes_iff 4096 free_lock 1 2 refl (λ e. omega arith)
