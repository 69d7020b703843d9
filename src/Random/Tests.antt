-- ===== src/Random/Tests.antt =====
-- Tests of the generator.
use libpogost.Base.{◌≡◌, refl, arith}
use libpogost.Random.{step, seed, draws}
use libpogost.Random.Live.{IsLive, draws-seed}

step_test : (step (seed 1 2 3 4)).0 ≡ 41943041
unfolding step seed
step_test = refl

zero_seed_test : seed 0 0 0 0 ≡ record { s0 = 1; s1 = 0; s2 = 0; s3 = 0 }
unfolding seed
zero_seed_test = refl

draws-seed_example : IsLive (draws 1000 (seed 0 0 0 0))
draws-seed_example = draws-seed 1000 0 0 0 0 (omega arith) (omega arith) (omega arith) (omega arith)
