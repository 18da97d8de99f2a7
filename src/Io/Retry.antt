-- ===== src/Io/Retry.antt =====
-- The loop in which server/master/kyrin_master_sentinel.cc and server/chunk/kyrin_chunk_gossiper.cc
-- repeat a request that fails.
use kyrin_box.Prelude.{
  ℕ, zero, suc, ◌+◌, ◌≡◌, ◌∙◌, refl, Bool, true, false, List, [], ◌∷◌, if◌then◌else◌, ◌==◌, arith,
}

-- `while (!request && retry != 3) retry++`: the value of `retry` behind the loop, from the results
-- of the requests, with `n` increments left. The request that is made when none is left ends the
-- loop whatever its result is. Past the end of the list the requests fail.
pub retry_loop : ℕ → ℕ → List Bool → ℕ
retry_loop zero retry answers = retry
retry_loop (suc n) retry [] = retry_loop n (retry + 1) []
retry_loop (suc n) retry (done ∷ answers) =
    let rest = retry_loop n (retry + 1) answers in if done then retry else rest

-- The first three results, where a missing one is a failure.
abbrev pub all_fail : ℕ → List Bool → Bool
all_fail zero answers = true
all_fail (suc n) [] = true
all_fail (suc n) (true ∷ answers) = false
all_fail (suc n) (false ∷ answers) = all_fail n answers

all_fail_nil : (n : ℕ) → all_fail n [] ≡ true
all_fail_nil zero = refl
all_fail_nil (suc n) = refl

retry_loop-all_fail :
    (n r t : ℕ) (answers : List Bool)
    → t ≡ r + n
    → (retry_loop n r answers == t) ≡ all_fail n answers
unfolding retry_loop
retry_loop-all_fail zero r t answers h = ground arith
retry_loop-all_fail (suc n) r t [] h =
    retry_loop-all_fail n (r + 1) t [] (omega arith) ∙ all_fail_nil n
retry_loop-all_fail (suc n) r t (true ∷ answers) h = ground arith
retry_loop-all_fail (suc n) r t (false ∷ answers) h =
    retry_loop-all_fail n (r + 1) t answers (omega arith)

-- `retry` is 3 behind the loop exactly if the first three requests fail; the fourth request, which
-- is then made, has no say.
pub retry_loop_lem : (answers : List Bool) → (retry_loop 3 0 answers == 3) ≡ all_fail 3 answers
retry_loop_lem answers = retry_loop-all_fail 3 0 3 answers refl
