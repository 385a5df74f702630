-- ===== src/Container/StepDown.antt =====
-- packages/plugin-container-sizing/src/calculator.ts: the loop that steps the worker count down.
use clusterkit.Common.{ℕ, zero, suc, ◌≤◌, ◌<◌, ◌≡◌, sym, subst, if_cases, not, ltb, leb, arith}
use clusterkit.Container.{min_viable_heap_mb, step_down}

-- The count that the loop is left with.
pub record IsReached (heap : ℕ → ℕ) (least start n : ℕ) : Type 0 where
  pub not_less : least ≤ n
  pub not_more : n ≤ start
  pub viable : least < n → min_viable_heap_mb ≤ heap n
  pub none_above : (m : ℕ) → n < m → m ≤ start → heap m < min_viable_heap_mb

module _ (heap : ℕ → ℕ) (least : ℕ) where
  stops : (n : ℕ) → least ≤ n → (least < n → min_viable_heap_mb ≤ heap n) → IsReached heap least n n
  stops n h v = record {
    not_less = h;
    not_more = omega arith;
    viable = v;
    none_above = λ m a b. absurd (omega (arith, a, b));
  }

  steps :
      (n k : ℕ)
      → heap (suc n) < min_viable_heap_mb
      → IsReached heap least n k
      → IsReached heap least (suc n) k
  steps n k low r = record {
    not_less = r.not_less;
    not_more = omega (arith, r.not_more);
    viable = r.viable;
    none_above = λ m a b. ground (arith, r.none_above m, a, b, low, ap_heap m n low);
  }
    where
      ap_heap :
          (m n : ℕ) → heap (suc n) < min_viable_heap_mb → m ≡ suc n → heap m < min_viable_heap_mb
      ap_heap m n low e = subst (λ (i : ℕ). heap i < min_viable_heap_mb) (sym e) low

  pub step_down_lem :
      (start : ℕ) → least ≤ start → IsReached heap least start (step_down heap least start)
  unfolding step_down
  step_down_lem zero h = stops zero h (λ k. absurd (omega (arith, k)))
  step_down_lem (suc n) h =
      if_cases (λ (k : ℕ). IsReached heap least (suc n) k) (not (ltb least (suc n))) (suc n) _
        (λ e. stops (suc n) h (λ k. absurd (ground (arith, e, k))))
        (λ e.
          if_cases (λ (k : ℕ). IsReached heap least (suc n) k)
            (leb min_viable_heap_mb (heap (suc n))) (suc n) (step_down heap least n)
            (λ v. stops (suc n) h (λ _. ground (arith, v)))
            (λ v.
              steps n (step_down heap least n) (ground (arith, v))
                (step_down_lem n (ground (arith, e)))))
