-- ===== src/Http/Retries.antt =====
-- `send` of src/http_client.rs: how many attempts are made, and what they come to.
use gresse.Prelude.{
  ℕ, zero, suc, ◌+◌, ◌≤◌, ◌<◌, ◌≡◌, ◌≢◌, refl, Outcome, ok, arith, if_pos, if_neg, ℕ_discrete, ◌⊎◌,
  inl, inr, ◌∙◌,
}
use gresse.Text.{Text}
use gresse.ObjectStorage.{Codec}
use gresse.Http.{
  Answer, body, broken, refused, Result, failed, hyper, max_retries, send_loop, response_of,
}

-- The server took nothing at this attempt.
abbrev pub IsRefused : Answer → Type 0
IsRefused (body text) = ⊥
IsRefused (broken e) = ⊥
IsRefused (refused e) = Unit {0}

module _ {Req Res : Type 0} (requests : Codec Req) (responses : Codec Res) where
  -- What the attempt that ends the loop gives.
  abbrev pub end_of : Answer → Outcome (Result Res)
  end_of (body text) = response_of requests responses text
  end_of (broken e) = ok (failed (hyper e))
  end_of (refused e) = ok (failed (hyper e))

  -- The loop from attempt `i` on ends with attempt `k`: those before it were refused, and it is the last
  -- one or was not refused.
  pub record EndsAt (answers : ℕ → Answer) (left i k : ℕ) : Type 0 where
    pub from : i ≤ k
    pub within : k < max_retries
    pub before : (j : ℕ) → i ≤ j → j < k → IsRefused (answers j)
    pub last : (suc k ≡ max_retries) ⊎ (IsRefused (answers k) → ⊥)
    pub result : send_loop requests responses left i answers ≡ end_of (answers k)

  ends_here :
      (answers : ℕ → Answer) (left i : ℕ)
      → i < max_retries
      → (suc i ≡ max_retries) ⊎ (IsRefused (answers i) → ⊥)
      → EndsAt answers (suc left) i i
  ends_here answers left i h l = record {
    from = omega arith;
    within = h;
    before = λ j a b. absurd (omega (arith, a, b));
    last = l;
    result = by_answer (answers i) refl l;
  }
    where
      by_answer :
          (a : Answer)
          → answers i ≡ a
          → (suc i ≡ max_retries) ⊎ (IsRefused (answers i) → ⊥)
          → send_loop requests responses (suc left) i answers ≡ end_of (answers i)
      by_answer (body text) e l = unfold send_loop in rw (e, send_loop) refl
      by_answer (broken x) e l = unfold send_loop in rw (e, send_loop) refl
      by_answer (refused x) e (inl q) =
          unfold send_loop in rw (e, send_loop) (if_pos (ℕ_discrete (suc i) max_retries) q _ _)
      by_answer (refused x) e (inr n) = absurd (n (rw e tt))

  ends_later :
      (answers : ℕ → Answer) (left i k : ℕ) {x : Text}
      → answers i ≡ refused x
      → suc i ≢ max_retries
      → EndsAt answers left (suc i) k
      → EndsAt answers (suc left) i k
  ends_later answers left i k {x} e n w = record {
    from = omega (arith, w.from);
    within = w.within;
    before = λ j a b. elim (ℕ_discrete j i) [
      | yes same ↦ rw (same, e) tt
      | no other ↦ w.before j (omega (arith, a, other)) b
    ];
    last = w.last;
    result = skip ∙ w.result;
  }
    where
      skip :
          send_loop requests responses (suc left) i answers
          ≡ send_loop requests responses left (suc i) answers
      skip =
          unfold send_loop in
          rw (e, send_loop)
            (if_neg (ℕ_discrete (suc i) max_retries) n (ok (failed (hyper x)))
              (send_loop requests responses left (suc i) answers))

  ends_from :
      (answers : ℕ → Answer) (left i : ℕ)
      → i + suc left ≡ max_retries
      → (k : ℕ) × EndsAt answers (suc left) i k
  ends_from answers zero i h =
      (i, ends_here answers zero i (omega (arith, h)) (inl (omega (arith, h))))
  ends_from answers (suc left) i h =
      by_answer (answers i) refl (ends_from answers left (suc i) (omega (arith, h)))
    where
      below : i < max_retries
      below = omega (arith, h)

      by_answer :
          (a : Answer)
          → answers i ≡ a
          → (k : ℕ) × EndsAt answers (suc left) (suc i) k
          → (k : ℕ) × EndsAt answers (suc (suc left)) i k
      by_answer (body text) e rest = (i, ends_here answers (suc left) i below (inr (rw e (λ r. r))))
      by_answer (broken x) e rest = (i, ends_here answers (suc left) i below (inr (rw e (λ r. r))))
      by_answer (refused x) e (k, w) = (k, ends_later answers (suc left) i k e (omega (arith, h)) w)

  -- Sending ends with one of ten attempts, the first that is not refused or else the last; what
  -- that attempt gives is the result, and the loop never runs out.
  pub send_loop-ends : (answers : ℕ → Answer) → (k : ℕ) × EndsAt answers max_retries 0 k
  send_loop-ends answers = ends_from answers 9 0 (omega arith)
