-- ===== src/SharedPtr/Counts.antt =====
-- The blocks that belong to the pointers of a program.
use environment_check.Prelude.{
  ℕ, zero, suc, ◌+◌, ◌-◌, ◌%◌, ◌^◌, ◌<◌, ◌≡◌, refl, ap, ◌∙◌, inl, inr, Option, none, some, ◌==◌,
  if◌then◌else◌, set_at, arith, Bool-cases,
}
use environment_check.Outcome.{returns, fails, undefined_behaviour}
use environment_check.RefPtr.Counted.{gain, lose, Held, ==_self, counted_eq, set_counted, set_set}
use environment_check.SharedPtr.{Blocks, ref, deref, maybe_destroy, ref_if}

-- A block counts its pointers, and there is none without a pointer.
abbrev pub live_count : ℕ → Option ℕ
live_count zero = none
live_count (suc n) = some (suc n)

abbrev pub blocks_with : (ℕ → ℕ) → Blocks
blocks_with c = λ q. live_count (c q)

live_pos : (n : ℕ) → 0 < n → live_count n ≡ some n
live_pos zero h = absurd (omega arith)
live_pos (suc n) h = refl

module _ (b : Blocks) (p n : ℕ) (found : b p ≡ some n) where
  ref_found : n + 1 < 2 ^ 64 → ref_if (some p) b ≡ (returns tt, set_at p (some (n + 1)) b)
  unfolding ref_if ref
  ref_found h = rw (found, fits) refl
    where
      fits : (n + 1) % 2 ^ 64 ≡ n + 1
      fits = omega arith

  destroy_found :
      0 < n
      → n < 2 ^ 64
      → maybe_destroy (some p) b
        ≡ (returns tt, set_at p (if n - 1 == 0 then none else some (n - 1)) b)
  unfolding maybe_destroy deref
  destroy_found g h =
      rw (found, fits)
        (elim (Bool-cases (n - 1 == 0)) [ inl e ↦ rw (e, set_set b p) refl | inr e ↦ rw e refl ])
    where
      fits : (n + 2 ^ 64 - 1) % 2 ^ 64 ≡ n - 1
      fits = omega arith

live_less : (n : ℕ) → live_count n ≡ (if n == 0 then none else some n)
live_less zero = refl
live_less (suc n) = ground arith

module _ (c : ℕ → ℕ) where
  pub wrap_lem :
      (p : ℕ) → c p ≡ 0 → set_at p (some 1) (blocks_with c) ≡ blocks_with (gain (some p) c)
  wrap_lem p h =
      set_counted live_count p (some 1) c (gain (some p) c) found (λ q e. rw e (omega arith))
    where
      found : live_count (gain (some p) c p) ≡ some 1
      found = rw (==_self p, h) refl

  pub ref_if_lem :
      (v : Option ℕ)
      → Held v c
      → ((q : ℕ) → c q + 1 < 2 ^ 64)
      → ref_if v (blocks_with c) ≡ (returns tt, blocks_with (gain v c))
  unfolding ref_if
  ref_if_lem none h b =
      ap (λ g. (returns tt, g)) (counted_eq live_count c (gain none c) (λ q. omega arith))
  ref_if_lem (some p) h b =
      ref_found (blocks_with c) p (c p) (live_pos (c p) h) (b p)
      ∙ ap (λ g. (returns tt, g))
          (set_counted live_count p _ c (gain (some p) c) found (λ q e. rw e (omega arith)))
    where
      found : live_count (gain (some p) c p) ≡ some (c p + 1)
      found = rw (==_self p) (live_pos (c p + 1) (omega arith))

  pub maybe_destroy_lem :
      (v : Option ℕ)
      → Held v c
      → ((q : ℕ) → c q < 2 ^ 64)
      → maybe_destroy v (blocks_with c) ≡ (returns tt, blocks_with (lose v c))
  unfolding maybe_destroy
  maybe_destroy_lem none h b =
      ap (λ g. (returns tt, g)) (counted_eq live_count c (lose none c) (λ q. omega arith))
  maybe_destroy_lem (some p) h b =
      destroy_found (blocks_with c) p (c p) (live_pos (c p) h) h (b p)
      ∙ ap (λ g. (returns tt, g))
          (set_counted live_count p _ c (lose (some p) c) found (λ q e. rw e (omega arith)))
    where
      found : live_count (lose (some p) c p) ≡ (if c p - 1 == 0 then none else some (c p - 1))
      found = rw (==_self p) (live_less (c p - 1))

  -- A reference to an object that nothing points to any more.
  pub ref_if_gone :
      (p : ℕ) → c p ≡ 0 → (ref_if (some p) (blocks_with c)).0 ≡ fails undefined_behaviour
  unfolding ref_if ref
  ref_if_gone p h = rw h refl
