-- ===== src/RefPtr/Heaps.antt =====
-- The heap that belongs to a count of references for each address: an object with that count
-- where it is positive. AddRef and Release change the count by one.
use environment_check.Prelude.{
  ℕ, zero, suc, ◌+◌, ◌-◌, ◌%◌, ◌^◌, ◌<◌, ◌≡◌, refl, ap, inl, inr, Option, none, some, true, false,
  ◌==◌, if◌then◌else◌, set_at, arith, Bool-cases,
}
use environment_check.Outcome.{returns}
use environment_check.RefCounted.{
  RefCounted, Heap, new_ref_counted, add_ref, release, release_base, delete_object, adopt,
  has_one_ref,
}
use environment_check.RefPtr.{add_ref_to, release_of}
use environment_check.RefPtr.Counted.{gain, lose, Held, ==_self, counted_eq, set_counted, set_set}

abbrev pub object_with : ℕ → RefCounted
object_with n = record { ref_count = n; adoption_required = false; destruction_started = false }

abbrev pub live_object : ℕ → Option RefCounted
live_object zero = none
live_object (suc n) = some (object_with (suc n))

abbrev pub heap_with : (ℕ → ℕ) → Heap
heap_with c = λ q. live_object (c q)

pub live_pos : (n : ℕ) → 0 < n → live_object n ≡ some (object_with n)
live_pos zero h = absurd (omega arith)
live_pos (suc n) h = refl

pos_ne_zero : (n : ℕ) → 0 < n → (n == 0) ≡ false
pos_ne_zero n h = ground arith

-- The object whose last reference was given up.
abbrev released : ℕ → RefCounted
released n = record {
  ref_count = n - 1;
  adoption_required = false;
  destruction_started = if n == 1 then true else false;
}

module _ (h : Heap) (p n : ℕ) (found : h p ≡ some (object_with n)) where
  add_ref_found :
      n + 1 < 2 ^ 64 → add_ref p h ≡ (returns tt, set_at p (some (object_with (n + 1))) h)
  unfolding add_ref
  add_ref_found b = rw (found, fits) refl
    where
      fits : (n + 1) % 2 ^ 64 ≡ n + 1
      fits = omega arith

  release_base_found :
      0 < n → n < 2 ^ 64 → release_base p h ≡ (returns (n == 1), set_at p (some (released n)) h)
  unfolding release_base
  release_base_found a b = rw (found, pos_ne_zero n a, fits) refl
    where
      fits : (n + 2 ^ 64 - 1) % 2 ^ 64 ≡ n - 1
      fits = omega arith

  delete_found :
      (n == 1) ≡ true
      → delete_object p (set_at p (some (released n)) h) ≡ (returns tt, set_at p none h)
  unfolding delete_object
  delete_found e = rw (==_self p, e, set_set h p) refl

  release_found :
      0 < n
      → n < 2 ^ 64
      → release p h ≡ (returns tt, set_at p (if n == 1 then none else some (object_with (n - 1))) h)
  unfolding release
  release_found a b =
      rw (release_base_found a b)
        (elim (Bool-cases (n == 1)) [ inl e ↦ rw e (rw e at (delete_found e)) | inr e ↦ rw e refl ])

live_less :
    (n : ℕ) → 0 < n → live_object (n - 1) ≡ (if n == 1 then none else some (object_with (n - 1)))
live_less zero h = absurd (omega arith)
live_less (suc zero) h = refl
live_less (suc (suc n)) h = ground arith

module _ (c : ℕ → ℕ) (p : ℕ) (held : 0 < c p) where
  pub add_ref_lem :
      c p + 1 < 2 ^ 64 → add_ref p (heap_with c) ≡ (returns tt, heap_with (gain (some p) c))
  add_ref_lem b = rw (add_ref_found (heap_with c) p (c p) (live_pos (c p) held) b) (
      ap (λ h. (returns tt, h))
        (set_counted live_object p _ c (gain (some p) c) found (λ q e. rw e (omega arith))))
    where
      found : live_object (gain (some p) c p) ≡ some (object_with (c p + 1))
      found = rw (==_self p) (live_pos (c p + 1) (omega arith))

  pub release_lem :
      c p < 2 ^ 64 → release p (heap_with c) ≡ (returns tt, heap_with (lose (some p) c))
  release_lem b = rw (release_found (heap_with c) p (c p) (live_pos (c p) held) held b) (
      ap (λ h. (returns tt, h))
        (set_counted live_object p _ c (lose (some p) c) found (λ q e. rw e (omega arith))))
    where
      found :
          live_object (lose (some p) c p)
          ≡ (if c p == 1 then none else some (object_with (c p - 1)))
      found = rw (==_self p) (live_less (c p) held)

pub has_one_ref_lem :
    (c : ℕ → ℕ) (p : ℕ) → 0 < c p → (has_one_ref p (heap_with c)).0 ≡ returns (c p == 1)
unfolding has_one_ref
has_one_ref_lem c p h = rw (live_pos (c p) h) refl

-- A new object at a free address, which its first pointer adopts.
pub adopted_lem :
    (c : ℕ → ℕ) (p : ℕ)
    → c p ≡ 0
    → adopt p (set_at p (some new_ref_counted) (heap_with c))
      ≡ (returns tt, heap_with (gain (some p) c))
unfolding adopt
adopted_lem c p h =
    rw (==_self p, set_set (heap_with c) p)
      (ap (λ h. (returns tt, h))
        (set_counted live_object p _ c (gain (some p) c) found (λ q e. rw e (omega arith))))
  where
    found : live_object (gain (some p) c p) ≡ some (object_with 1)
    found = rw (==_self p, h) refl

pub add_ref_to_lem :
    (v : Option ℕ) (c : ℕ → ℕ)
    → Held v c
    → ((q : ℕ) → c q + 1 < 2 ^ 64)
    → add_ref_to v (heap_with c) ≡ (returns tt, heap_with (gain v c))
add_ref_to_lem none c h b =
    ap (λ g. (returns tt, g)) (counted_eq live_object c (gain none c) (λ q. omega arith))
add_ref_to_lem (some p) c h b = add_ref_lem c p h (b p)

pub release_of_lem :
    (v : Option ℕ) (c : ℕ → ℕ)
    → Held v c
    → ((q : ℕ) → c q < 2 ^ 64)
    → release_of v (heap_with c) ≡ (returns tt, heap_with (lose v c))
release_of_lem none c h b =
    ap (λ g. (returns tt, g)) (counted_eq live_object c (lose none c) (λ q. omega arith))
release_of_lem (some p) c h b = release_lem c p h (b p)
