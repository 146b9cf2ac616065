-- ===== src/AsciiTrie/Nodes.antt =====
-- Which nodes a trie has: one for each text that is a proper prefix of an entry.
use environment_check.Prelude.{
  ◌<◌, ◌≡◌, refl, sym, ap, ◌∙◌, Bool, true, false, List, [], ◌∷◌, ltb, ◌==◌, ◌&&◌, ◌||◌, All,
  Bool-cases, or_false, or_assoc, ==_iff, inl, inr, arith,
}
use environment_check.Outcome.{returns}
use environment_check.AsciiTrie.{
  Text, TrieNodePtr, null, is_there, children, with_child, add, add_each, fill,
}

-- A text of ASCII characters other than 0.
abbrev pub IsAscii : Text → Type 0
IsAscii = All (λ ch. (0 < ch) × (ch < 128))

abbrev pub is_proper_prefix : Text → Text → Bool
is_proper_prefix [] [] = false
is_proper_prefix [] (y ∷ ys) = true
is_proper_prefix (x ∷ xs) [] = false
is_proper_prefix (x ∷ xs) (y ∷ ys) = x == y && is_proper_prefix xs ys

-- Whether a text is a proper prefix of one of the entries.
abbrev pub begins_some : Text → List Text → Bool
begins_some p [] = false
begins_some p (e ∷ es) = is_proper_prefix p e || begins_some p es

abbrev pub at_path : TrieNodePtr → Text → TrieNodePtr
at_path t [] = t
at_path t (ch ∷ p) = at_path (children t ch) p

pub null_path : (p : Text) → at_path null p ≡ null
null_path [] = refl
null_path (ch ∷ p) = null_path p

or_true : (b : Bool) → (b || true) ≡ true
or_true true = refl
or_true false = refl

-- `Add` of an ASCII entry passes its checks and adds the nodes of its proper prefixes.
add_lem :
    (e : Text) (t : TrieNodePtr)
    → IsAscii e
    → (t' : TrieNodePtr) × (add e t ≡ returns t')
      × ((p : Text) → is_there (at_path t' p) ≡ (is_there (at_path t p) || is_proper_prefix p e))
unfolding add
add_lem [] t h = (t, refl, none_more)
  where
    none_more :
        (p : Text) → is_there (at_path t p) ≡ (is_there (at_path t p) || is_proper_prefix p [])
    none_more [] = sym (or_false _)
    none_more (x ∷ p) = sym (or_false _)
add_lem (ch ∷ e) t ((pos, small), h) =
    let (child, eq, paths) = add_lem e (children t ch) h in
    let is_small : ltb ch 128 ≡ true = ground (arith, small) in
    let is_not_0 : (ch == 0) ≡ false = ground (arith, pos) in
    (with_child ch child t, rw (is_small, is_not_0, eq), more child paths)
  where
    more :
        (child : TrieNodePtr)
        → ((p : Text)
            → is_there (at_path child p)
              ≡ (is_there (at_path (children t ch) p) || is_proper_prefix p e))
        → (p : Text)
        → is_there (at_path (with_child ch child t) p)
          ≡ (is_there (at_path t p) || is_proper_prefix p (ch ∷ e))
    more child paths [] = sym (or_true _)
    more child paths (x ∷ p) = elim (Bool-cases (x == ch)) [
      | inl y ↦ rw (y, (==_iff x ch).0 y) (paths p)
      | inr n ↦ rw n (sym (or_false _))
    ]

add_each_lem :
    (es : List Text) (t : TrieNodePtr)
    → All IsAscii es
    → (t' : TrieNodePtr) × (add_each es t ≡ returns t')
      × ((p : Text) → is_there (at_path t' p) ≡ (is_there (at_path t p) || begins_some p es))
unfolding add_each
add_each_lem [] t h = (t, refl, λ p. sym (or_false _))
add_each_lem (e ∷ es) t (h, hs) =
    let (t1, eq, paths) = add_lem e t h in
    let (t2, eq', paths') = add_each_lem es t1 hs in
    (
      t2,
      rw eq eq',
      λ p.
          paths' p
          ∙ ap (λ b. b || begins_some p es) (paths p)
          ∙ or_assoc (is_there (at_path t p)) (is_proper_prefix p e) (begins_some p es),
    )

-- `Fill` with ASCII entries passes its checks, and has a node for each proper prefix of an entry
-- and no other.
pub fill_lem :
    (es : List Text)
    → All IsAscii es
    → (t : TrieNodePtr) × (fill es ≡ returns t)
      × ((p : Text) → is_there (at_path t p) ≡ begins_some p es)
unfolding fill
fill_lem es h =
    let (t, eq, paths) = add_each_lem es null h in
    (t, eq, λ p. paths p ∙ ap (λ u. is_there u || begins_some p es) (null_path p))
