-- ===== src/AsciiTrie/Queries.antt =====
-- What a query of a filled trie answers.
use environment_check.Prelude.{
  ℕ, ◌<◌, ◌≡◌, refl, sym, ap, ◌∙◌, Bool, true, false, List, [], ◌∷◌, ltb, ◌==◌, ◌&&◌, not, All,
  Bool-cases, inl, inr, arith, if◌then◌else◌,
}
use environment_check.Outcome.{returns}
use environment_check.AsciiTrie.{
  Text, TrieNodePtr, null, node, is_there, children, max_ascii_value, fill, query, query_from,
}
use environment_check.AsciiTrie.Nodes.{IsAscii, begins_some, at_path, null_path, fill_lem}

module _ (ch : ℕ) (h : (0 < ch) × (ch < 128)) where
  not_zero : (ch == 0) ≡ false
  not_zero = let p = h.0 in ground (arith, p)

  in_range : ltb ch max_ascii_value ≡ true
  in_range = let p = h.1 in ground (arith, p)

-- Below the root the loop answers whether it leaves the trie.
below_root :
    (child t : TrieNodePtr) (q : Text)
    → is_there child ≡ true
    → is_there t ≡ true
    → IsAscii q
    → query_from child true t q ≡ returns (not (is_there (at_path t q)))
unfolding query_from
below_root child t [] c h a = rw (c, h)
below_root child t (ch ∷ q) c h (b, a) = elim (Bool-cases (is_there (children t ch))) [
  | inl y ↦
      rw (not_zero ch b, in_range ch b, y) (below_root (children t ch) (children t ch) q y y a)
  | inr n ↦ rw (not_zero ch b, in_range ch b, n) (ap returns (left_trie (children t ch) n q))
]
  where
    left_trie :
        (u : TrieNodePtr) → is_there u ≡ false → (q : Text) → true ≡ not (is_there (at_path u q))
    left_trie null n q = sym (ap (λ u. not (is_there u)) (null_path q))
    left_trie (node f) n q = cc

-- Whether the first character of a text begins an entry that goes on after it.
abbrev pub starts : Text → List Text → Bool
starts [] es = false
starts (ch ∷ q) es = begins_some (ch ∷ []) es

abbrev pub answer : Text → List Text → Bool
answer q es = if begins_some [] es then starts q es && not (begins_some q es) else true

abbrev first : (ℕ → TrieNodePtr) → Text → Bool
first f [] = false
first f (ch ∷ q) = is_there (f ch)

from_root :
    (f : ℕ → TrieNodePtr) (q : Text)
    → IsAscii q
    → query_from null false (node f) q ≡ returns (first f q && not (is_there (at_path (node f) q)))
unfolding query_from
from_root f [] a = refl
from_root f (ch ∷ q) (b, a) = elim (Bool-cases (is_there (f ch))) [
  | inl y ↦ rw (not_zero ch b, in_range ch b, y) (below_root (f ch) (f ch) q y y a)
  | inr n ↦ rw (not_zero ch b, in_range ch b, n)
]

-- `Fill` with ASCII entries and then `Query` of an ASCII text return. With no entry but empty ones
-- the answer is true. Else it is true exactly if the first character begins an entry of two or more
-- characters and the whole text is no proper prefix of an entry; the other characters of the
-- entries do not count.
pub query-fill :
    (es : List Text) (q : Text)
    → All IsAscii es
    → IsAscii q
    → (t : TrieNodePtr) × (fill es ≡ returns t) × (query t q ≡ returns (answer q es))
unfolding query
query-fill es q h a = let (t, eq, paths) = fill_lem es h in (t, eq, by_root t paths)
  where
    by_root :
        (t : TrieNodePtr)
        → ((p : Text) → is_there (at_path t p) ≡ begins_some p es)
        → query t q ≡ returns (answer q es)
    by_root null paths = rw (← paths [])
    by_root (node f) paths = from_root f q a ∙ ap returns (rw (← paths []) (agrees q))
      where
        agrees :
            (q : Text)
            → (first f q && not (is_there (at_path (node f) q)))
              ≡ (starts q es && not (begins_some q es))
        agrees [] = refl
        agrees (ch ∷ q) = rw (← paths (ch ∷ []), ← paths (ch ∷ q))
