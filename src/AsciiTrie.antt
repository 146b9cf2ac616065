-- ===== src/AsciiTrie.antt =====
-- app/src/main/cpp/ascii_trie.h and ascii_trie.cc: a tree of entries and the query of a prefix.
pub mod Nodes
pub mod Queries
use environment_check.Prelude.{
  ℕ, Bool, true, false, List, [], ◌∷◌, ltb, ◌==◌, ◌&&◌, not, if◌then◌else◌,
}
use environment_check.Outcome.{Outcome, returns, fails, check, undefined_behaviour, ◌>>=◌, ◌>>◌}

-- A C string without its final 0; a `char` is its unsigned byte.
abbrev pub Text : Type 0
Text = List ℕ

-- `TrieNodePtr`: null, or a node with its children.
pub data TrieNodePtr : Type 0 where
  null : TrieNodePtr
  node : (ℕ → TrieNodePtr) → TrieNodePtr

abbrev pub is_there : TrieNodePtr → Bool
is_there null = false
is_there (node f) = true

-- The children of a node, all null in a new one.
abbrev pub children : TrieNodePtr → ℕ → TrieNodePtr
children null ch = null
children (node f) ch = f ch

abbrev pub max_ascii_value : ℕ
max_ascii_value = 128

abbrev pub with_child : ℕ → TrieNodePtr → TrieNodePtr → TrieNodePtr
with_child ch child trie = node (λ j. if j == ch then child else children trie j)

unfoldable pub add : Text → TrieNodePtr → Outcome TrieNodePtr
add [] trie = returns trie
add (ch ∷ entry) trie =
    let below = add entry (children trie ch) in
    do
      check (ltb ch max_ascii_value)
      if ch == 0 then returns trie else do child ← below; returns (with_child ch child trie)

unfoldable pub add_each : List Text → TrieNodePtr → Outcome TrieNodePtr
add_each [] trie = returns trie
add_each (entry ∷ entries) trie = do next ← add entry trie; add_each entries next

-- `Fill`, with `MakeTrie`.
unfoldable pub fill : List Text → Outcome TrieNodePtr
fill entries = add_each entries null

-- The loop of the private `Query`: `child` is what the last test read, null at first, `moved`
-- whether `trie_position` is no longer the root, and `trie_position` the node that it stands at.
-- An index beyond the children is undefined.
unfoldable pub query_from : TrieNodePtr → Bool → TrieNodePtr → Text → Outcome Bool
query_from child moved trie_position [] = returns (not (is_there child) && moved)
query_from child moved trie_position (ch ∷ query) =
    let next = children trie_position ch in
    let rest = query_from next true next query in
    if ch == 0
    then returns (not (is_there child) && moved)
    else if ltb ch max_ascii_value
    then (if is_there next then rest else returns (not (is_there next) && moved))
    else fails undefined_behaviour

-- The public `Query`.
unfoldable pub query : TrieNodePtr → Text → Outcome Bool
query null argument = returns true
query (node f) argument = query_from null false (node f) argument
