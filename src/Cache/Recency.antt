-- ===== src/Cache/Recency.antt =====
-- The entries that `_remember` of src/kdiff/core/cache.py keeps.
use knowledge_diffusion.Base.{
  Key, List, [], ap, arith, find?, find?-append_none, length, none, not, refl, select, some, ℕ,
  ◌++◌, ◌∷◌, ◌≡◌, ◌≤◌,
}
use knowledge_diffusion.Cache
use knowledge_diffusion.Cache.{Cache, remember, evict, moved_to_end, is_entry, local_pointer}

evict-length : (capacity : ℕ) (es : List (Key × Key)) → length (evict capacity es) ≤ capacity
evict-length capacity [] = omega arith
evict-length capacity (e ∷ es) = ground (arith, evict-length capacity es)

others : Key → List (Key × Key) → List (Key × Key)
others key es = select (λ e. not (is_entry key e)) es

find?-others : (key : Key) (es : List (Key × Key)) → find? (is_entry key) (others key es) ≡ none
unfolding others
find?-others key [] = refl
find?-others key (e ∷ es) = ground (arith, find?-others key es)

evict-last :
    (capacity key pointer : ℕ) (es : List (Key × Key))
    → 1 ≤ capacity
    → find? (is_entry key) es ≡ none
    → find? (is_entry key) (evict capacity (es ++ (key, pointer) ∷ [])) ≡ some (key, pointer)
evict-last capacity key pointer [] h e = ground arith
evict-last capacity key pointer (x ∷ xs) h e = ground (
  arith,
  evict-last capacity key pointer xs,
  find?-append_none (is_entry key) xs ((key, pointer) ∷ []),
)

-- A remembered key is found in memory with its pointer, and memory holds at most as many keys as
-- the capacity, however many it held before.
pub remember-local_pointer :
    (key pointer : Key) (c : Cache)
    → 1 ≤ c.capacity
    → (local_pointer (remember key pointer c) key ≡ some pointer)
      × (length ((remember key pointer c).local) ≤ c.capacity)
unfolding remember others
remember-local_pointer key pointer c h = (
  ap Cache.pointer_in
      (evict-last c.capacity key pointer (others key c.local) h (find?-others key c.local)),
  evict-length c.capacity (moved_to_end key pointer c.local),
)
