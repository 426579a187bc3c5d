-- ===== src/Path.antt =====
-- The part of Go's `path/filepath` that the program uses: `Join` of clean elements, on a system
-- whose separator is `/`. The first element may be empty, and then it is left out.
use pastelup.Base.{
  Str, [], ◌∷◌, ◌++◌, if◌then◌else◌, is_empty, false, inl, inr, ◌≡◌, has_prefix, not_longer,
  Bool-cases,
}

unfoldable pub join : Str → Str → Str
join a b = if is_empty a then b else if is_empty b then a else a ++ (b'/' ∷ b)

unfoldable pub join_three : Str → Str → Str → Str
unfolding join
join_three a b c = join (join a b) c

-- A path that is not below a directory is not below an entry of it.
pub not_below : (p a b : Str) → has_prefix p a ≡ false → has_prefix p (join a b) ≡ false
unfolding join has_prefix
not_below p [] b h = cc
not_below p (x ∷ a) b h = elim (Bool-cases (is_empty b)) [
  | inl no_name ↦ rw no_name h
  | inr named ↦ rw named (not_longer p (x ∷ a) (b'/' ∷ b) h)
]
