-- ===== src/Display/Dirty/Cover/Tests.antt =====
-- A list of two squares, and a third that intersects the first.
use amazing_os.Base.{ℕ, ◌≤◌, ◌≡◌, refl, some, true, [], ◌∷◌, arith, length, pos, ◌+ℤ◌}
use amazing_os.Display.{Rect, contains, intersects}
use amazing_os.Display.Dirty.{DirtyList, add}
use amazing_os.Display.Dirty.Cover.{covered, IsApart}
use amazing_os.Display.Dirty.Cover.Add.{add-covered, add-IsApart}

abbrev square : ℕ → ℕ → Rect
square at size = record { x = pos at; y = pos at; w = pos size; h = pos size }

abbrev two_squares : DirtyList
two_squares = square 0 4 ∷ square 20 5 ∷ []

add-covered_example :
    (out : DirtyList) × (add 3 two_squares (square 2 4) ≡ some out)
    × (length out ≤ 16)
    × (covered out (pos 1) (pos 1) ≡ true)
unfolding covered contains ◌+ℤ◌
add-covered_example =
    add-covered 3 two_squares (square 2 4) (pos 1) (pos 1) (omega arith) (omega arith) refl

add-IsApart_example : (out : DirtyList) × (add 3 two_squares (square 2 4) ≡ some out) × IsApart out
unfolding IsApart intersects ◌+ℤ◌
add-IsApart_example =
    add-IsApart 3 two_squares (square 2 4) (omega arith) (omega arith) ((refl, tt), (tt, tt))
