-- ===== src/Tests/Regions.antt =====
-- Concrete rectangles for the theorems on src/region.rs.
use vvmux.Prelude.{ℕ, ◌+◌, ◌*◌, ◌≡◌, refl, ◌⊎◌, none, some, List, [], ◌∷◌, arith}
use vvmux.Prelude.Int.{pos, ◌+ℤ◌, ◌-ℤ◌, checked, wrap, min_ℤ, max_ℤ}
use vvmux.Region.{
  FixedRect, new, right, bottom, intersect, carve, subtract, key_le, insert_sorted, sort_by_key,
  joined, join_first, merge_step, coalesce, order_and_coalesce, cut, subtract_holes, subtract_all,
}
use vvmux.Layout.Rect.{Rect}
use vvmux.Region.Cells.{from_cells, scaled, from_cells-IsValid}
use vvmux.Region.Cover.{IsValid, covers, cover_count}
use vvmux.Region.Clip.{intersect-cases, Meets, Apart}
use vvmux.Region.Carve.{cover_count-subtract}
use vvmux.Region.Merge.{Coalesced, order_and_coalesce-Coalesced}
use vvmux.Region.Exact.{IsVisible, subtract_all-IsVisible, subtract_all-returns}

abbrev window : FixedRect
window = record { x = pos 0; y = pos 0; width = pos 10; height = pos 10 }

abbrev float : FixedRect
float = record { x = pos 2; y = pos 2; width = pos 4; height = pos 4 }

abbrev rect_at : ℕ → ℕ → ℕ → ℕ → FixedRect
rect_at x y w h = record { x = pos x; y = pos y; width = pos w; height = pos h }

window-IsValid : IsValid window
unfolding ◌+ℤ◌
window-IsValid = ground arith

float-IsValid : IsValid float
unfolding ◌+ℤ◌
float-IsValid = ground arith

abbrev around : List FixedRect
around = rect_at 0 0 10 2 ∷ rect_at 0 2 2 4 ∷ rect_at 6 2 4 4 ∷ rect_at 0 6 10 4 ∷ []

subtract_all_run : subtract_all window (float ∷ []) 16 ≡ some around
unfolding new right bottom intersect carve subtract key_le insert_sorted sort_by_key joined
    join_first merge_step coalesce order_and_coalesce cut subtract_holes subtract_all ◌+ℤ◌ ◌-ℤ◌
    checked wrap min_ℤ max_ℤ
subtract_all_run = refl

subtract_all-IsVisible_example : IsVisible window (float ∷ []) 16 around
subtract_all-IsVisible_example =
    subtract_all-IsVisible window (float ∷ []) 16 around window-IsValid (float-IsValid, tt)
      subtract_all_run

subtract_all-returns_example :
    (fs : List FixedRect) × (subtract_all window (float ∷ []) 16 ≡ some fs)
subtract_all-returns_example =
    subtract_all-returns window (float ∷ []) 16 window-IsValid (float-IsValid, tt) (omega arith)

order_and_coalesce-Coalesced_example :
    Coalesced (window ∷ float ∷ []) (order_and_coalesce (window ∷ float ∷ []))
order_and_coalesce-Coalesced_example =
    order_and_coalesce-Coalesced (window ∷ float ∷ []) (window-IsValid, (float-IsValid, tt))

cover_count-subtract_example :
    cover_count (subtract window float) (pos 3) (pos 3)
      + covers window (pos 3) (pos 3) * covers float (pos 3) (pos 3)
    ≡ covers window (pos 3) (pos 3)
cover_count-subtract_example =
    cover_count-subtract window float window-IsValid float-IsValid (pos 3) (pos 3)

intersect-cases_example :
    ((o : FixedRect) × (intersect window float ≡ some o) × Meets window float o)
    ⊎ (intersect window float ≡ none) × Apart window float window-IsValid float-IsValid
intersect-cases_example = intersect-cases window float window-IsValid float-IsValid

abbrev cells : Rect
cells = record { x = 65535; y = 1; width = 65535; height = 3 }

from_cells-IsValid_example : (from_cells cells ≡ some (scaled cells)) × IsValid (scaled cells)
from_cells-IsValid_example =
    from_cells-IsValid cells (omega arith) (omega arith) (omega arith) (omega arith) (omega arith)
      (omega arith)
