-- ===== src/Layout/Floating/Edges.antt =====
-- `resize_edges` of src/layout.rs: a drag moves the selected edges only, keeps the minimum size
-- and does not leave the area.
use Prim.Native.Nat.{min, max}
use vvmux.Prelude.{ℕ, ◌+◌, ◌-◌, ◌≤◌, ◌≡◌, ap, ◌∙◌, Bool, true, false, arith}
use vvmux.Prelude.Int.{
  ℤ, pos, negsuc, pos_part, neg_part, ◌+ℤ◌, ◌-ℤ◌, ◌≤ℤ◌, max_ℤ, InRange, half_i32, int_laws,
  wrap_i32_lem, eq_of_parts,
}
use vvmux.Layout.Rect.{Rect}
use vvmux.Layout.Floating.{EdgeMask, drag_low, drag_high, resize_edges, i32_add, i32_sub, as_u16}
use vvmux.Layout.Floating.Clamp.{InArea, HasRoom}

-- One axis of a rectangle inside an area, of at least the size `m`.
record Span (low high area_low area_high m : ℤ) : Type 0 where
  from_zero : pos 0 ≤ℤ area_low
  starts : area_low ≤ℤ low
  sized : low +ℤ m ≤ℤ high
  ends : high ≤ℤ area_high
  to_max : area_high ≤ℤ pos 65535
  some_size : pos 1 ≤ℤ m

-- The pointer may move by any amount for which the source's `i32` sums are exact.
abbrev pub SmallMove : ℤ → Type 0
SmallMove d = InRange (half_i32 - 65536) d

module _ (low high area_low area_high m d : ℤ) where
  drag_low-Span :
      (b : Bool)
      → Span low high area_low area_high m
      → SmallMove d
      → Span (drag_low b low high d area_low m) high area_low area_high m
  unfolding drag_low
  drag_low-Span true s h =
      let e : i32_add low d ≡ low +ℤ d = wrap_i32_lem _ (omega int_laws, omega int_laws) in
      let e' : i32_sub high m ≡ high -ℤ m = wrap_i32_lem _ (omega int_laws, omega int_laws) in
      rw (e, e')
        (record {
          from_zero = s.from_zero;
          starts = omega int_laws;
          sized = omega int_laws;
          ends = s.ends;
          to_max = s.to_max;
          some_size = s.some_size;
        })
  drag_low-Span false s h = s

  drag_high-Span :
      (b : Bool)
      → Span low high area_low area_high m
      → SmallMove d
      → Span low (drag_high b low high d area_high m) area_low area_high m
  unfolding drag_high
  drag_high-Span true s h =
      let e : i32_add high d ≡ high +ℤ d = wrap_i32_lem _ (omega int_laws, omega int_laws) in
      let e' : i32_add low m ≡ low +ℤ m = wrap_i32_lem _ (omega int_laws, omega int_laws) in
      rw (e, e')
        (record {
          from_zero = s.from_zero;
          starts = s.starts;
          sized = omega int_laws;
          ends = omega int_laws;
          to_max = s.to_max;
          some_size = s.some_size;
        })
  drag_high-Span false s h = s

cast_back : (z : ℤ) (k : ℕ) → pos k ≤ℤ z → z ≤ℤ pos 65535 → pos (as_u16 (max_ℤ z (pos k))) ≡ z
unfolding max_ℤ
cast_back (pos n) k h l = ground arith
cast_back (negsuc n) k h l = absurd (omega arith)

-- The casts back to `u16` change nothing.
Span-casts :
    (low high area_low area_high m : ℤ)
    → Span low high area_low area_high m
    → let x = as_u16 (max_ℤ low (pos 0)) in
      let w = as_u16 (max_ℤ (i32_sub high low) (pos 1)) in (pos x ≡ low) × (pos (x + w) ≡ high)
Span-casts low high area_low area_high m s =
    let e : i32_sub high low ≡ high -ℤ low = wrap_i32_lem _ (omega int_laws, omega int_laws) in
    let at_low = cast_back low 0 (omega int_laws) (omega int_laws) in
    let size = cast_back (high -ℤ low) 1 (omega int_laws) (omega int_laws) in
    rw e (
      at_low,
      eq_of_parts _ _ (
          omega
            (int_laws, ap pos_part at_low, ap neg_part at_low, ap pos_part size, ap neg_part size)),
    )

-- A drag of one axis: `low` and `high` before, `x` and `w` after.
record AxisDragged (drags_low drags_high : Bool) (low high area_low area_high m x w : ℕ)
    : Type 0 where
  keeps_low : drags_low ≡ false → x ≡ low
  keeps_high : drags_high ≡ false → x + w ≡ high
  starts : area_low ≤ x
  ends : x + w ≤ area_high
  sized : m ≤ w

drag_low_off : {b : Bool} → b ≡ false → (l h d a m : ℤ) → drag_low b l h d a m ≡ l
unfolding drag_low
drag_low_off e l h d a m = rw e

drag_high_off : {b : Bool} → b ≡ false → (l h d a m : ℤ) → drag_high b l h d a m ≡ h
unfolding drag_high
drag_high_off e l h d a m = rw e

u16_sum : (a b : ℕ) → a + b ≤ 65535 → i32_add (pos a) (pos b) ≡ pos (a + b)
u16_sum a b h = wrap_i32_lem _ (omega int_laws, omega int_laws) ∙ eq_of_parts _ _ (omega int_laws)

module _ (b c : Bool) (low high area_low area_high m : ℕ) (d : ℤ) where
  abbrev new_low : ℤ
  new_low = drag_low b (pos low) (pos high) d (pos area_low) (pos m)

  abbrev new_high : ℤ
  new_high = drag_high c new_low (pos high) d (pos area_high) (pos m)

  axis_lem :
      area_low ≤ low
      → low + m ≤ high
      → high ≤ area_high
      → area_high ≤ 65535
      → 1 ≤ m
      → SmallMove d
      → AxisDragged b c low high area_low area_high m
          (as_u16 (max_ℤ new_low (pos 0)))
          (as_u16 (max_ℤ (i32_sub new_high new_low) (pos 1)))
  axis_lem h k l s t small =
      let s₀ : Span (pos low) (pos high) (pos area_low) (pos area_high) (pos m) = record {
        from_zero = omega arith;
        starts = omega arith;
        sized = omega int_laws;
        ends = omega arith;
        to_max = omega arith;
        some_size = omega arith;
      } in
      let s₁ = drag_low-Span _ _ _ _ _ d b s₀ small in
      let s₂ = drag_high-Span _ _ _ _ _ d c s₁ small in
      let (at_low, at_high) = Span-casts _ _ _ _ _ s₂ in
      record {
        keeps_low = λ off. omega (arith, ap pos_part (at_low ∙ drag_low_off off _ _ _ _ _));
        keeps_high = λ off. omega (arith, ap pos_part (at_high ∙ drag_high_off off _ _ _ _ _));
        starts = omega (arith, s₂.starts, ap pos_part at_low, ap neg_part at_low);
        ends = omega (arith, s₂.ends, ap pos_part at_high, ap neg_part at_high);
        sized = omega (
          int_laws,
          s₂.sized,
          ap pos_part at_low,
          ap neg_part at_low,
          ap pos_part at_high,
          ap neg_part at_high,
        );
      }

-- The pane after the resize of its selected edges: an edge that is not selected stays, and the pane
-- is inside the area and no smaller than the minimum.
pub record Resized (rect : Rect) (edges : EdgeMask) (area r : Rect) : Type 0 where
  pub keeps_left : edges.left ≡ false → r.x ≡ rect.x
  pub keeps_right : edges.right ≡ false → r.x + r.width ≡ rect.x + rect.width
  pub keeps_top : edges.top ≡ false → r.y ≡ rect.y
  pub keeps_bottom : edges.bottom ≡ false → r.y + r.height ≡ rect.y + rect.height
  pub inside : InArea area r

-- For a pane inside an area with room, and a pointer move for which the `i32` sums are exact:
-- the edges that are not dragged stay where they are, and the result is inside the area with the
-- minimum size.
pub resize_edges-Resized :
    (rect : Rect) (edges : EdgeMask) (dx dy : ℤ) (area : Rect)
    → HasRoom area
    → InArea area rect
    → SmallMove dx
    → SmallMove dy
    → Resized rect edges area (resize_edges rect edges dx dy area)
unfolding resize_edges
resize_edges-Resized rect edges dx dy area room i sx sy =
    let fits_x : rect.x + rect.width ≤ 65535 = omega (arith, i.right_in, room.valid.right_fits) in
    let fits_y : rect.y + rect.height ≤ 65535 =
      omega (arith, i.bottom_in, room.valid.bottom_fits) in
    let ax =
      axis_lem edges.left edges.right rect.x (rect.x + rect.width) area.x (area.x + area.width)
        (max (min 6 area.width) 1) dx i.left_in (omega (arith, i.wide, room.some_width)) i.right_in
        room.valid.right_fits (omega arith) sx in
    let ay =
      axis_lem edges.top edges.bottom rect.y (rect.y + rect.height) area.y (area.y + area.height)
        (max (min 4 area.height) 1) dy i.top_in (omega (arith, i.high, room.some_height))
        i.bottom_in room.valid.bottom_fits (omega arith) sy in
    rw
      (
        u16_sum rect.x rect.width fits_x,
        u16_sum rect.y rect.height fits_y,
        u16_sum area.x area.width room.valid.right_fits,
        u16_sum area.y area.height room.valid.bottom_fits,
      )
      (record {
        keeps_left = ax.keeps_low;
        keeps_right = ax.keeps_high;
        keeps_top = ay.keeps_low;
        keeps_bottom = ay.keeps_high;
        inside = record {
          left_in = ax.starts;
          right_in = ax.ends;
          top_in = ay.starts;
          bottom_in = ay.ends;
          wide = omega (arith, ax.sized);
          high = omega (arith, ay.sized);
        };
      })
