-- ===== src/Tests/Floats.antt =====
-- A floating layer with a pinned pane, for the theorems on `FloatingLayer` of src/layout.rs.
use vvmux.Prelude.{◌≡◌, refl, true, false, [], ◌∷◌, arith}
use vvmux.Prelude.Int.{pos, negsuc}
use vvmux.Layout.Rect.{Rect}
use vvmux.Layout.Floating.{EdgeMask, clamp_rect, resize_edges}
use vvmux.Layout.Floating.Clamp.{InArea, HasRoom, clamp_rect-InArea}
use vvmux.Layout.Floating.Edges.{Resized, resize_edges-Resized}
use vvmux.Layout.Layer.{FloatingLayer, raise_op, insert_op, remove_op, apply_op}
use vvmux.Layout.Layer.Order.{
  IsLayered, apply_op-IsLayered, count_pane, count_after, count_pane-apply_op,
}
use vvmux.Layout.Layer.Bounds.{AllIn, apply_op-AllIn}

abbrev screen : Rect
screen = record { x = 0; y = 0; width = 80; height = 24 }

abbrev box : Rect
box = record { x = 5; y = 5; width = 20; height = 10 }

screen-HasRoom : HasRoom screen
screen-HasRoom = ground arith

box-InArea : InArea screen box
box-InArea = ground arith

abbrev layer : FloatingLayer
layer = record {
  panes =
      record { pane_id = 1; rect = box; pinned = false }
      ∷ record { pane_id = 2; rect = box; pinned = false }
      ∷ record { pane_id = 3; rect = box; pinned = true }
      ∷ [];
  ordinary_visible = true;
}

layer-IsLayered : IsLayered layer.panes
layer-IsLayered = ground arith

apply_op-IsLayered_example : IsLayered (apply_op layer (raise_op 1)).panes
apply_op-IsLayered_example = apply_op-IsLayered layer (raise_op 1) layer-IsLayered

count_pane-apply_op_example :
    count_pane 2 (apply_op layer (remove_op 2)).panes
    ≡ count_after (remove_op 2) 2 (count_pane 2 layer.panes)
count_pane-apply_op_example = count_pane-apply_op layer (remove_op 2) 2

apply_op-AllIn_example : AllIn screen (apply_op layer (insert_op 4 screen 50 50)).panes
apply_op-AllIn_example =
    apply_op-AllIn screen screen-HasRoom layer (insert_op 4 screen 50 50) refl
      (box-InArea, (box-InArea, (box-InArea, tt)))

abbrev far : Rect
far = record { x = 70; y = 20; width = 40; height = 30 }

clamp_rect-InArea_example : InArea screen (clamp_rect far screen)
clamp_rect-InArea_example = clamp_rect-InArea far screen screen-HasRoom

abbrev edges : EdgeMask
edges = record { left = true; right = false; top = false; bottom = true }

resize_edges-Resized_example :
    Resized box edges screen (resize_edges box edges (negsuc 2) (pos 4) screen)
resize_edges-Resized_example =
    resize_edges-Resized box edges (negsuc 2) (pos 4) screen screen-HasRoom box-InArea
      (ground arith) (ground arith)
