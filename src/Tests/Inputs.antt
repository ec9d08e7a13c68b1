-- ===== src/Tests/Inputs.antt =====
-- Concrete bytes and tabs for the theorems on src/client_input.rs and src/session.rs.
use vvmux.Prelude.{List, ℕ, ◌≤◌, ◌≡◌, true, false, none, some, [], ◌∷◌, ◌++◌}
use vvmux.Layout.Rect.{Rect}
use vvmux.Layout.Focus.{PaneProjection, PaneLayer, tiled, floating}
use vvmux.Input.Prefix.{PrefixParser, feed}
use vvmux.Input.Prefix.Emits.{items}
use vvmux.Input.Prefix.Feed.{feed-append}
use vvmux.Session.Tab.{Tab, member, any_pane, projection_pane_priority}
use vvmux.Session.Paste.{position, sanitize_bracketed_paste}
use vvmux.Session.Paste.Broken.{position-sanitize_bracketed_paste}
use vvmux.Session.Display.{DisplayMetrics, normalized_display, content_area, content_area-HasRoom}
use vvmux.Layout.Floating.{min_float_width, min_float_height}
use vvmux.Layout.Floating.Clamp.{HasRoom}
use vvmux.Session.Tab.Priority.{Once, projection_pane_priority-Once}

abbrev parser : PrefixParser
parser = record {
  prefix_byte = 2;
  bindings = [];
  prefix = false;
  sequence = [];
  mouse_sequence = [];
  confirm_close = false;
}

-- A prefix and half of an arrow key, then the other half.
feed-append_example :
    ((feed parser ((97 ∷ 2 ∷ 27 ∷ []) ++ (91 ∷ 65 ∷ []))).0
      ≡ (feed (feed parser (97 ∷ 2 ∷ 27 ∷ [])).0 (91 ∷ 65 ∷ [])).0)
    × (items (feed parser ((97 ∷ 2 ∷ 27 ∷ []) ++ (91 ∷ 65 ∷ []))).1
        ≡ items (feed parser (97 ∷ 2 ∷ 27 ∷ [])).1
          ++ items (feed (feed parser (97 ∷ 2 ∷ 27 ∷ [])).0 (91 ∷ 65 ∷ [])).1)
feed-append_example = feed-append parser (97 ∷ 2 ∷ 27 ∷ []) (91 ∷ 65 ∷ [])

abbrev area : Rect
area = record { x = 0; y = 0; width = 40; height = 10 }

abbrev tab : Tab
tab = record {
  id = 1;
  tree = none;
  floating = record { panes = []; ordinary_visible = true };
  focused = 2;
  last_focused_tiled = some 1;
  zoomed = none;
}

abbrev shown : ℕ → PaneLayer → PaneProjection
shown pane layer = record {
  pane_id = pane;
  outer = area;
  content = area;
  layer = layer;
  focused = false;
}

projection_pane_priority-Once_example :
    Once (projection_pane_priority tab (shown 1 tiled ∷ shown 2 floating ∷ []))
    × (member 1 (projection_pane_priority tab (shown 1 tiled ∷ shown 2 floating ∷ []))
        ≡ any_pane 1 (shown 1 tiled ∷ shown 2 floating ∷ []))
projection_pane_priority-Once_example =
    projection_pane_priority-Once tab (shown 1 tiled ∷ shown 2 floating ∷ []) 1

-- An end marker inside an end marker.
abbrev nested : List ℕ
nested = 27 ∷ 91 ∷ 50 ∷ 27 ∷ 91 ∷ 50 ∷ 48 ∷ 49 ∷ 126 ∷ 48 ∷ 49 ∷ 126 ∷ []

position-sanitize_bracketed_paste_example : position (sanitize_bracketed_paste nested) ≡ none
position-sanitize_bracketed_paste_example = position-sanitize_bracketed_paste nested

abbrev tiny : DisplayMetrics
tiny = record { columns = 3; rows = 2; cell_width = 8; cell_height = 16 }

content_area-HasRoom_example :
    HasRoom (content_area (normalized_display tiny true) true)
    × (min_float_width ≤ (content_area (normalized_display tiny true) true).width)
    × (min_float_height ≤ (content_area (normalized_display tiny true) true).height)
content_area-HasRoom_example = content_area-HasRoom tiny true
