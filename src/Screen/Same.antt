-- ===== src/Screen/Same.antt =====
-- The derived comparisons of cells, which vvmux-terminal/src/lib.rs asks for.
use vvmux.Prelude.{
  ℕ, Bool, true, false, not, ◌&&◌, Option, none, some, [], ◌∷◌, ◌==◌, if◌then◌else◌,
}
use vvmux.Terminal.{
  TerminalColor, default_color, indexed, rgb, UnderlineStyle, no_underline, single, double, curl,
  dotted, dashed, Text, TerminalHyperlink, Cell,
}

unfoldable pub same_flag : Bool → Bool → Bool
same_flag a b = if a then b else not b

unfoldable pub same_text : Text → Text → Bool
same_text [] [] = true
same_text [] (y ∷ ys) = false
same_text (x ∷ xs) [] = false
same_text (x ∷ xs) (y ∷ ys) = x == y && same_text xs ys

unfoldable pub same_option {ℓ} : {A : Type ℓ} → (A → A → Bool) → Option A → Option A → Bool
same_option same none none = true
same_option same none (some b) = false
same_option same (some a) none = false
same_option same (some a) (some b) = same a b

unfoldable pub same_color : TerminalColor → TerminalColor → Bool
same_color default_color default_color = true
same_color (indexed a) (indexed b) = a == b
same_color (rgb r g b) (rgb r' g' b') = r == r' && g == g' && b == b'
same_color _ _ = false

unfoldable pub underline_number : UnderlineStyle → ℕ
underline_number no_underline = 0
underline_number single = 1
underline_number double = 2
underline_number curl = 3
underline_number dotted = 4
underline_number dashed = 5

unfoldable pub same_underline : UnderlineStyle → UnderlineStyle → Bool
same_underline a b = underline_number a == underline_number b

unfoldable pub same_link : TerminalHyperlink → TerminalHyperlink → Bool
same_link a b = same_option same_text a.id b.id && same_text a.uri b.uri

unfoldable pub same_cell : Cell → Cell → Bool
same_cell a b =
    a.ch == b.ch
    && same_text a.combining b.combining
    && same_color a.foreground b.foreground
    && same_color a.background b.background
    && same_flag a.bold b.bold
    && same_flag a.dim b.dim
    && same_flag a.italic b.italic
    && same_flag a.underline b.underline
    && same_underline a.underline_style b.underline_style
    && same_option same_color a.underline_color b.underline_color
    && same_flag a.blink b.blink
    && same_flag a.inverse b.inverse
    && same_flag a.hidden b.hidden
    && same_flag a.strikeout b.strikeout
    && same_flag a.wide_continuation b.wide_continuation
    && same_flag a.leading_wide_spacer b.leading_wide_spacer
    && same_option (λ m n. m == n) a.tab_width b.tab_width
    && same_option same_link a.hyperlink b.hyperlink
