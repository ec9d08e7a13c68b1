-- ===== src/Input/Prefix/Feed.antt =====
-- `PrefixParser::feed` of src/client_input.rs does not depend on how its bytes are split.
use mathlib.Core.List.{append-nil, append_assoc}
use vvmux.Prelude.{ℕ, List, [], ◌∷◌, ◌++◌, map, ◌≡◌, refl, sym, ap, ap₂, ◌∙◌, inl, inr, Bool-cases}
use vvmux.Input.Event.{is_empty}
use vvmux.Input.Prefix.{PrefixParser, Feeding, flush, step, steps, feed}
use vvmux.Input.Prefix.Emits.{
  typed, items, given, fresh, IsCalm, InOrder, Emits, flush-given, not_calm, confirm-Emits,
  sequence-Emits, command-Emits, mouse-Emits, plain-Emits,
}

-- One byte gives the same from a parser whatever was given before, and in its place.
step-Emits :
    (f : Feeding) (byte : ℕ) → InOrder f → Emits f (step f byte) (step (fresh f.parser) byte)
unfolding step
step-Emits f byte o =
    let p = f.parser in
    elim (Bool-cases p.confirm_close) [
      | inl c ↦ simp c (confirm-Emits f byte (not_calm f o (λ k. let n = k.closes in cc)))
      | inr c ↦ elim (Bool-cases (is_empty p.sequence)) [
        | inr s ↦ simp (c, s) (sequence-Emits f byte (not_calm f o (λ k. let n = k.escapes in cc)))
        | inl s ↦ elim (Bool-cases p.prefix) [
          | inl x ↦
              simp (c, s, x) (command-Emits f byte (not_calm f o (λ k. let n = k.commands in cc)))
          | inr x ↦
              let calm : IsCalm p = record { closes = c; escapes = s; commands = x } in
              elim (Bool-cases (is_empty p.mouse_sequence)) [
                | inr m ↦ simp (c, s, x, m) (mouse-Emits f byte calm)
                | inl m ↦ simp (c, s, x, m) (plain-Emits f byte calm)
              ]
        ]
      ]
    ]

steps-Emits :
    (f : Feeding) (bytes : List ℕ)
    → InOrder f
    → Emits f (steps f bytes) (steps (fresh f.parser) bytes)
unfolding steps given items
steps-Emits f [] o = record { same_parser = refl; gives = sym (append-nil (given f)); in_order = o }
steps-Emits f (byte ∷ bytes) o =
    let one = step-Emits f byte o in
    let one₀ = step-Emits (fresh f.parser) byte (inl refl) in
    let rest = steps-Emits (step f byte) bytes one.in_order in
    let rest₀ = steps-Emits (step (fresh f.parser) byte) bytes one₀.in_order in
    let same : given (steps (fresh (step f byte).parser) bytes)
        ≡ given (steps (fresh (step (fresh f.parser) byte).parser) bytes) =
      ap (λ t. given (steps (fresh t) bytes)) one.same_parser in
    let ends : (steps (fresh (step f byte).parser) bytes).parser
        ≡ (steps (fresh (step (fresh f.parser) byte).parser) bytes).parser =
      ap (λ t. (steps (fresh t) bytes).parser) one.same_parser in
    record {
      same_parser = rest.same_parser ∙ ends ∙ sym rest₀.same_parser;
      gives =
          rest.gives
          ∙ ap (λ t. t ++ given (steps (fresh (step f byte).parser) bytes)) one.gives
          ∙ append_assoc (given f) _ _
          ∙ ap (λ t. given f ++ (given (step (fresh f.parser) byte) ++ t)) same
          ∙ ap (λ t. given f ++ t) (sym rest₀.gives);
      in_order = rest.in_order;
    }

steps-append : (f : Feeding) (xs ys : List ℕ) → steps f (xs ++ ys) ≡ steps (steps f xs) ys
unfolding steps
steps-append f [] ys = refl
steps-append f (x ∷ xs) ys = steps-append (step f x) xs ys

feed-given :
    (p : PrefixParser) (bytes : List ℕ)
    → ((feed p bytes).0 ≡ (steps (fresh p) bytes).parser)
      × (items (feed p bytes).1 ≡ given (steps (fresh p) bytes))
unfolding feed given
feed-given p bytes =
    let (same, empty, parser) = flush-given (steps (fresh p) bytes) in
    (
      parser,
      sym (append-nil _)
          ∙ sym (ap (λ t. items (flush (steps (fresh p) bytes)).output ++ map typed t) empty)
          ∙ same,
    )

-- Bytes that arrive in two reads give the same input and events, in the same order, as the same
-- bytes in one read, from any parser, and leave the same parser.
pub feed-append :
    (p : PrefixParser) (xs ys : List ℕ)
    → ((feed p (xs ++ ys)).0 ≡ (feed (feed p xs).0 ys).0)
      × (items (feed p (xs ++ ys)).1 ≡ items (feed p xs).1 ++ items (feed (feed p xs).0 ys).1)
feed-append p xs ys =
    let (end, all) = feed-given p (xs ++ ys) in
    let (end₁, all₁) = feed-given p xs in
    let (end₂, all₂) = feed-given (feed p xs).0 ys in
    let first = steps-Emits (fresh p) xs (inl refl) in
    let second = steps-Emits (steps (fresh p) xs) ys first.in_order in
    let seam : fresh (steps (fresh p) xs).parser ≡ fresh (feed p xs).0 =
      ap (λ t. fresh t) (sym end₁) in
    (
      end
          ∙ ap (λ t. t.parser) (steps-append (fresh p) xs ys)
          ∙ second.same_parser
          ∙ ap (λ t. (steps t ys).parser) seam
          ∙ sym end₂,
      all
          ∙ ap given (steps-append (fresh p) xs ys)
          ∙ second.gives
          ∙ ap₂ (λ t u. t ++ u) (sym all₁) (ap (λ t. given (steps t ys)) seam ∙ sym all₂),
    )
