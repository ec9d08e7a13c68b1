-- ===== src/Input/Prefix/Emits.antt =====
-- What one byte gives in each mode of `PrefixParser::feed` of src/client_input.rs.
use mathlib.Core.List.{append-nil, append_assoc}
use vvmux.Prelude.{
  ℕ, true, false, ◌||◌, not, List, [], ◌∷◌, ◌++◌, map, length, leb, ◌==◌, ◌≡◌, refl, sym, ap, ◌∙◌,
  ◌⊎◌, inl, inr, Bool-cases, Option-cases,
}
use vvmux.Input.Event.{
  ParsedInput, input, action, mouse, detach, Action, MouseEvent, is_empty, close_pane,
}
use vvmux.Input.Mouse.{parse_sgr_mouse}
use vvmux.Input.Prefix.{
  PrefixParser, Feeding, prefix_sequence, get_binding, push_output, push_ordinary, flush,
  set_parser, command_of, step_confirm, step_sequence, valid_prefix, step_mouse, step_ordinary,
  step_command,
}

-- One byte of input, or one event, in the order in which the client sees them.
pub data Item : Type 0 where
  typed : ℕ → Item
  action_item : Action → Item
  mouse_item : MouseEvent → Item
  detach_item : Item

unfoldable pub items_of : ParsedInput → List Item
items_of (input bytes) = map typed bytes
items_of (action a) = action_item a ∷ []
items_of (mouse m) = mouse_item m ∷ []
items_of detach = detach_item ∷ []

unfoldable pub items : List ParsedInput → List Item
items [] = []
items (e ∷ es) = items_of e ++ items es

items-append : (xs ys : List ParsedInput) → items (xs ++ ys) ≡ items xs ++ items ys
unfolding items
items-append [] ys = refl
items-append (x ∷ xs) ys =
    ap (λ t. items_of x ++ t) (items-append xs ys)
    ∙ sym (append_assoc (items_of x) (items xs) (items ys))

map_typed-append : (xs ys : List ℕ) → map typed (xs ++ ys) ≡ map typed xs ++ map typed ys
map_typed-append [] ys = refl
map_typed-append (x ∷ xs) ys = ap (λ t. typed x ∷ t) (map_typed-append xs ys)

-- What a feeding has given so far, with the bytes that it still holds back.
unfoldable pub given : Feeding → List Item
given f = items f.output ++ map typed f.ordinary

abbrev pub fresh : PrefixParser → Feeding
fresh p = record { parser = p; output = []; ordinary = [] }

pub record IsCalm (p : PrefixParser) : Type 0 where
  pub closes : p.confirm_close ≡ false
  pub escapes : is_empty p.sequence ≡ true
  pub commands : p.prefix ≡ false

-- No byte is held back while the next one may become an event.
abbrev pub InOrder : Feeding → Type 0
InOrder f = (f.ordinary ≡ []) ⊎ IsCalm f.parser

-- `g` comes from `f` by giving what `g₀` gives from nothing.
pub record Emits (f g g₀ : Feeding) : Type 0 where
  pub same_parser : g.parser ≡ g₀.parser
  pub gives : given g ≡ given f ++ given g₀
  pub in_order : InOrder g

quiet-Emits :
    (f : Feeding) (p p' : PrefixParser)
    → (f.ordinary ≡ []) ⊎ IsCalm p'
    → Emits f (set_parser p' f) (set_parser p' (fresh p))
unfolding given items set_parser
quiet-Emits f p p' o = record {
  same_parser = refl;
  gives = sym (append-nil (items f.output ++ map typed f.ordinary));
  in_order = o;
}

output-Emits :
    (f : Feeding) (p p' : PrefixParser) (e : ParsedInput)
    → f.ordinary ≡ []
    → Emits f (set_parser p' (push_output e f)) (set_parser p' (push_output e (fresh p)))
unfolding given items set_parser push_output
output-Emits f p p' e o = record {
  same_parser = refl;
  gives = simp (o, append-nil, items-append) refl;
  in_order = inl o;
}

ordinary-Emits :
    (f : Feeding) (p p' : PrefixParser) (bytes : List ℕ)
    → IsCalm p'
    → Emits f
        (set_parser p' (push_ordinary bytes f))
        (set_parser p' (push_ordinary bytes (fresh p)))
unfolding given items set_parser push_ordinary
ordinary-Emits f p p' bytes c = record {
  same_parser = refl;
  gives =
      rw (map_typed-append f.ordinary bytes)
        (sym (append_assoc (items f.output) (map typed f.ordinary) (map typed bytes)));
  in_order = inr c;
}

flush_fields-given :
    (p : PrefixParser) (out : List ParsedInput) (bytes : List ℕ)
    → let f : Feeding = record { parser = p; output = out; ordinary = bytes } in
      (given (flush f) ≡ given f) × ((flush f).ordinary ≡ []) × ((flush f).parser ≡ p)
unfolding given items flush items_of is_empty
flush_fields-given p out [] = (refl, refl, refl)
flush_fields-given p out (b ∷ bs) = (simp (items-append, append-nil) refl, refl, refl)

pub flush-given :
    (f : Feeding)
    → (given (flush f) ≡ given f) × ((flush f).ordinary ≡ []) × ((flush f).parser ≡ f.parser)
flush-given f = flush_fields-given f.parser f.output f.ordinary

-- After a flush, what holds of a feeding without ordinary bytes.
flushed-Emits : (f g g₀ : Feeding) → Emits (flush f) g g₀ → Emits f g g₀
flushed-Emits f g g₀ e = record {
  same_parser = e.same_parser;
  gives = e.gives ∙ ap (λ t. t ++ given g₀) (flush-given f).0;
  in_order = e.in_order;
}

pub not_calm : (f : Feeding) → InOrder f → ¬ IsCalm f.parser → f.ordinary ≡ []
not_calm f (inl o) n = o
not_calm f (inr c) n = absurd (n c)

pub confirm-Emits :
    (f : Feeding) (byte : ℕ)
    → f.ordinary ≡ []
    → Emits f (step_confirm f byte) (step_confirm (fresh f.parser) byte)
unfolding step_confirm push_output set_parser
confirm-Emits f byte o = elim (Bool-cases ((byte == 121) || (byte == 89))) [
  | inl y ↦
      simp y
        (output-Emits f f.parser (record f.parser { confirm_close = false }) (action close_pane) o)
  | inr n ↦ simp n (quiet-Emits f f.parser (record f.parser { confirm_close = false }) (inl o))
]

pub sequence-Emits :
    (f : Feeding) (byte : ℕ)
    → f.ordinary ≡ []
    → Emits f (step_sequence f byte) (step_sequence (fresh f.parser) byte)
unfolding step_sequence
sequence-Emits f byte o =
    let sequence = f.parser.sequence ++ (byte ∷ []) in
    let ended : PrefixParser = record f.parser { sequence = []; prefix = false } in
    elim (Option-cases (prefix_sequence sequence)) [
      | inr (command, e) ↦
          simp (step_sequence, e) (output-Emits f f.parser ended (action command) o)
      | inl n ↦ elim (Bool-cases (leb 7 (length sequence))) [
        | inl y ↦ simp (step_sequence, n, y) (quiet-Emits f f.parser ended (inl o))
        | inr y ↦
            simp (step_sequence, n, y)
              (quiet-Emits f f.parser (record f.parser { sequence = sequence }) (inl o))
      ]
    ]

pub command-Emits :
    (f : Feeding) (byte : ℕ)
    → f.ordinary ≡ []
    → Emits f (step_command f byte) (step_command (fresh f.parser) byte)
unfolding step_command
command-Emits f byte o =
    let p = f.parser in
    let ended : PrefixParser = record p { prefix = false } in
    elim (Option-cases (get_binding p.bindings byte)) [
      | inr (bound, e) ↦ simp (step_command, e) (output-Emits f p ended (action bound) o)
      | inl n ↦ elim (Bool-cases (byte == p.prefix_byte)) [
        | inl y ↦ simp (step_command, n, y) (output-Emits f p ended (input (p.prefix_byte ∷ [])) o)
        | inr y ↦ elim (Option-cases (command_of byte)) [
          | inr (event, e) ↦ simp (step_command, n, y, e) (output-Emits f p ended event o)
          | inl e ↦ elim (Bool-cases (byte == 120)) [
            | inl x ↦
                simp (step_command, n, y, e, x)
                  (quiet-Emits f p (record ended { confirm_close = true }) (inl o))
            | inr x ↦ elim (Bool-cases (byte == 27)) [
              | inl z ↦
                  simp (step_command, n, y, e, x, z)
                    (quiet-Emits f p (record p { sequence = byte ∷ [] }) (inl o))
              | inr z ↦ simp (step_command, n, y, e, x, z) (quiet-Emits f p ended (inl o))
            ]
          ]
        ]
      ]
    ]

pub mouse-Emits :
    (f : Feeding) (byte : ℕ)
    → IsCalm f.parser
    → Emits f (step_mouse f byte) (step_mouse (fresh f.parser) byte)
unfolding step_mouse flush is_empty
mouse-Emits f byte c =
    let p = f.parser in
    let sequence = p.mouse_sequence ++ (byte ∷ []) in
    let cleared : PrefixParser = record p { mouse_sequence = [] } in
    let calm : IsCalm cleared = record {
      closes = c.closes;
      escapes = c.escapes;
      commands = c.commands;
    } in
    let (same, empty, parser) = flush-given f in
    elim (Bool-cases (not (valid_prefix sequence))) [
      | inl v ↦ simp v (ordinary-Emits f p cleared sequence calm)
      | inr v ↦ elim (Bool-cases ((byte == 77) || (byte == 109))) [
        | inl m ↦ elim (Option-cases (parse_sgr_mouse sequence)) [
          | inr (event, e) ↦
              simp (v, m, e)
                (flushed-Emits f _ _ (output-Emits (flush f) p cleared (mouse event) empty))
          | inl e ↦
              simp (v, m, e)
                (flushed-Emits f _ _ (ordinary-Emits (flush f) p cleared sequence calm))
        ]
        | inr m ↦ elim (Bool-cases (leb 64 (length sequence))) [
          | inl l ↦ simp (v, m, l) (ordinary-Emits f p cleared sequence calm)
          | inr l ↦
              simp (v, m, l)
                (quiet-Emits f p (record p { mouse_sequence = sequence })
                  (inr (record { closes = c.closes; escapes = c.escapes; commands = c.commands })))
        ]
      ]
    ]

pub plain-Emits :
    (f : Feeding) (byte : ℕ)
    → IsCalm f.parser
    → Emits f (step_ordinary f byte) (step_ordinary (fresh f.parser) byte)
unfolding step_ordinary flush is_empty push_ordinary set_parser
plain-Emits f byte c =
    let p = f.parser in
    let (same, empty, parser) = flush-given f in
    elim (Bool-cases (byte == 27)) [
      | inl e ↦ simp e (
          quiet-Emits f p (record p { mouse_sequence = 27 ∷ [] })
            (inr (record { closes = c.closes; escapes = c.escapes; commands = c.commands })))
      | inr e ↦ elim (Bool-cases (byte == p.prefix_byte)) [
        | inl m ↦
            simp (e, m)
              (flushed-Emits f _ _
                (quiet-Emits (flush f) p (record p { prefix = true }) (inl empty)))
        | inr m ↦ simp (e, m) (ordinary-Emits f p p (byte ∷ []) c)
      ]
    ]
