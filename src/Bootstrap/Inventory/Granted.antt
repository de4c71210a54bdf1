-- ===== src/Bootstrap/Inventory/Granted.antt =====
-- What the inventory says of the rights on the host comes from a line of its own, and from no other.
use pwnbridge.Prelude.{
  Bool, true, false, ◌||◌, List, [], ◌∷◌, Option, none, some, ◌≡◌, refl, sym, ap, ◌∙◌, ◌⊎◌, inl,
  inr, Bool-cases, drop, length,
}
use pwnbridge.Prelude.Result.{ok, ok-injective}
use pwnbridge.Prelude.Text.{Bytes, bytes_eq, bytes_eq_refl, bytes_eq_sound, has_prefix}
use pwnbridge.Config.Names.{any, is_empty, split}
use pwnbridge.Recipe.Space.{cut, trim_space}
use pwnbridge.Bootstrap.Inventory.{
  Inventory, Rule, apply_rules, empty_inventory, exact, home_line, inspect, starting, read_lines,
  root_line, rules, set_tool_value, sudo_line,
}

-- No case but that of this line changes the field.
abbrev Only : (Inventory → Bool) → Bytes → List Rule → Type 0
Only f text [] = Unit
Only f text (starting p set_field ∷ rest) =
    ((s : Bytes) (v : Inventory) → f (set_field s v) ≡ f v) × Only f text rest
Only f text (exact u set_field ∷ rest) =
    ((bytes_eq u text ≡ true) ⊎ ((v : Inventory) → f (set_field v) ≡ f v)) × Only f text rest

module _ (f : Inventory → Bool) (text : Bytes) where
  apply_rules_other :
      (rs : List Rule) (line : Bytes) (v : Inventory)
      → Only f text rs
      → bytes_eq line text ≡ false
      → f (apply_rules rs line v) ≡ f v
  unfolding apply_rules
  apply_rules_other [] line v o h = refl
  apply_rules_other (starting p set_field ∷ rest) line v (o, os) h =
      elim (Bool-cases (has_prefix line p)) [
        | inl e ↦ rw e (o (drop (length p) line) v)
        | inr e ↦ rw e (apply_rules_other rest line v os h)
      ]
  apply_rules_other (exact u set_field ∷ rest) line v (o, os) h =
      elim (Bool-cases (bytes_eq line u)) [
        | inr e ↦ rw e (apply_rules_other rest line v os h)
        | inl e ↦ elim o [
          | inr keeps ↦ rw e (keeps v)
          | inl same ↦ cc (h, (ap (λ l. bytes_eq l text) (bytes_eq_sound line u e) ∙ same))
        ]
      ]

  -- One of the lines, without the white space around it, is this one.
  abbrev pub some_line : List Bytes → Bool
  some_line lines = any (λ line. bytes_eq (trim_space line) text) lines

  or_assoc : (a b c : Bool) → ((a || b) || c) ≡ (a || (b || c))
  or_assoc true b c = refl
  or_assoc false b c = refl

  or-true : (a : Bool) → (a || true) ≡ true
  or-true true = refl
  or-true false = refl

  or-false : (a : Bool) → (a || false) ≡ a
  or-false true = refl
  or-false false = refl

  read_lines-some_line :
      (lines : List Bytes) (v : Inventory)
      → Only f text rules
      → ((v : Inventory) → f (apply_rules rules text v) ≡ true)
      → f (read_lines lines v) ≡ (f v || some_line lines)
  unfolding read_lines
  read_lines-some_line [] v o g = sym (or-false (f v))
  read_lines-some_line (line ∷ lines) v o g =
      read_lines-some_line lines (apply_rules rules (trim_space line) v) o g
      ∙ elim (Bool-cases (bytes_eq (trim_space line) text)) [
        | inl e ↦
            rw (bytes_eq_sound (trim_space line) text e, g v, bytes_eq_refl text)
              (sym (or-true (f v)))
        | inr e ↦ rw (apply_rules_other rules (trim_space line) v o e, e) refl
      ]

set_tool_value_home :
    (name : Bytes) (value : Option Bytes) (v : Inventory)
    → (set_tool_value name value v).home_writable ≡ v.home_writable
set_tool_value_home name none v = refl
set_tool_value_home name (some raw) v = refl

home_line-Only : Only Inventory.home_writable home_line rules
unfolding bytes_eq
home_line-Only = (
  (λ s v. refl),
  (
    (λ s v. refl),
    (
      (λ s v. refl),
      (
        (λ s v. refl),
        (
          (λ s v. refl),
          (
            (λ s v. refl),
            (
              (λ s v. refl),
              (
                (λ s v. refl),
                (
                  (λ s v. refl),
                  (
                    (λ s v. refl),
                    (
                      inl refl,
                      (
                        inr (λ v. refl),
                        (
                          inr (λ v. refl),
                          (
                            inr (λ v. refl),
                            (
                              (λ s v. set_tool_value_home ((cut b'=' s).0) ((cut b'=' s).1) v),
                              ((λ s v. refl), ((λ s v. refl), ((λ s v. refl), tt))),
                            ),
                          ),
                        ),
                      ),
                    ),
                  ),
                ),
              ),
            ),
          ),
        ),
      ),
    ),
  ),
)

home_line_granted : (v : Inventory) → (apply_rules rules home_line v).home_writable ≡ true
unfolding apply_rules has_prefix bytes_eq
home_line_granted v = refl

set_tool_value_root :
    (name : Bytes) (value : Option Bytes) (v : Inventory)
    → (set_tool_value name value v).root ≡ v.root
set_tool_value_root name none v = refl
set_tool_value_root name (some raw) v = refl

root_line-Only : Only Inventory.root root_line rules
unfolding bytes_eq
root_line-Only = (
  (λ s v. refl),
  (
    (λ s v. refl),
    (
      (λ s v. refl),
      (
        (λ s v. refl),
        (
          (λ s v. refl),
          (
            (λ s v. refl),
            (
              (λ s v. refl),
              (
                (λ s v. refl),
                (
                  (λ s v. refl),
                  (
                    (λ s v. refl),
                    (
                      inr (λ v. refl),
                      (
                        inl refl,
                        (
                          inr (λ v. refl),
                          (
                            inr (λ v. refl),
                            (
                              (λ s v. set_tool_value_root ((cut b'=' s).0) ((cut b'=' s).1) v),
                              ((λ s v. refl), ((λ s v. refl), ((λ s v. refl), tt))),
                            ),
                          ),
                        ),
                      ),
                    ),
                  ),
                ),
              ),
            ),
          ),
        ),
      ),
    ),
  ),
)

root_line_granted : (v : Inventory) → (apply_rules rules root_line v).root ≡ true
unfolding apply_rules has_prefix bytes_eq
root_line_granted v = refl

set_tool_value_sudo :
    (name : Bytes) (value : Option Bytes) (v : Inventory)
    → (set_tool_value name value v).sudo_available ≡ v.sudo_available
set_tool_value_sudo name none v = refl
set_tool_value_sudo name (some raw) v = refl

sudo_line-Only : Only Inventory.sudo_available sudo_line rules
unfolding bytes_eq
sudo_line-Only = (
  (λ s v. refl),
  (
    (λ s v. refl),
    (
      (λ s v. refl),
      (
        (λ s v. refl),
        (
          (λ s v. refl),
          (
            (λ s v. refl),
            (
              (λ s v. refl),
              (
                (λ s v. refl),
                (
                  (λ s v. refl),
                  (
                    (λ s v. refl),
                    (
                      inr (λ v. refl),
                      (
                        inr (λ v. refl),
                        (
                          inl refl,
                          (
                            inr (λ v. refl),
                            (
                              (λ s v. set_tool_value_sudo ((cut b'=' s).0) ((cut b'=' s).1) v),
                              ((λ s v. refl), ((λ s v. refl), ((λ s v. refl), tt))),
                            ),
                          ),
                        ),
                      ),
                    ),
                  ),
                ),
              ),
            ),
          ),
        ),
      ),
    ),
  ),
)

sudo_line_granted : (v : Inventory) → (apply_rules rules sudo_line v).sudo_available ≡ true
unfolding apply_rules has_prefix bytes_eq
sudo_line_granted v = refl

-- When Inspect gives an inventory, the host's home is writable, its user is root, and sudo is available
-- exactly as far as a line of the output, without the white space around it, is the one that says so.
pub inspect_granted :
    (quote : Bytes → Bytes) (output : Bytes) (v : Inventory)
    → inspect quote (ok output) ≡ ok v
    → (v.home_writable ≡ some_line Inventory.home_writable home_line (split b'\n' output))
      × (v.root ≡ some_line Inventory.root root_line (split b'\n' output))
      × (v.sudo_available ≡ some_line Inventory.sudo_available sudo_line (split b'\n' output))
unfolding inspect
inspect_granted quote output v h =
    let value = read_lines (split b'\n' output) empty_inventory in
    let same : value ≡ v = elim (Bool-cases (is_empty value.os || is_empty value.architecture)) [
      | inl e ↦ cc (rw e at (h))
      | inr e ↦ ok-injective value v (rw e at (h))
    ] in
    let lines = split b'\n' output in
    (
      ap Inventory.home_writable (sym same)
          ∙ read_lines-some_line Inventory.home_writable home_line lines empty_inventory
              home_line-Only home_line_granted,
      ap Inventory.root (sym same)
          ∙ read_lines-some_line Inventory.root root_line lines empty_inventory root_line-Only
              root_line_granted,
      ap Inventory.sudo_available (sym same)
          ∙ read_lines-some_line Inventory.sudo_available sudo_line lines empty_inventory
              sudo_line-Only sudo_line_granted,
    )
