-- ===== src/Controls.antt =====
-- The shared controls of frontend/src/ui.tsx, and the small components of frontend/src/components:
-- what they map their arguments to.
use Prim.Native.Char.{Char, code}
use Prim.Native.String
use Prim.Native.String.{[], ◌∷◌}
use procovar_notify.Prelude.{
  String, ℕ, ◌-◌, Bool, true, false, ◌&&◌, ◌||◌, Option, none, some, List, [], ◌∷◌, ◌==◌, eqb, leb,
  if◌then◌else◌, any, map, Dict, lookup, insert,
}
use mathlib.Core.Option.{get_or}
use procovar_notify.Structure.{VariableSpec}

-- `Button`
pub data Variant : Type 0 where
  primary secondary danger : Variant

unfoldable pub variant_map : Variant → String
variant_map primary = "default"
variant_map secondary = "secondary"
variant_map danger = "destructive"

-- `Select`: the value of an option is its own, or the text of its label.
abbrev empty_value : String
empty_value = "__empty__"

pub record SelectOption : Type 0 where
  pub value : Option String
  pub label : Option String

unfoldable pub option_value : SelectOption → String
option_value o = get_or o.value (get_or o.label "")

unfoldable pub to_item : String → String
to_item v = if v == "" then empty_value else v

-- What `onChange` is called with.
unfoldable pub on_value_change : String → String
on_value_change v = if v == empty_value then "" else v

unfoldable pub select_items : List SelectOption → List (String × Option String)
unfolding option_value to_item
select_items os = map (λ (o : SelectOption). (to_item (option_value o), o.label)) os

-- Letters are compared without their case: those of the patterns below, and the "í" of "sí".
abbrev fold_case : ℕ → ℕ
fold_case n = if leb 97 n && leb n 122 then n - 32 else if eqb n 237 then 205 else n

abbrev same_letter : Char → Char → Bool
same_letter c d = eqb (fold_case (code c)) (fold_case (code d))

unfoldable pub starts_with : String → String → Bool
starts_with [] s = true
starts_with (c ∷ p) [] = false
starts_with (c ∷ p) (d ∷ s) = let rest = starts_with p s in same_letter c d && rest

unfoldable pub is_word : String → String → Bool
is_word [] [] = true
is_word [] (d ∷ s) = false
is_word (c ∷ p) [] = false
is_word (c ∷ p) (d ∷ s) = let rest = is_word p s in same_letter c d && rest

unfoldable pub has_word : String → String → Bool
unfolding starts_with
has_word p [] = starts_with p []
has_word p (d ∷ s) = let rest = has_word p s in starts_with p (◌∷◌ d s) || rest

pub data Tone : Type 0 where
  ok bad warn muted : Tone

unfoldable pub status_tone : String → Tone
unfolding is_word has_word
status_tone value =
    if any (λ w. is_word w value)
      ("ACTIVE" ∷ "SENT" ∷ "COMPLETED" ∷ "DELIVERED" ∷ "sí" ∷ "true" ∷ [])
    then ok
    else if any (λ w. has_word w value) ("FAIL" ∷ "DISABLED" ∷ "REVOKED" ∷ "CANCELLED" ∷ [])
    then bad
    else if any (λ w. has_word w value) ("PENDING" ∷ "QUEUED" ∷ "RETRY" ∷ "SCHEDULED" ∷ [])
    then warn
    else muted

-- `BADGE_TONE`: the class of the text and that of the pill.
unfoldable pub badge_tone : Tone → String × String
badge_tone ok = ("text-primary", "md:bg-primary/10")
badge_tone bad = ("text-destructive", "md:bg-destructive/10")
badge_tone warn = ("text-amber-600 dark:text-amber-400", "md:bg-amber-500/15")
badge_tone muted = ("text-muted-foreground", "md:bg-secondary md:text-secondary-foreground")

unfoldable pub status_text_color : String → String
unfolding status_tone badge_tone
status_text_color value = (badge_tone (status_tone value)).0

-- `ErrorText`: an error of the client shows its message, another its text; nothing is no error.
pub data ShownError : Type 0 where
  no_error : ShownError
  api_error : String → ShownError
  other_error : String → ShownError

unfoldable pub error_text : ShownError → Option String
error_text no_error = none
error_text (api_error message) = some message
error_text (other_error text) = some text

-- The labels that `Table` puts on the cells of a row, by the heads of the columns.
unfoldable pub cell_labels : {A : Type 0} → List String → List A → List (A × String)
cell_labels head [] = []
cell_labels [] (c ∷ cs) = (c, "") ∷ cell_labels [] cs
cell_labels (h ∷ hs) (c ∷ cs) = (c, h) ∷ cell_labels hs cs

-- `Breadcrumb`: the crumbs, each with a mark between it and the one before, as links or as text.
pub record Crumb : Type 0 where
  pub label : String
  pub to : Option String

abbrev link_of : Option String → Option String
link_of none = none
link_of (some to) = if to == "" then none else some to

abbrev crumbs_from : Bool → List Crumb → List (Bool × Option String × String)
crumbs_from marked [] = []
crumbs_from marked (c ∷ cs) = (marked, link_of c.to, c.label) ∷ crumbs_from true cs

unfoldable pub breadcrumb : List Crumb → List (Bool × Option String × String)
breadcrumb items = crumbs_from false items

-- The notices of the preview.
abbrev join : List String → String
join [] = ""
join (e ∷ []) = e
join (e ∷ f ∷ es) = String.◌++◌ e (String.◌++◌ ", " (join (f ∷ es)))

unfoldable pub paused_notice : Bool → Option String
paused_notice false = none
paused_notice true =
    some
      "Vista previa en pausa: hay una variable sin cerrar. Termina de escribirla y se actualizará."

unfoldable pub missing_notice : Option (List String) → Option String
missing_notice none = none
missing_notice (some []) = none
missing_notice (some (m ∷ ms)) = some (String.◌++◌ "Faltan variables: " (join (m ∷ ms)))

-- `VariablesPanel`: the change of a variable's specification, and the rows.
pub data SpecPatch : Type 0 where
  sets_type sets_description : String → SpecPatch
  sets_required : Bool → SpecPatch

abbrev no_spec : VariableSpec
no_spec = record { required = none; type = none; description = none }

abbrev patched : SpecPatch → VariableSpec → VariableSpec
patched (sets_type t) s = record s { type = some t }
patched (sets_description t) s = record s { description = some t }
patched (sets_required b) s = record s { required = some b }

unfoldable pub set_spec : String → SpecPatch → Dict VariableSpec → Dict VariableSpec
unfolding insert lookup
set_spec name patch specs = insert name (patched patch (get_or (lookup name specs) no_spec)) specs

pub record VariableRow : Type 0 where
  pub name : String
  pub type : String
  pub required : Bool
  pub test_value : String
  pub description : String

abbrev or_text : String → Option String → String
or_text other none = other
or_text other (some t) = if t == "" then other else t

abbrev is_required : Option Bool → Bool
is_required none = true
is_required (some b) = b

unfoldable pub variable_rows :
    (String → String) → Dict VariableSpec → List String → List VariableRow
unfolding lookup
variable_rows test_value specs detected =
    map
      (λ (v : String).
        let spec = get_or (lookup v specs) no_spec in
        record {
          name = v;
          type = or_text "string" spec.type;
          required = is_required spec.required;
          test_value = test_value v;
          description = or_text "" spec.description;
        })
      detected

-- `ErrorBoundary`: the error that a rendering below it throws is kept until the button is pressed.
pub record Boundary (E : Type 0) : Type 0 where
  pub error : Option E

pub data BoundaryEvent (E : Type 0) : Type 0 where
  throws : E → BoundaryEvent E
  resets : BoundaryEvent E

unfoldable pub on_boundary : {E : Type 0} → BoundaryEvent E → Boundary E → Boundary E
on_boundary (throws e) s = record { error = some e }
on_boundary resets s = record { error = none }

-- What is shown: the children, or a fallback of its own or of the caller.
pub data Shown : Type 0 where
  children own_fallback given_fallback : Shown

unfoldable pub boundary_shows : {E : Type 0} → Bool → Boundary E → Shown
boundary_shows has_fallback s = elim s.error [
  | none ↦ children
  | some e ↦ if has_fallback then given_fallback else own_fallback
]
