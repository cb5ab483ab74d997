-- ===== src/Template/Specs.antt =====
-- What `specsFromSchema` of frontend/src/pages/templateEditor.utils.ts holds for a name.
use Prim.Native.String.{[], ◌∷◌}
use text.Mathlib.TextLemmas.{cons≢nil}
use procovar_notify.Prelude.{
  String, ◌≡◌, refl, ap, ap₂, sym, ◌∙◌, ◌≢◌, inl, inr, Option, none, some, List, [], ◌∷◌, map, ◌==◌,
  eq_iff, eq_of_ne, Dict, lookup, insert, lookup-insert, Bool-cases, Option-cases,
}
use mathlib.Core.Option
use mathlib.Core.List.{Mem, Nodup, Nodup-cons, mem-cons}
use mathlib.Core.Logic.Or
use procovar_notify.Structure.{VariableSpec}
use procovar_notify.Structure.Variables.{includes}
use procovar_notify.Template.Samples.{
  SchemaEntry, Schema, non_blank_or, specs_of, list_or_empty, specs_from_schema,
}

abbrev pub keys {ℓ} : {V : Type ℓ} → Dict V → List String
keys = map (λ e. e.0)

lookup-absent {ℓ} :
    {V : Type ℓ} (name : String) (d : Dict V) → ¬ Mem name (keys d) → lookup name d ≡ none
unfolding lookup
lookup-absent name [] h = refl
lookup-absent name ((k, v) ∷ d) h =
    let other : k ≢ name = λ e. h (mem-cons.1 (Or.inl (sym e))) in
    rw (eq_of_ne k name other) (lookup-absent name d (λ m. h (mem-cons.1 (Or.inr m))))

-- A text that is there and not empty, or else the other one.
abbrev pub filled_or : String → Option String → String
filled_or other none = other
filled_or other (some []) = other
filled_or other (some (c ∷ t)) = ◌∷◌ c t

filled_or_lem : (other : String) (t : Option String) → non_blank_or other t ≡ filled_or other t
filled_or_lem other none = refl
filled_or_lem other (some []) = refl
filled_or_lem other (some (c ∷ t)) = rw (eq_of_ne (◌∷◌ c t) "" (λ e. cons≢nil e)) refl

-- The specification of a variable from its entry in the schema.
abbrev pub spec_for : List String → String → SchemaEntry → VariableSpec
spec_for required name p = record {
  required = some (includes name required);
  type = some (filled_or "string" p.type);
  description = some (filled_or "" p.description);
}

abbrev made_spec : List String → String → SchemaEntry → VariableSpec
made_spec required name p = record {
  required = some (includes name required);
  type = some (non_blank_or "string" p.type);
  description = some (non_blank_or "" p.description);
}

spec_lem :
    (required : List String) (name : String) (p : SchemaEntry)
    → made_spec required name p ≡ spec_for required name p
spec_lem required name p =
    ap₂
      (λ t u. record {
        required = some (includes name required);
        type = some t;
        description = some u;
      })
      (filled_or_lem "string" p.type) (filled_or_lem "" p.description)

abbrev spec_or :
    List String → String → Option VariableSpec → Option SchemaEntry → Option VariableSpec
spec_or required name other none = other
spec_or required name other (some p) = some (spec_for required name p)

lookup-specs_of :
    (required : List String) (name : String) (props : Dict SchemaEntry) (out : Dict VariableSpec)
    → Nodup (keys props)
    → lookup name (specs_of required props out)
      ≡ spec_or required name (lookup name out) (lookup name props)
unfolding lookup
lookup-specs_of required name [] out d = refl
lookup-specs_of required name ((k, p) ∷ ps) out d =
    ap (λ v. lookup name (specs_of required ps (insert k v out))) (spec_lem required k p)
    ∙ lookup-specs_of required name ps (insert k (spec_for required k p) out) (Nodup-cons.0 d).1
    ∙ ap (λ o. spec_or required name o (lookup name ps))
        (lookup-insert k (spec_for required k p) name out)
    ∙ elim (Bool-cases (k == name)) [
      | inl hit ↦
          let same : k ≡ name = (eq_iff k name).0 hit in
          let absent = lookup-absent name ps (rw same at ((Nodup-cons.0 d).0)) in
          rw (hit, absent) (ap (λ n. some (spec_for required n p)) same)
      | inr miss ↦ rw miss refl
    ]

-- For a schema whose properties have distinct names: a name has a specification exactly if it is
-- among the properties, and then its type is the one given, "string" if none or an empty one is,
-- its description the one given or empty, and it is required exactly if the list of required names
-- has it.
pub lookup-specs_from_schema :
    (schema : Schema) (name : String)
    → Nodup (keys (list_or_empty schema.properties))
    → lookup name (specs_from_schema schema)
      ≡ Option.map
          (spec_for (list_or_empty schema.required) name)
          (lookup name (list_or_empty schema.properties))
unfolding specs_from_schema lookup
lookup-specs_from_schema schema name d =
    lookup-specs_of (list_or_empty schema.required) name (list_or_empty schema.properties) [] d
    ∙ elim (Option-cases (lookup name (list_or_empty schema.properties))) [
      | inl gone ↦ rw gone refl
      | inr (p, found) ↦ rw found refl
    ]
