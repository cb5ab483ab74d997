-- ===== src/Template/Saving.antt =====
-- What the request that saves a template holds.
use procovar_notify.Prelude.{
  ℕ, ◌+◌, ◌≡◌, refl, inl, inr, Option, none, some, ◌==◌, if◌then◌else◌, Bool-cases,
}
use procovar_notify.Template.Body.{SaveOptions, TemplateBody, build_template_body}

-- The sources of content among the fields.
abbrev present {ℓ} : {A : Type ℓ} → Option A → ℕ
present none = 0
present (some x) = 1

abbrev pub sources : TemplateBody → ℕ
sources b = present b.body + present b.base_template_id + present b.structure

-- A body that creates has one source of content, and its key; one that updates always has its kind
-- and the blocks, and the HTML exactly in the HTML mode.
abbrev pub IsComplete : SaveOptions → TemplateBody → Type 0
IsComplete opts b =
    if opts.editing
    then (b.kind ≡ some (if opts.html_mode then "html" else "builder"))
      × (b.structure ≡ some opts.structure)
      × (b.body ≡ (if opts.html_mode then some opts.body else none))
      × (b.base_template_id ≡ none)
    else (sources b ≡ 1)
      × (b.key ≡ some opts.key)
      × (b.kind ≡ (if opts.html_mode then some "html" else none))
      × (b.body ≡ (if opts.html_mode then some opts.body else none))

-- What `buildTemplateBody` sends when it updates has its kind, the blocks, no base, and the HTML
-- exactly in the HTML mode; when it creates, it has the key and exactly one of the HTML, a base and
-- the blocks: the HTML, with its kind, exactly in the HTML mode.
pub build_template_body-IsComplete :
    (opts : SaveOptions) → IsComplete opts (build_template_body opts)
unfolding build_template_body
build_template_body-IsComplete opts = elim (Bool-cases opts.editing) [
  | inl e ↦ rw e (refl, refl, refl, refl)
  | inr e ↦ rw e (elim (Bool-cases opts.html_mode) [
    | inl h ↦ rw h (refl, refl, refl, refl)
    | inr h ↦ rw h (elim (Bool-cases (opts.base_template_id == "")) [
      | inl b ↦ rw b (refl, refl, refl, refl)
      | inr b ↦ rw b (refl, refl, refl, refl)
    ])
  ])
]
