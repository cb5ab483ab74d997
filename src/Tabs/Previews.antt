-- ===== src/Tabs/Previews.antt =====
-- The request for a preview of a template of the list, frontend/src/pages/tabs/Templates.tsx, and what
-- the deletion of one does.
use Prim.Native.String
use procovar_notify.Prelude.{
  String, ℕ, suc, Bool, false, ◌&&◌, Option, none, some, List, [], ◌==◌, if◌then◌else◌, map,
}
use procovar_notify.Structure.Variables.{detect_variables_in_text, detect_variables}
use procovar_notify.Template.Body.{or_blank}
use procovar_notify.Template.Normalize.{RawStructure, to_structure}
use procovar_notify.Template.Samples.{sample_value}
use procovar_notify.Template.Markup.{PreviewRequest, from_entries}
use procovar_notify.Tabs.{Reply, accepted, rejected}

-- `TemplateFull`, as far as the preview reads it.
pub record TemplateFull : Type 0 where
  pub channel : String
  pub kind : Option String
  pub subject : Option String
  pub body : Option String
  pub structure : RawStructure

abbrev has_kind_html : Option String → Bool
has_kind_html none = false
has_kind_html (some kind) = kind == "html"

unfoldable html_mode : TemplateFull → Bool
html_mode full = full.channel == "EMAIL" && has_kind_html full.kind

-- `uid`, `lower` and `brand_logo` are those of `toStructure` and `sampleValue`; the ids are drawn
-- from the number `n` on, and none of them is sent.
module _ (uid : ℕ → String) (lower : String → String) (brand_logo : String) where
  unfoldable detected : TemplateFull → ℕ → List String
  unfolding html_mode to_structure
  detected full n =
      if html_mode full
      then detect_variables_in_text
          (String.◌++◌ (or_blank full.body) (String.◌++◌ " " (or_blank full.subject)))
      else detect_variables (to_structure uid full.structure full.channel n).0
          (or_blank full.subject)

  unfoldable preview_request : TemplateFull → ℕ → PreviewRequest RawStructure
  unfolding detected html_mode sample_value
  preview_request full n = record {
    channel = full.channel;
    kind = if html_mode full then some "html" else none;
    subject = full.subject;
    structure = if html_mode full then none else some full.structure;
    body = if html_mode full then full.body else none;
    variables = none;
    payload = from_entries (map (λ v. (v, sample_value lower brand_logo v)) (detected full n)) [];
  }

-- The answer to the deletion: the list is loaded again, or the error is shown.
pub record ListState (E : Type 0) : Type 0 where
  pub reloads : ℕ
  pub act_err : Option E

module _ {E : Type 0} where
  unfoldable end_remove : Reply Unit E → ListState E → ListState E
  end_remove (accepted u) s = record s { reloads = suc s.reloads }
  end_remove (rejected e) s = record s { act_err = some e }
