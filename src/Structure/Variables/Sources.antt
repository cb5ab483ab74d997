-- ===== src/Structure/Variables/Sources.antt =====
-- `detectVariables` looks at the subject and at every text of every block, and at nothing else.
use procovar_notify.Prelude.{
  String, ◌≡◌, Bool, false, ◌&&◌, Bool-cases, inl, inr, ◌==◌, ◌||◌, List, [], ◌∷◌, arith, Dict,
}
use procovar_notify.Structure.{Section, Structure, blocks_of}
use procovar_notify.Structure.Variables.{
  includes, add, add_names, is_name, name_of, groups, scan_into, scan_props, scan_blocks,
  detect_variables_in_text, detect_variables,
}
use procovar_notify.Structure.Variables.Names.{includes-add}

-- The text mentions the variable.
abbrev pub mentions : String → String → Bool
mentions v text = includes v (detect_variables_in_text text)

abbrev pub mentioned_in_props : String → Dict String → Bool
mentioned_in_props v [] = false
mentioned_in_props v ((k, text) ∷ props) = mentions v text || mentioned_in_props v props

abbrev pub mentioned_in_blocks : String → List Section → Bool
mentioned_in_blocks v [] = false
mentioned_in_blocks v (b ∷ bs) = mentioned_in_props v b.props || mentioned_in_blocks v bs

-- One of the groups gives the name.
abbrev pub gives : String → List String → Bool
gives v [] = false
gives v (g ∷ gs) = (is_name (name_of g) && name_of g == v) || gives v gs

includes-add_names :
    (v : String) (gs found : List String)
    → includes v (add_names found gs) ≡ (includes v found || gives v gs)
unfolding add_names
includes-add_names v [] found = ground arith
includes-add_names v (g ∷ gs) found = elim (Bool-cases (is_name (name_of g))) [
  | inl e ↦ rw e (
      ground
        (arith, includes-add_names v gs (add found (name_of g)), includes-add v (name_of g) found))
  | inr e ↦ rw e (includes-add_names v gs found)
]

pub mentions-gives : (v text : String) → mentions v text ≡ gives v (groups 0 text)
unfolding detect_variables_in_text scan_into
mentions-gives v text = includes-add_names v (groups 0 text) []

includes-scan_into :
    (v text : String) (found : List String)
    → includes v (scan_into found text) ≡ (includes v found || mentions v text)
unfolding scan_into
includes-scan_into v text found = rw mentions-gives (includes-add_names v (groups 0 text) found)

includes-scan_props :
    (v : String) (props : Dict String) (found : List String)
    → includes v (scan_props found props) ≡ (includes v found || mentioned_in_props v props)
unfolding scan_props
includes-scan_props v [] found = ground arith
includes-scan_props v ((k, text) ∷ props) found =
    ground
      (arith, includes-scan_props v props (scan_into found text), includes-scan_into v text found)

includes-scan_blocks :
    (v : String) (bs : List Section) (found : List String)
    → includes v (scan_blocks found bs) ≡ (includes v found || mentioned_in_blocks v bs)
unfolding scan_blocks
includes-scan_blocks v [] found = ground arith
includes-scan_blocks v (b ∷ bs) found = ground (
  arith,
  includes-scan_blocks v bs (scan_props found b.props),
  includes-scan_props v b.props found,
)

-- A variable is detected exactly if the subject mentions it or a text of a block of the structure
-- does, where a text mentions what `detectVariablesInText` finds in it.
pub includes-detect_variables :
    (v : String) (structure : Structure) (subject : String)
    → includes v (detect_variables structure subject)
      ≡ (mentions v subject || mentioned_in_blocks v (blocks_of structure))
unfolding detect_variables
includes-detect_variables v structure subject = ground (
  arith,
  includes-scan_blocks v (blocks_of structure) (scan_into [] subject),
  includes-scan_into v subject [],
)
